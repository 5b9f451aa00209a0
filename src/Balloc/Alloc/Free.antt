-- ===== src/Balloc/Alloc/Free.antt =====
-- Runs of free blocks, and the partial segment that the search remembers.
use tux3_fuse.Prelude.{ℕ, ◌+◌, ◌-◌, ◌*◌, ◌≤◌, ◌<◌, ◌≡◌, false, arith, refl}
use tux3_fuse.Prelude.Division.{div-mul-add, mod-mul-add}
use tux3_fuse.Bitmap.{test_bit}
use tux3_fuse.Balloc.{Sb, mapsize, allocated}
use tux3_fuse.Balloc.Alloc.{Seg, save_seg, save_partial}

-- None of the `n` blocks from `lo` on is in use.
abbrev pub FreeRun : Sb → ℕ → ℕ → Type 0
FreeRun sb lo n = (b : ℕ) → lo ≤ b → b < lo + n → allocated sb b ≡ false

-- The remembered segment is free, lies in the volume and is shorter than what is asked for.
pub record SegFree (sb : Sb) (blocks : ℕ) (seg : Seg) : Type 0 where
  pub short : seg.count < blocks
  pub inside : seg.block + seg.count ≤ sb.volblocks
  pub free : FreeRun sb seg.block seg.count

-- The last `blocks - need` blocks before `pos` are free.
pub record RunBefore (sb : Sb) (blocks need pos : ℕ) : Type 0 where
  pub positive : 0 < need
  pub bound : need ≤ blocks
  pub fits : blocks - need ≤ pos
  pub free : FreeRun sb (pos - (blocks - need)) (blocks - need)

pub RunBefore-none : (sb : Sb) (blocks pos : ℕ) → 0 < blocks → RunBefore sb blocks blocks pos
RunBefore-none sb blocks pos h = record {
  positive = h;
  bound = omega arith;
  fits = omega arith;
  free = λ b lo hi. absurd (omega arith);
}

pub allocated_at :
    (sb : Sb) (mapblock i : ℕ)
    → i < mapsize sb
    → allocated sb (mapblock * mapsize sb + i) ≡ test_bit (sb.bitmap mapblock) i
allocated_at sb mapblock i h =
    rw (div-mul-add mapblock i (mapsize sb) h, mod-mul-add mapblock i (mapsize sb) h) refl

-- Clear bits of the bitmap block make a free run longer.
pub FreeRun-extend :
    (sb : Sb) (mapblock offset idx n : ℕ)
    → n ≤ mapblock * mapsize sb + offset
    → offset ≤ idx
    → idx ≤ mapsize sb
    → FreeRun sb (mapblock * mapsize sb + offset - n) n
    → ((i : ℕ) → offset ≤ i → i < idx → test_bit (sb.bitmap mapblock) i ≡ false)
    → FreeRun sb (mapblock * mapsize sb + offset - n) (n + (idx - offset))
FreeRun-extend sb mapblock offset idx n fits le inside run clear b lo hi = ground (
  arith,
  run b,
  clear (b - mapblock * mapsize sb),
  allocated_at sb mapblock (b - mapblock * mapsize sb),
  at,
)
  where
    at : mapblock * mapsize sb ≤ b → mapblock * mapsize sb + (b - mapblock * mapsize sb) ≡ b
    at h = omega arith

pub save_partial-SegFree :
    (sb : Sb) (blocks need pos : ℕ) (seg : Seg)
    → RunBefore sb blocks need pos
    → pos ≤ sb.volblocks
    → SegFree sb blocks seg
    → SegFree sb blocks (save_partial blocks need pos seg)
unfolding save_seg
save_partial-SegFree sb blocks need pos seg run inside s = ground (arith, run.free, s.free)
