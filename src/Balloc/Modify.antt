-- ===== src/Balloc/Modify.antt =====
-- What the two loops over the bitmap blocks do to the map, errors included.
use tux3_fuse.Prelude.{
  ◌⊎◌, ℕ, ◌+◌, ◌*◌, ◌%◌, ◌^◌, ◌≤◌, ◌<◌, ◌≡◌, refl, ◌∙◌, Bool, true, false, arith, if◌then◌else◌,
  length,
}
use native.Mathlib.Nat.{one-le-pow}
use native.Mathlib.Numerals.{towards_suc}
use tux3_fuse.Prelude.Division.{mod-lt}
use tux3_fuse.Bitmap.{test_bit}
use tux3_fuse.Bitmap.Set.{in_range, length-set_bits, test_bit-set_bits}
use tux3_fuse.Bitmap.Clear.{length-clear_bits, test_bit-clear_bits}
use tux3_fuse.Balloc.{Sb, mapsize, blocksize, sub64, add64, update, modify, allocated}
use tux3_fuse.Balloc.Range.{in_range-block}

-- Every bitmap block has the volume's block size, and bit offsets in one fit an `unsigned`.
pub record IsWf (sb : Sb) : Type 0 where
  pub sized : (k : ℕ) → length (sb.bitmap k) ≡ blocksize sb
  pub word : mapsize sb < 2 ^ 32
  pub pattern : sb.freeblocks < 2 ^ 64

-- `sb'` is `sb` with `n` blocks from `lo` on marked `set`, and the count of free blocks adjusted.
pub record Modified (sb sb' : Sb) (set : Bool) (lo n : ℕ) : Type 0 where
  pub bits : (b : ℕ) → allocated sb' b ≡ (if in_range lo (lo + n) b then set else allocated sb b)
  pub free : sb'.freeblocks ≡ (if set then sub64 sb.freeblocks n else add64 sb.freeblocks n)
  pub same_blockbits : sb'.blockbits ≡ sb.blockbits
  pub same_volblocks : sb'.volblocks ≡ sb.volblocks
  pub same_nextblock : sb'.nextblock ≡ sb.nextblock
  pub wf : IsWf sb'

pub mapsize_bytes : (sb : Sb) → mapsize sb ≡ 8 * blocksize sb
mapsize_bytes sb = simp towards_suc (omega arith)

pub mapsize_pos : (sb : Sb) → 0 < mapsize sb
mapsize_pos sb = one-le-pow (sb.blockbits + 3) 2 (omega arith)

pub Modified-none : (sb : Sb) (set : Bool) (lo : ℕ) → IsWf sb → Modified sb sb set lo 0
Modified-none sb set lo w = record {
  bits = λ b. ground arith;
  free = ground (arith, w.pattern);
  same_blockbits = refl;
  same_volblocks = refl;
  same_nextblock = refl;
  wf = w;
}

-- A change of no blocks is the same at every place.
pub Modified-move :
    (sb sb' : Sb) (set : Bool) (lo lo' n : ℕ)
    → (n ≡ 0) ⊎ (lo ≡ lo')
    → Modified sb sb' set lo n
    → Modified sb sb' set lo' n
Modified-move sb sb' set lo lo' n e p = record {
  bits = λ b. ground (arith, p.bits b);
  free = p.free;
  same_blockbits = p.same_blockbits;
  same_volblocks = p.same_volblocks;
  same_nextblock = p.same_nextblock;
  wf = p.wf;
}

pub Modified-trans :
    (sb sb₁ sb₂ : Sb) (set : Bool) (lo n k : ℕ)
    → n + k < 2 ^ 64
    → sb.freeblocks < 2 ^ 64
    → Modified sb sb₁ set lo n
    → Modified sb₁ sb₂ set (lo + n) k
    → Modified sb sb₂ set lo (n + k)
Modified-trans sb sb₁ sb₂ set lo n k small pattern p q = record {
  bits = λ b. ground (arith, p.bits b, q.bits b);
  free = ground (arith, p.free, q.free);
  same_blockbits = q.same_blockbits ∙ p.same_blockbits;
  same_volblocks = q.same_volblocks ∙ p.same_volblocks;
  same_nextblock = q.same_nextblock ∙ p.same_nextblock;
  wf = q.wf;
}

-- the result of a `bitmap_modify_bits` that succeeds
abbrev pub modified : Sb → ℕ → ℕ → ℕ → Bool → Sb
modified sb mapblock offset blocks set = record sb {
  bitmap = update sb.bitmap mapblock (modify set (sb.bitmap mapblock) offset blocks);
  freeblocks = if set then sub64 sb.freeblocks blocks else add64 sb.freeblocks blocks;
}

module _ (sb : Sb) (mapblock offset blocks : ℕ) (w : IsWf sb) (some_blocks : 0 < blocks)
    (fits : offset + blocks ≤ mapsize sb) where
  length-modify :
      (set : Bool) (k : ℕ) → length (modify set (sb.bitmap k) offset blocks) ≡ blocksize sb
  length-modify true k = length-set_bits (sb.bitmap k) offset blocks ∙ w.sized k
  length-modify false k = length-clear_bits (sb.bitmap k) offset blocks ∙ w.sized k

  test_bit-modify :
      (set : Bool) (k i : ℕ)
      → i < mapsize sb
      → test_bit (modify set (sb.bitmap k) offset blocks) i
        ≡ (if in_range offset (offset + blocks) i then set else test_bit (sb.bitmap k) i)
  test_bit-modify true k i h =
      ground (
        arith,
        w.sized k,
        w.word,
        mapsize_bytes sb,
        test_bit-set_bits (sb.bitmap k) offset blocks i,
      )
  test_bit-modify false k i h = ground (
    arith,
    w.sized k,
    w.word,
    mapsize_bytes sb,
    test_bit-clear_bits (sb.bitmap k) offset blocks i,
  )

  pub modified-IsWf : (set : Bool) → IsWf (modified sb mapblock offset blocks set)
  modified-IsWf set = record {
    sized = λ k. ground (arith, w.sized k, length-modify set mapblock);
    word = w.word;
    pattern = ground (arith, w.pattern);
  }

  pub modified-Modified :
      (set : Bool)
      → Modified sb
          (modified sb mapblock offset blocks set)
          set
          (mapblock * mapsize sb + offset)
          blocks
  modified-Modified set = record {
    bits = λ b. ground (
      arith,
      in_range-block (mapsize sb) mapblock offset (offset + blocks) b (mapsize_pos sb),
      test_bit-modify set mapblock (b % mapsize sb) (mod-lt b (mapsize sb) (mapsize_pos sb)),
    );
    free = refl;
    same_blockbits = refl;
    same_volblocks = refl;
    same_nextblock = refl;
    wf = modified-IsWf set;
  }
