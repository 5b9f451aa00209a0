-- ===== src/Balloc/Alloc/Sound.antt =====
-- kernel/balloc.c: `balloc_from_range` for every outcome.
use tux3_fuse.Prelude.{
  Option-cases, ap, ℕ, ◌+◌, ◌*◌, ◌/◌, ◌%◌, ◌^◌, ◌≤◌, ◌<◌, ◌≡◌, refl, subst, Bool, true, false, not,
  some, arith, ◌==◌, leb, if◌then◌else◌, ltb, ◌||◌, ◌&&◌, Bool-cases, inl, inr, ◌≢◌,
}
use tux3_fuse.Prelude.Division.{div-mod-eq}
use tux3_fuse.Bitmap.Search.{BitSearch}
use tux3_fuse.Balloc.{
  leb, Sb, BlockIo, Ret, ok, eio, enospc, panic, fs_error, errno, mapsize, allocated,
  bitmap_modify_bits, sub64,
}
use tux3_fuse.Balloc.Modify.{
  Modified-none, IsWf, Modified, mapsize_pos, modified, modified-Modified,
}
use tux3_fuse.Balloc.Loop.{bitmap_modify_bits-ok, bitmap_modify_bits-errno}
use tux3_fuse.Balloc.Succeeds.{bitmap_modify_bits-fs_error}
use tux3_fuse.Balloc.Results.{Applied, bitmap_modify-Applied}
use tux3_fuse.Balloc.Alloc.{
  Seg, Search, found, exhausted, read_failed, finish, allocate, balloc_from_range,
}
use tux3_fuse.Balloc.Alloc.Free.{FreeRun, RunBefore-none}
use tux3_fuse.Balloc.Alloc.VolumeSearch.{SearchPost, search_lem}

-- A success hands out blocks that were free and lie in the volume, marks them and no others, counts
-- them, and moves the next goal behind them; it is the full request unless a part may do.
pub record Allocated (sb sb' : Sb) (seg : Seg) (blocks : ℕ) (partial : Bool) : Type 0 where
  pub inside : seg.block + seg.count ≤ sb.volblocks
  pub positive : 0 < seg.count
  pub bound : seg.count ≤ blocks
  pub full : partial ≡ false → seg.count ≡ blocks
  pub were_free : FreeRun sb seg.block seg.count
  pub marked :
      (b : ℕ)
      → allocated sb' b ≡ ((leb seg.block b && ltb b (seg.block + seg.count)) || allocated sb b)
  pub counted : sb'.freeblocks ≡ sub64 sb.freeblocks seg.count
  pub goal :
      sb'.nextblock
      ≡ (if leb sb.volblocks (seg.block + seg.count) then 0 else seg.block + seg.count)
  pub wf : IsWf sb'

-- -ENOSPC changes nothing; no assert fails; any other error leaves a map in which blocks may have been
-- marked but none has been freed.
abbrev pub Outcome : Sb → ℕ → Bool → Sb × Seg × Ret → Type 0
Outcome sb blocks partial (sb', seg, ok) = Allocated sb sb' seg blocks partial
Outcome sb blocks partial (sb', seg, enospc) = sb' ≡ sb
Outcome sb blocks partial (sb', seg, panic) = ⊥
Outcome sb blocks partial (sb', seg, fs_error) = ⊥
Outcome sb blocks partial (sb', seg, eio) =
    IsWf sb' × ((b : ℕ) → allocated sb b ≡ true → allocated sb' b ≡ true)
Outcome sb blocks partial (sb', seg, errno e) =
    IsWf sb' × ((b : ℕ) → allocated sb b ≡ true → allocated sb' b ≡ true)

module _ (io : BlockIo) (search : BitSearch) (sb : Sb) (blocks : ℕ) (w : IsWf sb)
    (positive : 0 < blocks) (word : blocks < 2 ^ 32) where
  finish-Outcome :
      (at count n : ℕ) (seg : Seg) (partial : Bool) (r : Sb × Ret)
      → Applied sb r.0 r.1 true at count n
      → r.1 ≢ fs_error
      → at + count ≤ sb.volblocks
      → 0 < count
      → count ≤ blocks
      → (partial ≡ false → count ≡ blocks)
      → FreeRun sb at count
      → Outcome sb blocks partial (finish io search sb blocks at count seg r)
  finish-Outcome at count n seg partial (sb', ok) a lawful inside some_count bound full free =
      let e : n ≡ count = a.complete refl in
      record {
        inside = inside;
        positive = some_count;
        bound = bound;
        full = full;
        were_free = free;
        marked = λ b. ground (arith, e, a.done.bits b);
        counted = ground (arith, e, a.done.free);
        goal = ground (arith, a.done.same_volblocks);
        wf = record { sized = a.done.wf.sized; word = a.done.wf.word; pattern = a.done.wf.pattern };
      }
  finish-Outcome at count n seg partial (sb', enospc) a lawful inside some_count bound full free =
      absurd (a.not_full refl)
  finish-Outcome at count n seg partial (sb', panic) a lawful inside some_count bound full free =
      absurd (a.sound refl)
  finish-Outcome at count n seg partial (sb', fs_error) a lawful inside some_count bound full free =
      absurd (lawful refl)
  finish-Outcome at count n seg partial (sb', eio) a lawful inside some_count bound full free =
      (a.done.wf, λ b h. ground (arith, a.done.bits b))
  finish-Outcome at count n seg partial (sb', errno e) a lawful inside some_count bound full free =
      (a.done.wf, λ b h. ground (arith, a.done.bits b))

  -- the range within one bitmap block takes one call
  modify_bits-Applied :
      (at mapblock : ℕ)
      → at / mapsize sb ≡ mapblock
      → at + blocks ≤ mapblock * mapsize sb + mapsize sb
      → let r = bitmap_modify_bits io sb mapblock (at % mapsize sb) blocks true in
        (n : ℕ) × Applied sb r.0 r.1 true at blocks n
  modify_bits-Applied at mapblock e fits = elim (Option-cases (io.dirty_error mapblock)) [
    | inr (err, failed) ↦
        rw (bitmap_modify_bits-errno io sb mapblock (at % m) blocks err true positive room failed) (
          0,
          record {
            bound = omega arith;
            done = Modified-none sb true at w;
            complete = λ h. cc;
            sound = λ h. cc;
            not_full = λ h. cc;
          },
        )
    | inl clean ↦
        rw (bitmap_modify_bits-ok io sb mapblock (at % m) blocks true positive room clean) (
          blocks,
          record {
            bound = omega arith;
            done =
                subst (λ lo. Modified sb (modified sb mapblock (at % m) blocks true) true lo blocks)
                  (omega (arith, here, ap (λ (t : ℕ). t * m) e))
                  (modified-Modified sb mapblock (at % m) blocks w positive room true);
            complete = λ h. refl;
            sound = λ h. cc;
            not_full = λ h. cc;
          },
        )
  ]
    where
      m : ℕ
      m = mapsize sb

      here : at ≡ at / m * m + at % m
      here = div-mod-eq at m (mapsize_pos sb)

      room : at % m + blocks ≤ m
      room = omega (arith, here, ap (λ (t : ℕ). t * m) e)

  allocate-Outcome :
      (partial : Bool) (r : Search)
      → SearchPost sb blocks r
      → Outcome sb blocks partial (allocate io search sb blocks partial r)
  allocate-Outcome partial (read_failed seg) p = (w, λ b h. h)
  allocate-Outcome partial (exhausted seg) p = elim (Bool-cases (partial && not (seg.count == 0))) [
    | inr nothing ↦ rw nothing refl
    | inl some_part ↦ rw some_part (
        let (n, a, lawful) =
          bitmap_modify-Applied io sb seg.block seg.count true w (ground arith)
            (omega (arith, p.short)) p.inside in
        finish-Outcome seg.block seg.count n seg partial _ a lawful p.inside (ground arith)
          (omega (arith, p.short)) (ground arith) p.free)
  ]
  allocate-Outcome partial (found at mapblock seg) p =
      elim (Bool-cases (at / mapsize sb == mapblock)) [
        | inl one ↦ rw one (
            let (n, a) = modify_bits-Applied at mapblock (ground arith) p.1 in
            finish-Outcome at blocks n seg partial _ a
              (bitmap_modify_bits-fs_error io sb mapblock (at % mapsize sb) blocks true) p.0
              positive (omega arith) (λ e. refl) p.2)
        | inr several ↦ rw several (
            let (n, a, lawful) = bitmap_modify-Applied io sb at blocks true w positive word p.0 in
            finish-Outcome at blocks n seg partial _ a lawful p.0 positive (omega arith) (λ e. refl)
              p.2)
      ]

  -- On a well-formed map, for a positive count of blocks of 32 bits, with a start in the volume or at its end
  -- and no more to search than the volume, `balloc_from_range` ends. On success the segment lies in the volume,
  -- its blocks were free, they and no others are marked now and are taken off the free count, it has the
  -- wanted size (at most it, where partial ones are allowed), and the next goal is set behind it. -ENOSPC
  -- changes nothing, no assert fails, and after any other error no block in use has been freed.
  pub balloc_from_range-Outcome :
      (start len : ℕ) (partial : Bool)
      → start ≤ sb.volblocks
      → len ≤ sb.volblocks
      → (r : Sb × Seg × Ret) × (balloc_from_range io search sb blocks start len partial ≡ some r)
        × Outcome sb blocks partial r
  unfolding balloc_from_range
  balloc_from_range-Outcome start len partial inside fits =
      let (r, e, p) =
        search_lem io search sb blocks len start len blocks (record { block = 0; count = 0 })
          (omega arith) fits inside (RunBefore-none sb blocks start positive)
          (record {
            short = positive;
            inside = omega arith;
            free = λ b lo hi. absurd (omega arith);
          }) in
      rw (guard, e) (allocate io search sb blocks partial r, refl, allocate-Outcome partial r p)
    where
      guard : ((blocks == 0) || ltb sb.volblocks len) ≡ false
      guard = ground arith
