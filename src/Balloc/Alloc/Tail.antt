-- ===== src/Balloc/Alloc/Tail.antt =====
-- kernel/balloc.c: a free run that lasts to the end of the search is not remembered as a partial segment.
use tux3_fuse.Prelude.{
  ℕ, zero, suc, ◌+◌, ◌-◌, ◌*◌, ◌≤◌, ◌<◌, ◌≡◌, refl, true, false, some, arith, min, ◌==◌, ltb, leb,
  ◌||◌, Option,
}
use native.Mathlib.Nat.{zero-mod, zero-div}
use tux3_fuse.Bitmap.Search.{BitSearch}
use tux3_fuse.Balloc.{Sb, BlockIo, enospc, mapsize}
use tux3_fuse.Balloc.Modify.{mapsize_pos}
use tux3_fuse.Balloc.Alloc.{
  Seg, search_next, Search, exhausted, scan, maplimit_of, search_block, search_loop,
  balloc_from_range, balloc_partial,
}
use tux3_fuse.Balloc.Alloc.Free.{FreeRun, allocated_at}

abbrev pub none_saved : Seg
none_saved = record { block = 0; count = 0 }

module _ (io : BlockIo) (search : BitSearch) (sb : Sb) (blocks : ℕ)
    (one_map : sb.volblocks ≤ mapsize sb) (positive : 0 < sb.volblocks)
    (more : sb.volblocks < blocks) (free : FreeRun sb 0 sb.volblocks)
    (reads : io.read_fails 0 ≡ false) where
  limit_is : maplimit_of io search sb blocks 0 sb.volblocks ≡ sb.volblocks
  limit_is = ground (arith, zero-mod (mapsize sb), zero-div (mapsize sb), mapsize_pos sb)

  idx_is : search.find_next_bit_le (sb.bitmap 0) sb.volblocks 0 ≡ sb.volblocks
  idx_is = ground (
    arith,
    search.next_bounds (sb.bitmap 0) sb.volblocks 0,
    search.next_found (sb.bitmap 0) sb.volblocks 0,
    free (search.find_next_bit_le (sb.bitmap 0) sb.volblocks 0),
    allocated_at sb 0 (search.find_next_bit_le (sb.bitmap 0) sb.volblocks 0),
  )

  scan_is :
      (fuel : ℕ)
      → scan search
          (sb.bitmap 0)
          (0 * mapsize sb)
          sb.volblocks
          blocks
          (suc fuel)
          0
          blocks
          none_saved
        ≡ some (search_next (blocks - sb.volblocks) none_saved)
  unfolding scan
  scan_is fuel =
      let min_is : min (0 + blocks) sb.volblocks ≡ sb.volblocks = omega arith in
      rw (min_is, idx_is) (ground arith)

  search_block_is :
      (next : ℕ → ℕ → ℕ → Seg → Option Search)
      → search_block io search sb blocks next 0 sb.volblocks blocks none_saved
        ≡ next
            (0 + (sb.volblocks - 0))
            (sb.volblocks - (sb.volblocks - 0))
            (blocks - sb.volblocks)
            none_saved
  unfolding search_block
  search_block_is next =
      rw (limit_is, zero-mod (mapsize sb), zero-div (mapsize sb), reads, scan_is (sb.volblocks - 0))
        refl

  not_done : (sb.volblocks == 0) ≡ false
  not_done = ground arith

  not_wrapped : leb sb.volblocks 0 ≡ false
  not_wrapped = ground arith

  used_up : sb.volblocks - (sb.volblocks - 0) ≡ 0
  used_up = omega arith

  ended :
      (fuel start need : ℕ)
      → search_loop io search sb blocks fuel start 0 need none_saved ≡ some (exhausted none_saved)
  unfolding search_loop
  ended zero start need = refl
  ended (suc fuel) start need = refl

  search_is :
      (fuel : ℕ)
      → 0 < fuel
      → search_loop io search sb blocks fuel 0 sb.volblocks blocks none_saved
        ≡ some (exhausted none_saved)
  unfolding search_loop
  search_is zero h = absurd (omega arith)
  search_is (suc fuel) h =
      rw (not_done, not_wrapped, search_block_is (search_loop io search sb blocks fuel), used_up)
        (ended fuel (0 + (sb.volblocks - 0)) (blocks - sb.volblocks))

  not_empty : ((blocks == 0) || ltb sb.volblocks sb.volblocks) ≡ false
  not_empty = ground arith

  from_goal :
      (goal : ℕ)
      → goal ≡ 0
      → balloc_from_range io search sb blocks goal sb.volblocks true ≡ some (sb, none_saved, enospc)
  unfolding balloc_from_range
  from_goal goal e = rw (e, not_empty, search_is sb.volblocks positive) refl

  -- On a volume of one bitmap block whose blocks are all free, a partial allocation of more blocks than
  -- there are, with the goal at block 0, returns -ENOSPC: no free block is handed out.
  pub balloc_partial-misses_tail :
      sb.nextblock ≡ 0 → balloc_partial io search sb blocks ≡ some (sb, none_saved, enospc)
  unfolding balloc_partial
  balloc_partial-misses_tail goal = from_goal sb.nextblock goal
