-- ===== src/Balloc/Alloc.antt =====
-- kernel/balloc.c: the search for free blocks and the allocation of what it finds. `seg` is the first
-- entry of the caller's array, the only one that is written after it has been cleared. The two loops
-- run on fuel; `none` is a loop that has not ended, and `Alloc.Sound` shows that there is none.
pub mod Free
pub mod BlockScan
pub mod VolumeSearch
pub mod Sound
pub mod Tail
use tux3_fuse.Prelude.{
  ℕ, zero, suc, ◌+◌, ◌-◌, ◌*◌, ◌/◌, ◌%◌, Bool, true, false, Option, none, some, List, ltb, leb,
  ◌==◌, if◌then◌else◌, min, ◌&&◌, ◌||◌, not,
}
use tux3_fuse.Bitmap.Search.{BitSearch}
use tux3_fuse.Balloc.{
  Sb, BlockIo, Ret, ok, eio, enospc, panic, errno, mapsize, bitmap_modify_bits, bitmap_modify,
}

pub record Seg : Type 0 where
  pub block : ℕ
  pub count : ℕ

unfoldable pub save_seg : Seg → ℕ → ℕ → Seg
save_seg seg start count =
    if ltb seg.count count then record { block = start; count = count } else seg

-- How the loop over one bitmap block ends: the range is found, or the search goes on with what is
-- still needed.
pub data Scan : Type 0 where
  found_range : ℕ → Seg → Scan
  search_next : ℕ → Seg → Scan

-- How the search over the volume ends.
pub data Search : Type 0 where
  found : (start mapblock : ℕ) → Seg → Search
  exhausted : Seg → Search
  read_failed : Seg → Search

-- the partial free segment of `blocks - need` blocks that ends at `limit`
abbrev pub save_partial : ℕ → ℕ → ℕ → Seg → Seg
save_partial blocks need limit seg =
    if ltb need blocks then save_seg seg (limit - (blocks - need)) (blocks - need) else seg

module _ (search : BitSearch) (p : List ℕ) (mapstart maplimit blocks : ℕ) where
  unfoldable pub scan : ℕ → ℕ → ℕ → Seg → Option Scan
  unfolding save_seg
  scan zero mapoffset need seg = none
  scan (suc fuel) mapoffset need seg =
      let mapnext = min (mapoffset + need) maplimit in
      let idx = search.find_next_bit_le p mapnext mapoffset in
      let need' = need - (idx - mapoffset) in
      let seg' = save_partial blocks need' (mapstart + idx) seg in
      let mapoffset' = search.find_next_zero_bit_le p maplimit (idx + 1) in
      let rest = scan fuel mapoffset' blocks seg' in
      if idx == mapnext
      then if need' == 0
        then some
            (found_range (mapstart + idx - blocks) (save_seg seg (mapstart + idx - blocks) blocks))
        else some (search_next need' seg)
      else if mapoffset' == maplimit
      then some (search_next blocks seg')
      else rest

abbrev pub after_scan : ℕ → (ℕ → Seg → Option Search) → Option Scan → Option Search
after_scan mapblock next none = none
after_scan mapblock next (some (found_range at seg)) = some (found at mapblock seg)
after_scan mapblock next (some (search_next need seg)) = next need seg

module _ (io : BlockIo) (search : BitSearch) (sb : Sb) (blocks : ℕ) where
  -- `maplimit` of the bitmap block that holds `start`
  abbrev pub maplimit_of : ℕ → ℕ → ℕ
  maplimit_of start len =
      let m = mapsize sb in
      let limit = min m (start % m + len) in
      if ltb sb.volblocks (start / m * m + limit) then sb.volblocks % m else limit

  -- One round at a `start` inside the volume; `next` is the rest of the loop.
  unfoldable pub search_block : (ℕ → ℕ → ℕ → Seg → Option Search) → ℕ → ℕ → ℕ → Seg → Option Search
  search_block next start len need seg =
      let mapblock = start / mapsize sb in
      let mapoffset = start % mapsize sb in
      let maplimit = maplimit_of start len in
      let maplen = maplimit - mapoffset in
      let ended =
        scan search (sb.bitmap mapblock) (mapblock * mapsize sb) maplimit blocks (suc maplen)
          mapoffset need seg in
      if io.read_fails mapblock
      then some (read_failed seg)
      else after_scan mapblock (next (start + maplen) (len - maplen)) ended

  unfoldable pub search_loop : ℕ → ℕ → ℕ → ℕ → Seg → Option Search
  unfolding save_seg search_block scan
  search_loop zero start len need seg = if len == 0 then some (exhausted seg) else none
  search_loop (suc fuel) start len need seg =
      if len == 0
      then some (exhausted seg)
      else if leb sb.volblocks start
      then search_block (search_loop fuel) 0 len blocks (save_partial blocks need sb.volblocks seg)
      else search_block (search_loop fuel) start len need seg

  -- what follows `found_range` and `found_partial`, once the bits are set
  abbrev pub finish : ℕ → ℕ → Seg → Sb × Ret → Sb × Seg × Ret
  finish at count seg (sb', ok) = (
    record sb' { nextblock = if leb sb'.volblocks (at + count) then 0 else at + count },
    record { block = at; count = count },
    ok,
  )
  finish at count seg (sb', err) = (sb', seg, err)

  abbrev pub allocate : Bool → Search → Sb × Seg × Ret
  allocate partial (read_failed seg) = (sb, seg, eio)
  allocate partial (exhausted seg) =
      if partial && not (seg.count == 0)
      then finish seg.block seg.count seg (bitmap_modify io sb seg.block seg.count true)
      else (sb, seg, enospc)
  allocate partial (found at mapblock seg) =
      if at / mapsize sb == mapblock
      then finish at blocks seg (bitmap_modify_bits io sb mapblock (at % mapsize sb) blocks true)
      else finish at blocks seg (bitmap_modify io sb at blocks true)

  -- `partial` is the flag BALLOC_PARTIAL.
  unfoldable pub balloc_from_range : ℕ → ℕ → Bool → Option (Sb × Seg × Ret)
  unfolding search_loop
  balloc_from_range start len partial =
      if blocks == 0 || ltb sb.volblocks len
      then some (sb, record { block = 0; count = 0 }, panic)
      else elim (search_loop len start len blocks (record { block = 0; count = 0 })) [
        | none ↦ none
        | some result ↦ some (allocate partial result)
      ]

  unfoldable pub balloc : Option (Sb × Seg × Ret)
  unfolding balloc_from_range
  balloc = balloc_from_range sb.nextblock sb.volblocks false

  unfoldable pub balloc_partial : Option (Sb × Seg × Ret)
  unfolding balloc_from_range
  balloc_partial = balloc_from_range sb.nextblock sb.volblocks true
