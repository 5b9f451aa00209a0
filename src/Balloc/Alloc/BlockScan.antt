-- ===== src/Balloc/Alloc/BlockScan.antt =====
-- The loop over one bitmap block ends, and what it finds is free.
use tux3_fuse.Prelude.{
  ℕ, zero, suc, ◌+◌, ◌-◌, ◌*◌, ◌≤◌, ◌<◌, ◌≡◌, false, arith, refl, min, Option, some, Bool-cases,
  inl, inr, ◌==◌,
}
use tux3_fuse.Bitmap.Search.{BitSearch}
use tux3_fuse.Balloc.{Sb, mapsize}
use tux3_fuse.Balloc.Alloc.{Seg, Scan, found_range, search_next, save_seg, save_partial, scan}
use tux3_fuse.Balloc.Alloc.Free.{
  FreeRun, SegFree, RunBefore, RunBefore-none, FreeRun-extend, save_partial-SegFree,
}

-- What the loop promises: the range it found is free, or the run up to the limit is.
abbrev pub ScanPost : Sb → ℕ → ℕ → Scan → Type 0
ScanPost sb blocks limit (found_range at seg) = (at + blocks ≤ limit) × FreeRun sb at blocks
ScanPost sb blocks limit (search_next need seg) =
    RunBefore sb blocks need limit × SegFree sb blocks seg

module _ (search : BitSearch) (sb : Sb) (blocks mapblock maplimit : ℕ)
    (word : maplimit ≤ mapsize sb) (inside : mapblock * mapsize sb + maplimit ≤ sb.volblocks) where
  abbrev run_scan : ℕ → ℕ → ℕ → Seg → Option Scan
  run_scan = scan search (sb.bitmap mapblock) (mapblock * mapsize sb) maplimit blocks

  -- the first used block of the run, or the end of what is looked at
  abbrev idx_of : ℕ → ℕ → ℕ
  idx_of mapoffset need =
      search.find_next_bit_le (sb.bitmap mapblock) (min (mapoffset + need) maplimit) mapoffset

  extended :
      (mapoffset need : ℕ)
      → mapoffset ≤ maplimit
      → RunBefore sb blocks need (mapblock * mapsize sb + mapoffset)
      → FreeRun sb
          (mapblock * mapsize sb
            + idx_of mapoffset need
            - (blocks - (need - (idx_of mapoffset need - mapoffset))))
          (blocks - (need - (idx_of mapoffset need - mapoffset)))
  extended mapoffset need le run b lo hi =
      FreeRun-extend sb mapblock mapoffset (idx_of mapoffset need) (blocks - need) run.fits
        (omega (arith, bounds)) (omega (arith, bounds)) run.free
        (λ i l h. search.next_clear_before _ _ mapoffset i l h) b
        (omega (arith, bounds, run.bound, run.fits)) (omega (arith, bounds, run.bound, run.fits))
    where
      bounds :
          (mapoffset ≤ idx_of mapoffset need)
          × (idx_of mapoffset need ≤ min (mapoffset + need) maplimit)
      bounds =
          search.next_bounds (sb.bitmap mapblock) (min (mapoffset + need) maplimit) mapoffset
            (omega arith)

  pub scan_lem :
      (fuel mapoffset need : ℕ) (seg : Seg)
      → maplimit - mapoffset < fuel
      → mapoffset ≤ maplimit
      → RunBefore sb blocks need (mapblock * mapsize sb + mapoffset)
      → SegFree sb blocks seg
      → (r : Scan) × (run_scan fuel mapoffset need seg ≡ some r)
        × ScanPost sb blocks (mapblock * mapsize sb + maplimit) r
  unfolding scan
  scan_lem zero mapoffset need seg enough le run s = absurd (omega arith)
  scan_lem (suc fuel) mapoffset need seg enough le run s =
      elim (Bool-cases (idx == min (mapoffset + need) maplimit)) [
        | inl end ↦ elim (Bool-cases (need' == 0)) [
          | inl all ↦ (
            found_range (mapblock * mapsize sb + idx - blocks)
                (save_seg seg (mapblock * mapsize sb + idx - blocks) blocks),
            rw (end, all) refl,
            (
              ground (arith, bounds, run.bound, run.fits),
              λ b lo hi.
                  ext b (ground (arith, bounds, run.bound, run.fits))
                    (ground (arith, bounds, run.bound, run.fits)),
            ),
          )
          | inr more ↦ (
            search_next need' seg,
            rw (end, more) refl,
            (
              record {
                positive = ground arith;
                bound = omega (arith, run.bound);
                fits = omega (arith, run.fits, run.bound, bounds);
                free = λ b lo hi. ext b (ground (arith, bounds)) (ground (arith, bounds));
              },
              s,
            ),
          )
        ]
        | inr stop ↦ elim (Bool-cases (next == maplimit)) [
          | inl last ↦ (
            search_next blocks seg',
            rw (stop, last) refl,
            (RunBefore-none sb blocks _ (omega (arith, run.positive, run.bound)), s' stop),
          )
          | inr again ↦
              rw (stop, again)
                (scan_lem fuel next blocks seg' (ground (arith, bounds, next_bounds stop))
                  (ground (arith, next_bounds stop))
                  (RunBefore-none sb blocks _ (omega (arith, run.positive, run.bound))) (s' stop))
        ]
      ]
    where
      idx : ℕ
      idx = idx_of mapoffset need

      need' : ℕ
      need' = need - (idx - mapoffset)

      next : ℕ
      next = search.find_next_zero_bit_le (sb.bitmap mapblock) maplimit (idx + 1)

      seg' : Seg
      seg' = save_partial blocks need' (mapblock * mapsize sb + idx) seg

      bounds : (mapoffset ≤ idx) × (idx ≤ min (mapoffset + need) maplimit)
      bounds =
          search.next_bounds (sb.bitmap mapblock) (min (mapoffset + need) maplimit) mapoffset
            (omega (arith, run.positive))

      ext : FreeRun sb (mapblock * mapsize sb + idx - (blocks - need')) (blocks - need')
      ext = extended mapoffset need le run

      next_bounds :
          (idx == min (mapoffset + need) maplimit) ≡ false → (idx + 1 ≤ next) × (next ≤ maplimit)
      next_bounds stop =
          search.next_zero_bounds (sb.bitmap mapblock) maplimit (idx + 1) (ground (arith, bounds))

      s' : (idx == min (mapoffset + need) maplimit) ≡ false → SegFree sb blocks seg'
      s' stop =
          save_partial-SegFree sb blocks need' (mapblock * mapsize sb + idx) seg
            (record {
              positive = ground (arith, bounds, run.positive);
              bound = omega (arith, run.bound);
              fits = omega (arith, run.fits, run.bound, bounds);
              free = ext;
            })
            (omega (arith, bounds)) s
