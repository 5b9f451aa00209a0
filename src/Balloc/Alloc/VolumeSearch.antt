-- ===== src/Balloc/Alloc/VolumeSearch.antt =====
-- The search over the volume ends within `len` rounds, and what it reports is free.
use tux3_fuse.Prelude.{
  ℕ, zero, suc, ◌+◌, ◌-◌, ◌*◌, ◌/◌, ◌%◌, ◌≤◌, ◌<◌, ◌≡◌, true, arith, ltb, leb, refl, subst, min,
  Option, some, Bool-cases, inl, inr, ◌==◌,
}
use tux3_fuse.Prelude.Division.{div-mod-eq, mod-lt, mod-mul-add}
use tux3_fuse.Bitmap.Search.{BitSearch}
use tux3_fuse.Balloc.{Sb, BlockIo, mapsize}
use tux3_fuse.Balloc.Modify.{mapsize_pos}
use tux3_fuse.Balloc.Alloc.{
  after_scan, search_block, Seg, Scan, found_range, search_next, Search, found, exhausted,
  read_failed, save_partial, scan, maplimit_of, search_loop,
}
use tux3_fuse.Balloc.Alloc.Free.{FreeRun, SegFree, RunBefore, RunBefore-none, save_partial-SegFree}
use tux3_fuse.Balloc.Alloc.BlockScan.{ScanPost, scan_lem}

-- A range that is found starts free, lies in the volume and ends in the bitmap block last looked at.
abbrev pub SearchPost : Sb → ℕ → Search → Type 0
SearchPost sb blocks (found at mapblock seg) =
    (at + blocks ≤ sb.volblocks)
    × (at + blocks ≤ mapblock * mapsize sb + mapsize sb)
    × FreeRun sb at blocks
SearchPost sb blocks (exhausted seg) = SegFree sb blocks seg
SearchPost sb blocks (read_failed seg) = SegFree sb blocks seg

module _ (io : BlockIo) (search : BitSearch) (sb : Sb) (blocks : ℕ) where
  limit_facts :
      (start len : ℕ)
      → start < sb.volblocks
      → 0 < len
      → (start % mapsize sb < maplimit_of io search sb blocks start len)
        × (maplimit_of io search sb blocks start len ≤ mapsize sb)
        × (start / mapsize sb * mapsize sb + maplimit_of io search sb blocks start len
            ≤ sb.volblocks)
        × (maplimit_of io search sb blocks start len ≤ start % mapsize sb + len)
  limit_facts start len h k =
      elim (Bool-cases (ltb sb.volblocks (q * m + min m (start % m + len)))) [
        | inl over ↦ rw (over, at_end (ground arith)) (ground (arith, here, low))
        | inr under ↦ rw under (ground (arith, here, low))
      ]
    where
      m : ℕ
      m = mapsize sb

      q : ℕ
      q = start / m

      here : start ≡ q * m + start % m
      here = div-mod-eq start m (mapsize_pos sb)

      low : start % m < m
      low = mod-lt start m (mapsize_pos sb)

      at_end :
          sb.volblocks < q * m + min m (start % m + len) → sb.volblocks % m ≡ sb.volblocks - q * m
      at_end over =
          subst (λ t. t % m ≡ sb.volblocks - q * m) (omega (arith, here))
            (mod-mul-add q (sb.volblocks - q * m) m (omega arith))

  -- The search from a state of the loop ends with a result that keeps the promise.
  abbrev Ends : Option Search → Type 0
  Ends o = (r : Search) × (o ≡ some r) × SearchPost sb blocks r

  after_scan-Ends :
      (mapblock limit : ℕ) (next : ℕ → Seg → Option Search) (r : Scan)
      → limit ≤ mapsize sb
      → mapblock * mapsize sb + limit ≤ sb.volblocks
      → ScanPost sb blocks (mapblock * mapsize sb + limit) r
      → ((need : ℕ) (seg : Seg)
          → RunBefore sb blocks need (mapblock * mapsize sb + limit)
          → SegFree sb blocks seg
          → Ends (next need seg))
      → Ends (after_scan mapblock next (some r))
  after_scan-Ends mapblock limit next (found_range at seg) word fits post rest =
      (found at mapblock seg, refl, (omega (arith, post.0), omega (arith, post.0), post.1))
  after_scan-Ends mapblock limit next (search_next need seg) word fits post rest =
      rest need seg post.0 post.1

  search_block-Ends :
      (next : ℕ → ℕ → ℕ → Seg → Option Search) (start len need : ℕ) (seg : Seg)
      → ((start' len' need' : ℕ) (seg' : Seg)
          → len' < len
          → start' ≤ sb.volblocks
          → RunBefore sb blocks need' start'
          → SegFree sb blocks seg'
          → Ends (next start' len' need' seg'))
      → start < sb.volblocks
      → 0 < len
      → RunBefore sb blocks need start
      → SegFree sb blocks seg
      → Ends (search_block io search sb blocks next start len need seg)
  unfolding search_block
  search_block-Ends next start len need seg rest inside more run s =
      elim (Bool-cases (io.read_fails q)) [
        | inl fails ↦ rw fails (read_failed seg, refl, s)
        | inr reads ↦
            rw (reads, scanned.1)
              (after_scan-Ends q limit
                (next (start + (limit - start % m)) (len - (limit - start % m))) scanned.0 facts.1
                facts.2 scanned.2
                (λ n s' run s.
                  rest _ _ n s' (omega (arith, facts)) (omega (arith, facts, here))
                    (subst (RunBefore sb blocks n) (omega (arith, facts, here)) run) s))
      ]
    where
      m : ℕ
      m = mapsize sb

      q : ℕ
      q = start / m

      here : start ≡ q * m + start % m
      here = div-mod-eq start m (mapsize_pos sb)

      limit : ℕ
      limit = maplimit_of io search sb blocks start len

      facts :
          (start % m < limit)
          × (limit ≤ m)
          × (q * m + limit ≤ sb.volblocks)
          × (limit ≤ start % m + len)
      facts = limit_facts start len inside more

      run' : RunBefore sb blocks need (q * m + start % m)
      run' = subst (RunBefore sb blocks need) (div-mod-eq start m (mapsize_pos sb)) run

      scanned :
          (r : Scan) × (scan search
              (sb.bitmap q)
              (q * m)
              limit
              blocks
              (suc (limit - start % m))
              (start % m)
              need
              seg
            ≡ some r)
          × ScanPost sb blocks (q * m + limit) r
      scanned =
          scan_lem search sb blocks q limit facts.1 facts.2 (suc (limit - start % m)) (start % m)
            need seg (omega arith) (omega (arith, facts)) run' s

  pub search_lem :
      (fuel start len need : ℕ) (seg : Seg)
      → len ≤ fuel
      → len ≤ sb.volblocks
      → start ≤ sb.volblocks
      → RunBefore sb blocks need start
      → SegFree sb blocks seg
      → Ends (search_loop io search sb blocks fuel start len need seg)
  unfolding search_loop
  search_lem zero start len need seg enough fits inside run s =
      rw (zero_len len (omega arith)) (exhausted seg, refl, s)
    where
      zero_len : (n : ℕ) → n ≤ 0 → (n == 0) ≡ true
      zero_len n h = ground arith
  search_lem (suc fuel) start len need seg enough fits inside run s = elim (Bool-cases (len == 0)) [
    | inl done ↦ rw done (exhausted seg, refl, s)
    | inr more ↦ elim (Bool-cases (leb sb.volblocks start)) [
      | inl wrapped ↦
          rw (more, wrapped)
            (search_block-Ends (search_loop io search sb blocks fuel) 0 len blocks
              (save_partial blocks need sb.volblocks seg)
              (λ a b c d h. search_lem fuel a b c d (omega arith) (omega arith)) (ground arith)
              (ground arith) (RunBefore-none sb blocks 0 (omega (arith, run.positive, run.bound)))
              (save_partial-SegFree sb blocks need sb.volblocks seg
                (subst (RunBefore sb blocks need) (ground arith) run) (omega arith) s))
      | inr ahead ↦
          rw (more, ahead)
            (search_block-Ends (search_loop io search sb blocks fuel) start len need seg
              (λ a b c d h. search_lem fuel a b c d (omega arith) (omega arith)) (ground arith)
              (ground arith) run s)
    ]
  ]
