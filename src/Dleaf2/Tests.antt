-- ===== src/Dleaf2/Tests.antt =====
-- Leaves with three extents: two of them mapped, and the sentinel.
use tux3_fuse.Prelude.{
  ℕ, ◌/◌, ◌*◌, ◌<◌, ◌≤◌, ◌^◌, ◌≡◌, refl, some, [], ◌∷◌, arith, ltb, if◌then◌else◌, length,
}
use tux3_fuse.Dleaf2.{
  suc, DiskExtent, Table, put_extent, get_extent, get_logical, dleaf2_split, dleaf2_merge,
  SplitResult, MergeResult, physical_of, entry,
}
use tux3_fuse.Dleaf2.Extents.{block_at, block_from, IsAscending}
use tux3_fuse.Dleaf2.Words.{get_extent-put_extent}
use tux3_fuse.Dleaf2.Split.{dleaf2_split-block_at}
use tux3_fuse.Dleaf2.Merge.{dleaf2_merge-IsMerged, IsMerged}

abbrev at : (logical physical : ℕ) → DiskExtent
at logical physical = record { verhi_logical = logical; verlo_physical = physical }

abbrev low_leaf : Table
low_leaf = at 0 100 ∷ at 4 200 ∷ at 9 0 ∷ []

abbrev high_leaf : Table
high_leaf = at 9 300 ∷ at 12 0 ∷ []

maps_block : block_at low_leaf 6 ≡ 202
unfolding block_at block_from get_logical get_extent
maps_block = refl

get_extent-put_extent_example :
    get_extent (put_extent 0x50000 7 9)
    ≡ record { version = 0x50000 / 2 ^ 16 * 2 ^ 16; logical = 7; physical = 9 }
get_extent-put_extent_example =
    get_extent-put_extent 0x50000 7 9 (omega arith) (omega arith) (omega arith)

low_leaf-IsAscending : IsAscending 0 low_leaf
unfolding get_logical
low_leaf-IsAscending = (omega arith, (omega arith, (omega arith, tt)))

high_leaf-IsAscending : IsAscending 0 high_leaf
unfolding get_logical
high_leaf-IsAscending = (omega arith, (omega arith, tt))

low_leaf-ends :
    (n : ℕ)
    → 3 ≡ suc n
    → 1 < 2
    → (physical_of (entry low_leaf n) ≡ 0) × (get_logical (entry low_leaf n) ≤ 9)
unfolding get_extent get_logical
low_leaf-ends n e h = let two : n ≡ 2 = omega (arith, e) in rw two (refl, omega arith)

dleaf2_split-block_at_example :
    (r : SplitResult) × (dleaf2_split 5 low_leaf [] ≡ some r)
    × ((l : ℕ)
        → block_at low_leaf l ≡ (if ltb l r.key then block_at r.from l else block_at r.into l))
    × (length r.from ≤ 3)
    × (length r.into ≤ 3)
dleaf2_split-block_at_example =
    dleaf2_split-block_at (at 0 100) (at 4 200 ∷ at 9 0 ∷ []) 5 (omega arith) low_leaf-IsAscending
      (unfold get_extent in refl) (unfold get_logical in omega arith)

dleaf2_merge-IsMerged_example :
    (r : MergeResult) × (dleaf2_merge 255 low_leaf high_leaf ≡ some r)
    × IsMerged 255 low_leaf high_leaf r
dleaf2_merge-IsMerged_example =
    dleaf2_merge-IsMerged 255 low_leaf high_leaf (omega arith) (omega arith) low_leaf-IsAscending
      high_leaf-IsAscending (unfold get_logical in low_leaf-ends)
