-- ===== src/Ileaf/Tests.antt =====
-- A leaf of a block of 64 bytes from inode 10 on: attributes for inodes 10 and 12.
use tux3_fuse.Prelude.{
  ℕ, zero, suc, ◌+◌, ◌-◌, ◌*◌, ◌<◌, ◌≡◌, refl, some, List, [], ◌∷◌, true, false, replicate, min,
  arith,
}
use tux3_fuse.Ileaf.{
  Ileaf, ileaf_resize, ileaf_chop, ileaf_trim, trim_loop, ileaf_split, ileaf_merge, ileaf_find_free,
  isinorder, SplitResult, lacks_free, ileaf_need,
}
use tux3_fuse.Ileaf.Chunks.{IsLeaf, attrs}
use tux3_fuse.Ileaf.Resize.{ResizeAnswer, ileaf_resize-IsResized}
use tux3_fuse.Ileaf.Chop.{IsChopped, ileaf_chop-IsChopped}
use tux3_fuse.Ileaf.Split.{IsDivided, ileaf_split-IsDivided}
use tux3_fuse.Ileaf.Merge.{IsJoined, ileaf_merge-IsJoined, ileaf_merge-icount}
use tux3_fuse.Ileaf.Find.{IsFirstFree, ileaf_find_free-IsFirstFree}

abbrev chunks : List (List ℕ)
chunks = (1 ∷ 2 ∷ []) ∷ [] ∷ (3 ∷ []) ∷ []

abbrev leaf : Ileaf
leaf = record { ibase = 10; dict = 2 ∷ 2 ∷ 3 ∷ []; table = 1 ∷ 2 ∷ 3 ∷ replicate 45 0 }

abbrev empty_leaf : Ileaf
empty_leaf = record { ibase = 4; dict = []; table = replicate 48 0 }

leaf-IsLeaf : IsLeaf 64 leaf chunks
leaf-IsLeaf = record {
  pad = replicate 45 0;
  ends_at = refl;
  holds = refl;
  sized = refl;
  room = omega arith;
  word = omega arith;
}

empty_leaf-IsLeaf : IsLeaf 64 empty_leaf []
empty_leaf-IsLeaf = record {
  pad = replicate 48 0;
  ends_at = refl;
  holds = refl;
  sized = refl;
  room = omega arith;
  word = omega arith;
}

-- A chop of two inodes with attributes leaves a dictionary out of order.
abbrev two_used : Ileaf
two_used = record { ibase = 0; dict = 3 ∷ 5 ∷ 9 ∷ []; table = replicate 48 7 }

chop_two : isinorder 0 (ileaf_chop 1 2 two_used).1.dict ≡ false
unfolding isinorder ileaf_chop ileaf_trim trim_loop
chop_two = refl

chop_one : (ileaf_chop 12 1 leaf).1.dict ≡ 2 ∷ []
unfolding ileaf_chop ileaf_trim trim_loop
chop_one = refl

ileaf_resize-IsResized_example : ResizeAnswer 64 4 5 chunks leaf (ileaf_resize 64 14 leaf 5)
ileaf_resize-IsResized_example =
    ileaf_resize-IsResized 64 14 5 leaf chunks leaf-IsLeaf (omega arith)

none_behind : (j : ℕ) → 0 < j → j < 0 + 2 → attrs chunks j ≡ []
none_behind zero h b = absurd (omega arith)
none_behind (suc zero) h b = refl
none_behind (suc (suc j)) h b = absurd (omega arith)

ileaf_chop-IsChopped_example : IsChopped 64 leaf chunks 0 2 (ileaf_chop 10 2 leaf)
ileaf_chop-IsChopped_example =
    ileaf_chop-IsChopped 64 10 2 leaf chunks leaf-IsLeaf (omega arith) (omega arith) (omega arith)
      none_behind

ileaf_split-IsDivided_example :
    (s : SplitResult) × (ileaf_split 64 11 leaf empty_leaf.table ≡ some s)
    × IsDivided 64 leaf chunks s
ileaf_split-IsDivided_example =
    ileaf_split-IsDivided 64 64 11 leaf chunks empty_leaf.table leaf-IsLeaf (omega arith)
      (omega arith) refl

ileaf_merge-IsJoined_example : IsJoined 64 empty_leaf leaf chunks (ileaf_merge 64 empty_leaf leaf)
ileaf_merge-IsJoined_example =
    ileaf_merge-IsJoined 64 empty_leaf leaf chunks empty_leaf-IsLeaf leaf-IsLeaf (omega arith)
      (omega arith) (omega arith)

abbrev one_inode : Ileaf
one_inode = record { ibase = 5; dict = 1 ∷ []; table = 9 ∷ replicate 47 0 }

abbrev merged : Ileaf
merged = record {
  ibase = 5;
  dict = 2 ∷ 2 ∷ 2 ∷ 1 ∷ 1 ∷ 1 ∷ 1 ∷ 2 ∷ 2 ∷ 3 ∷ [];
  table = 9 ∷ 1 ∷ 2 ∷ 3 ∷ replicate 44 0;
}

merges : ileaf_merge 64 one_inode leaf ≡ some (true, merged)
unfolding ileaf_merge lacks_free ileaf_need
merges = refl

ileaf_merge-icount_example : 10 ≡ 10 - 5 + 3 + 2 * 1
unfolding ileaf_need
ileaf_merge-icount_example =
    ileaf_merge-icount 64 one_inode leaf merged (omega arith) (omega arith) (omega arith)
      (omega arith) merges

ileaf_find_free-IsFirstFree_example :
    IsFirstFree (λ i. attrs chunks (i - 10)) 10 (min 100 (10 + 20)) (ileaf_find_free 100 leaf 10 20)
ileaf_find_free-IsFirstFree_example =
    ileaf_find_free-IsFirstFree 64 100 10 20 leaf chunks leaf-IsLeaf (omega arith) (omega arith)
