-- ===== src/Btree/Insert/Writes.antt =====
-- kernel/btree.c: writes of nodes, and what they do not reach.
use tux3_fuse.Prelude.{ℕ, ◌≡◌, ◌∙◌, sym, Bool, true, false, [], ◌∷◌, ◌==◌, arith}
use tux3_fuse.Btree.{Node}
use tux3_fuse.Btree.Cursor.{Path_}
use tux3_fuse.Btree.Insert.Fits.{IsOff}
use tux3_fuse.Btree.Insert.Around.{IsStable, Agree}

module _ (nodes : ℕ → Node) (leaf_at : ℕ → ℕ) (touched : ℕ → Bool) (new_leaf key limit : ℕ) where
  abbrev Same : (ℕ → Node) → (ℕ → Node) → Path_ → Type 0
  Same = Agree nodes leaf_at touched new_leaf key limit

  -- The levels of a path do not change with two nodes off it.
  pub Agree-frame :
      (now now' : ℕ → Node) (b new : ℕ) (path : Path_)
      → ((i : ℕ) → (i == b) ≡ false → (i == new) ≡ false → now i ≡ now' i)
      → IsOff b path
      → IsOff new path
      → Same now now' path
  Agree-frame now now' b new [] same o o' = tt
  Agree-frame now now' b new (at ∷ path) same o o' =
      (same at.buffer o.0 o'.0, Agree-frame now now' b new path same o.1 o'.1)

  pub IsStable-write :
      (now later : ℕ → Node) (b new : ℕ)
      → ((i : ℕ) → (i == b) ≡ false → (i == new) ≡ false → now i ≡ later i)
      → touched b ≡ true
      → touched new ≡ true
      → IsStable nodes leaf_at touched new_leaf key limit now
      → IsStable nodes leaf_at touched new_leaf key limit later
  IsStable-write now later b new same tb tn stable i h =
      sym (same i (untouched b tb) (untouched new tn)) ∙ stable i h
    where
      untouched : (j : ℕ) → touched j ≡ true → (i == j) ≡ false
      untouched j tj = grind arith
