-- ===== src/Btree/Cursor/Next.antt =====
-- kernel/btree.c: an advance of the cursor in a btree whose keys are in order goes to the next leaf.
use tux3_fuse.Prelude.{
  ℕ, suc, ◌+◌, ◌-◌, ◌≡◌, refl, ap, ◌∙◌, sym, subst, Bool, true, false, List, [], ◌∷◌, ◌++◌, length,
  length-append, arith,
}
use tux3_fuse.Btree.{Node}
use tux3_fuse.Btree.Cursor.{
  Path_, tuxkey_limit, level_finished, Descent, eio, failed, at_leaf, Advance, finished, descended,
  descend, climb, go_down, cursor_advance,
}
use tux3_fuse.Btree.Cursor.Leaves.{rest_leaves}
use tux3_fuse.Btree.Cursor.Order.{upper, IsMapped, Hangs}
use tux3_fuse.Btree.Cursor.Hanging.{IsAt, IsBelow, descend-IsBelow, Hangs-IsPath}
use tux3_fuse.Btree.Cursor.Steps.{IsAdvanced, cursor_advance-IsAdvanced}
use mathlib.Core.List.{append_assoc}

module _ (read_fails : ℕ → Bool) (nodes : ℕ → Node) (leaf_at : ℕ → ℕ) (root : ℕ) where
  -- what the climb leaves: nothing where the keys are at their end, or a place before the next key
  abbrev IsClimbed : (height : ℕ) → (from : ℕ) → Path_ → Type 0
  IsClimbed height from [] = from ≡ tuxkey_limit
  IsClimbed height from (at ∷ path) =
      (top : ℕ) × (height ≡ top + suc (length path))
      × IsAt read_fails nodes leaf_at root top at path from

  climb-IsClimbed :
      (levels : ℕ) (path : Path_) (block lo hi : ℕ)
      → Hangs nodes leaf_at root levels path block lo hi
      → IsClimbed (levels + length path) hi (climb read_fails nodes root path)
  unfolding climb
  climb-IsClimbed levels [] block lo hi h = h.2
  climb-IsClimbed levels (at ∷ path) block lo hi h =
      let (pre, post, lo', hi', split, place, bound, mapped, above) = h in
      go pre post lo' hi' split place bound mapped above
        (climb-IsClimbed (suc levels) path at.buffer lo' hi' above)
    where
      go :
          (pre post : Node) (lo' hi' : ℕ)
          → nodes at.buffer ≡ pre ++ record { key = lo; block = block } ∷ post
          → at.next ≡ suc (length pre)
          → upper post hi' ≡ hi
          → IsMapped nodes leaf_at (suc levels) at.buffer lo' hi'
          → Hangs nodes leaf_at root (suc levels) path at.buffer lo' hi'
          → IsClimbed (suc levels + length path) hi' (climb read_fails nodes root path)
          → IsClimbed (levels + suc (length path)) hi (climb read_fails nodes root (at ∷ path))
      go pre [] lo' hi' split place bound mapped above up =
          let over : level_finished nodes at ≡ true = ground (
            arith,
            place,
            ap length split,
            length-append pre (record { key = lo; block = block } ∷ []),
          ) in
          let height : suc levels + length path ≡ levels + suc (length path) = omega arith in
          rw over (
            subst (λ (n : ℕ). IsClimbed n hi (climb read_fails nodes root path)) height
              (subst
                (λ (k : ℕ).
                  IsClimbed (suc levels + length path) k (climb read_fails nodes root path))
                bound up))
      go pre (e ∷ post) lo' hi' split place bound mapped above up =
          let more : level_finished nodes at ≡ false = ground (
            arith,
            place,
            ap length split,
            length-append pre (record { key = lo; block = block } ∷ e ∷ post),
          ) in
          rw more (
            levels,
            refl,
            (
              pre ++ record { key = lo; block = block } ∷ [],
              e,
              post,
              lo',
              hi',
              split ∙ sym (append_assoc pre (record { key = lo; block = block } ∷ []) (e ∷ post)),
              omega (arith, place, length-append pre (record { key = lo; block = block } ∷ [])),
              bound,
              mapped,
              above,
            ),
          )

  -- What an advance does past a leaf with the keys up to `from`, where the leaves `left` are right of it.
  abbrev pub IsNextLeaf : (depth from : ℕ) (left : List ℕ) → Advance → Type 0
  IsNextLeaf depth from left finished = (left ≡ []) × (from ≡ tuxkey_limit)
  IsNextLeaf depth from left (descended eio) = (b : ℕ) × (read_fails b ≡ true)
  IsNextLeaf depth from left (descended failed) = ⊥
  IsNextLeaf depth from left (descended (at_leaf leaf path)) =
      (left ≡ leaf ∷ rest_leaves nodes 0 path)
      × (length path ≡ depth)
      × ((hi : ℕ) × Hangs nodes leaf_at root 0 path leaf from hi)

  go_down-IsNextLeaf :
      (depth from : ℕ) (left : List ℕ) (path : Path_)
      → IsClimbed depth from path
      → IsAdvanced read_fails nodes root depth left (go_down read_fails nodes root depth path)
      → IsNextLeaf depth from left (go_down read_fails nodes root depth path)
  go_down-IsNextLeaf depth from left [] c a = (a, c)
  go_down-IsNextLeaf depth from left (at ∷ path) c a =
      let (top, height, place) = c in
      let level : depth - 1 - length path ≡ top = omega (arith, height) in
      joins (descend read_fails nodes root (depth - 1 - length path) at path) a (
        subst
          (λ (n : ℕ).
            IsBelow read_fails nodes leaf_at root from (descend read_fails nodes root n at path))
          (sym level) (descend-IsBelow read_fails nodes leaf_at root top at path from place))
    where
      joins :
          (d : Descent)
          → IsAdvanced read_fails nodes root depth left (descended d)
          → IsBelow read_fails nodes leaf_at root from d
          → IsNextLeaf depth from left (descended d)
      joins eio a b = a
      joins failed a b = b
      joins (at_leaf leaf path') a b = (a.0, a.2, b)

  -- In a btree that stands for a map from keys to leaves, with the cursor at a leaf whose keys end before `hi`:
  -- an advance ends the walk exactly when no leaf is right of the cursor, and then `hi` is the limit of the
  -- keys. Otherwise it stops at a block that cannot be read, or at the first leaf to the right, whose keys
  -- begin at `hi`, with a path of the btree that leads to it and has the other leaves to the right. No assert
  -- fails.
  pub cursor_advance-IsNextLeaf :
      (path : Path_) (leaf lo hi : ℕ)
      → Hangs nodes leaf_at root 0 path leaf lo hi
      → IsNextLeaf
          (length path)
          hi
          (rest_leaves nodes 0 path)
          (cursor_advance read_fails nodes root (length path) path)
  unfolding cursor_advance
  cursor_advance-IsNextLeaf path leaf lo hi h =
      let height : 0 + length path ≡ length path = omega arith in
      go_down-IsNextLeaf (length path) hi (rest_leaves nodes 0 path)
        (climb read_fails nodes root path)
        (subst (λ (n : ℕ). IsClimbed n hi (climb read_fails nodes root path)) height
          (climb-IsClimbed 0 path leaf lo hi h))
        (cursor_advance-IsAdvanced read_fails nodes root path
          (Hangs-IsPath read_fails nodes leaf_at root 0 path leaf lo hi h))
