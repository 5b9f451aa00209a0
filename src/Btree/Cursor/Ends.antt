-- ===== src/Btree/Cursor/Ends.antt =====
-- kernel/btree.c: the traversal of a btree ends.
use tux3_fuse.Prelude.{
  ℕ, zero, suc, ◌+◌, ◌-◌, ◌^◌, ◌%◌, ◌<◌, ◌≡◌, ap, sym, subst, Bool, true, ◌&&◌, Bool-cases, inl,
  inr, List, length, leb, ltb, ◌==◌, if◌then◌else◌, min, arith,
}
use tux3_fuse.Btree.{Node}
use tux3_fuse.Btree.Cursor.{
  Path_, eio, failed, at_leaf, Advance, finished, descended, cursor_advance, cursor_next_key,
  cursor_this_key, Visit, Traversal, out_of_fuel, broken, returned, traverse_on, btree_traverse,
}
use tux3_fuse.Btree.Cursor.Leaves.{rest_leaves}
use tux3_fuse.Btree.Cursor.Order.{Hangs}
use tux3_fuse.Btree.Cursor.Next.{IsNextLeaf, cursor_advance-IsNextLeaf}

module _ (read_fails : ℕ → Bool) (nodes : ℕ → Node) (leaf_at : ℕ → ℕ) (root : ℕ) (depth : ℕ)
    {S : Type 0} (visit : Visit S) where
  -- an end of the loop: a return, or a block that cannot be read
  abbrev pub IsEnded : Traversal S → Type 0
  IsEnded out_of_fuel = ⊥
  IsEnded (returned r s) = Unit {0}
  IsEnded (broken eio s) = (b : ℕ) × (read_fails b ≡ true)
  IsEnded (broken _ s) = ⊥

  traverse_on-IsEnded :
      (again : ℕ → Path_ → S → Traversal S) (path : Path_) (key len : ℕ) (visited : S × ℕ)
      (leaf lo hi : ℕ)
      → Hangs nodes leaf_at root 0 path leaf lo hi
      → length path ≡ depth
      → ((leaf' : ℕ) (path' : Path_) (s : S) (hi' : ℕ)
          → Hangs nodes leaf_at root 0 path' leaf' hi hi'
          → length path' ≡ depth
          → suc (length (rest_leaves nodes 0 path')) ≡ length (rest_leaves nodes 0 path)
          → IsEnded (again leaf' path' s))
      → IsEnded (traverse_on read_fails nodes root depth visit again path key len visited)
  traverse_on-IsEnded again path key len (s, suc stop) leaf lo hi h d next = tt
  traverse_on-IsEnded again path key len (s, zero) leaf lo hi h d next =
      elim (Bool-cases (leb ((key + len) % 2 ^ 64) (cursor_next_key nodes path))) [
        | inl e ↦ rw e tt
        | inr e ↦ rw e (
            go (cursor_advance read_fails nodes root depth path) (
              subst
                (λ (n : ℕ).
                  IsNextLeaf read_fails nodes leaf_at root n hi (rest_leaves nodes 0 path)
                    (cursor_advance read_fails nodes root n path))
                d (cursor_advance-IsNextLeaf read_fails nodes leaf_at root path leaf lo hi h)))
      ]
    where
      go :
          (a : Advance)
          → IsNextLeaf read_fails nodes leaf_at root depth hi (rest_leaves nodes 0 path) a
          → IsEnded (elim a [
            | finished ↦ returned 0 s
            | descended (at_leaf leaf' path') ↦ again leaf' path' s
            | descended broken_ ↦ broken broken_ s
          ])
      go finished a = tt
      go (descended eio) a = a
      go (descended failed) a = elim a [ ]
      go (descended (at_leaf leaf' path')) a =
          let (left, l, below) = a in
          let (hi', hung) = below in
          next leaf' path' s hi' hung l (sym (ap (λ (xs : List ℕ). length xs) left))

  -- With more fuel than there are leaves right of the cursor, the traversal of a btree that stands for a map
  -- from keys to leaves ends, from a path of the depth of the btree that leads to the leaf, and for any callback
  -- that leaves the index nodes alone: by a return, or at a block that cannot be read.
  pub btree_traverse-IsEnded :
      (fuel leaf : ℕ) (path : Path_) (key len : ℕ) (s : S) (lo hi : ℕ)
      → Hangs nodes leaf_at root 0 path leaf lo hi
      → length path ≡ depth
      → length (rest_leaves nodes 0 path) < fuel
      → IsEnded (btree_traverse read_fails nodes root depth visit fuel leaf path key len s)
  unfolding btree_traverse
  btree_traverse-IsEnded zero leaf path key len s lo hi h d b = absurd (omega (arith, b))
  btree_traverse-IsEnded (suc fuel) leaf path key len s lo hi h d b =
      let bottom = cursor_this_key nodes path in
      let skipped = ltb key bottom in
      let len' = if skipped then len - min len (bottom - key) else len in
      let key' = if skipped then bottom else key in
      elim (Bool-cases (skipped && (len' == 0))) [
        | inl e ↦ rw e tt
        | inr e ↦ rw e (
            traverse_on-IsEnded _ path key' len'
              (visit bottom (cursor_next_key nodes path) leaf key' len' s) leaf lo hi h d
              (λ leaf' path' s' hi' h' d' fewer.
                btree_traverse-IsEnded fuel leaf' path' key' len' s' hi hi' h' d'
                  (omega (arith, b, fewer))))
      ]
