-- ===== src/Btree/Cursor/Tests.antt =====
-- The walks of a cursor over the sample.
use tux3_fuse.Prelude.{ℕ, ◌≡◌, refl, Bool, false, List, [], ◌∷◌, arith}
use tux3_fuse.Btree.{bnode_lookup}
use tux3_fuse.Btree.Cursor.{
  check_levels, cursor_check, at_leaf, finished, descended, cursor_advance, btree_probe, Visit,
  returned, btree_traverse, probe_down, descend, climb, cursor_next_key, cursor_this_key,
}
use tux3_fuse.Btree.Cursor.Leaves.{leaves, rest_leaves, flat}
use tux3_fuse.Btree.Cursor.Next.{IsNextLeaf, cursor_advance-IsNextLeaf}
use tux3_fuse.Btree.Cursor.Probe.{IsProbed, btree_probe-IsProbed}
use tux3_fuse.Btree.Cursor.Ends.{IsEnded, btree_traverse-IsEnded}
use tux3_fuse.Btree.Sample.{tree, leaf_of, at_level, path, path-Hangs}

abbrev readable : ℕ → Bool
readable block = false

probe_runs : btree_probe readable tree 10 2 45 ≡ at_leaf 101 path
unfolding btree_probe probe_down descend cursor_check check_levels bnode_lookup
probe_runs = refl

advance_runs :
    cursor_advance readable tree 10 2 path
    ≡ descended (at_leaf 102 (at_level 21 1 ∷ at_level 10 2 ∷ []))
unfolding cursor_advance climb descend cursor_check check_levels
advance_runs = refl

last_leaf_runs : cursor_advance readable tree 10 2 (at_level 21 2 ∷ at_level 10 2 ∷ []) ≡ finished
unfolding cursor_advance climb
last_leaf_runs = refl

abbrev gather : Visit (List ℕ)
gather bottom limit leaf key len seen = (leaf ∷ seen, 0)

traverse_runs :
    btree_traverse readable tree 10 2 gather 9 101 path 40 1000 []
    ≡ returned 0 (103 ∷ 102 ∷ 101 ∷ [])
unfolding btree_traverse cursor_advance climb descend cursor_check check_levels cursor_next_key
    cursor_this_key
traverse_runs = refl

cursor_advance-IsNextLeaf_example :
    IsNextLeaf readable tree leaf_of 10 2 50
      (rest_leaves tree 0 path)
      (cursor_advance readable tree 10 2 path)
cursor_advance-IsNextLeaf_example =
    cursor_advance-IsNextLeaf readable tree leaf_of 10 path 101 30 50 path-Hangs

btree_traverse-IsEnded_example :
    IsEnded readable tree leaf_of 10 2 gather
      (btree_traverse readable tree 10 2 gather 3 101 path 40 1000 [])
unfolding rest_leaves flat leaves
btree_traverse-IsEnded_example =
    btree_traverse-IsEnded readable tree leaf_of 10 2 gather 3 101 path 40 1000 [] 30 50 path-Hangs
      refl (omega arith)

btree_probe-IsProbed_example :
    IsProbed tree leaf_of 10 readable 2 101 45 (btree_probe readable tree 10 2 45)
btree_probe-IsProbed_example =
    btree_probe-IsProbed tree leaf_of 10 readable 45 1
      (
        omega arith,
        refl,
        (
          (
            omega arith,
            refl,
            (
              (omega arith, λ k l u. ground (arith, l, u)),
              ((omega arith, λ k l u. ground (arith, l, u)), tt),
            ),
          ),
          (
            (
              omega arith,
              refl,
              (
                (omega arith, λ k l u. ground (arith, l, u)),
                ((omega arith, λ k l u. ground (arith, l, u)), tt),
              ),
            ),
            tt,
          ),
        ),
      )
      (omega arith)
