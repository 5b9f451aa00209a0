-- ===== src/Btree/Insert/Tests.antt =====
-- The leaf 200 goes into the sample at key 40, behind the leaf 101, and both levels are split.
use tux3_fuse.Prelude.{ℕ, ◌≡◌, refl, true, false, List, [], ◌∷◌, arith}
use tux3_fuse.Log.Entry.{Entry}
use tux3_fuse.Btree.{Node, bnode_split, bnode_add_index}
use tux3_fuse.Btree.Insert.{inserted, no_block, Insertion, insert_leaf, insert_up}
use tux3_fuse.Btree.Insert.Replayed.{IsReplayed, insert_leaf-IsReplayed}
use tux3_fuse.Btree.Insert.Mapped.{IsInserted, insert_leaf-IsInserted}
use tux3_fuse.Btree.Sample.{index, tree, leaf_of, path, fresh, written, path-Hangs}

calls_of : Insertion → List Entry
calls_of (no_block nodes calls) = calls
calls_of (inserted nodes root depth at calls) = calls

insert_runs :
    calls_of (insert_leaf 2 10 2 101 40 200 true fresh tree path)
    ≡ Entry.bnode_split 20 1 30
      ∷ Entry.bnode_add 30 200 40
      ∷ Entry.bnode_split 10 1 31
      ∷ Entry.bnode_add 10 30 30
      ∷ Entry.bnode_root 32 2 10 31 50
      ∷ []
unfolding insert_leaf insert_up calls_of
insert_runs = refl

-- With one new block the root is left as it is: nothing leads to the block 30, the half of node 20 that was
-- split off.
nodes_of : Insertion → ℕ → Node
nodes_of (no_block nodes calls) = nodes
nodes_of (inserted nodes root depth at calls) = nodes

half_lost :
    (nodes_of (insert_leaf 2 10 2 101 40 200 true (30 ∷ []) tree path) 10
      ≡ index 0 20 ∷ index 50 21 ∷ [])
    × (nodes_of (insert_leaf 2 10 2 101 40 200 true (30 ∷ []) tree path) 20 ≡ index 0 100 ∷ [])
    × (nodes_of (insert_leaf 2 10 2 101 40 200 true (30 ∷ []) tree path) 30
        ≡ index 30 101 ∷ index 40 200 ∷ [])
unfolding insert_leaf insert_up nodes_of bnode_split bnode_add_index
half_lost = (refl, refl, refl)

insert_leaf-IsReplayed_example :
    IsReplayed
      (λ b. false)
      (λ b. false)
      (λ b. refl)
      2
      tree
      (insert_leaf 2 10 2 101 40 200 true fresh tree path)
insert_leaf-IsReplayed_example =
    insert_leaf-IsReplayed (λ b. false) (λ b. false) (λ b. refl) 2 10 2 101 40 200 30 50 true fresh
      tree leaf_of path (omega arith) path-Hangs
      (
        refl,
        (refl, tt),
        (refl, tt),
        (refl, (refl, tt)),
        (refl, (refl, tt)),
        (refl, tt, tt, (refl, tt), (refl, tt), tt),
      )
      (omega arith) (omega arith)

insert_leaf-IsInserted_example :
    IsInserted tree leaf_of written 200 40 50 2 10 2 3 2
      (insert_leaf 2 10 2 101 40 200 true fresh tree path)
insert_leaf-IsInserted_example =
    insert_leaf-IsInserted tree leaf_of written 2 10 2 101 40 200 30 50 true fresh path
      (omega arith) (omega arith) refl path-Hangs
      ((tt, tt), tt, (tt, ((refl, (tt, (tt, tt))), tt), tt))
      ((refl, (refl, tt)), (refl, (refl, (refl, tt))))
      (
        refl,
        (refl, tt),
        (refl, tt),
        (refl, (refl, tt)),
        (refl, (refl, tt)),
        (refl, tt, tt, (refl, tt), (refl, tt), tt),
      )
      (omega arith) (omega arith)
