-- ===== src/Btree/Tests.antt =====
-- A node of three children, keys from 10 and from 20 on leading to the second and the third.
use tux3_fuse.Prelude.{ℕ, ◌≡◌, refl, some, [], ◌∷◌, ltb, ◌==◌, if◌then◌else◌, arith}
use tux3_fuse.Btree.{
  IndexEntry, Node, passed, bnode_split, add_func, update_func, del_func, adjust_func,
}
use tux3_fuse.Btree.Route.{bnode_split-child_of, child_of, add_func-child_of, update_func-child_of}

abbrev index : (key block : ℕ) → IndexEntry
index key block = record { key = key; block = block }

abbrev behind : Node
behind = index 10 101 ∷ index 20 102 ∷ []

abbrev node : Node
node = index 0 100 ∷ behind

del_runs : del_func node 10 1 ≡ some (index 0 100 ∷ index 20 102 ∷ [])
unfolding del_func
del_runs = refl

adjust_runs : adjust_func node 20 25 ≡ some (index 0 100 ∷ index 10 101 ∷ index 25 102 ∷ [])
unfolding adjust_func
adjust_runs = refl

add_func-child_of_example :
    (changed : Node) × (add_func node 103 15 ≡ some changed)
    × ((k : ℕ)
        → child_of changed k ≡ (
            if ltb k 15
            then child_of node k
            else if passed k behind == passed 15 behind
            then 103
            else child_of node k))
add_func-child_of_example = add_func-child_of (index 0 100) behind 103 15

update_func-child_of_example :
    (changed : Node) × (update_func node 103 10 ≡ some changed)
    × ((k : ℕ)
        → child_of changed k
          ≡ (if passed k behind == passed 10 behind then 103 else child_of node k))
update_func-child_of_example = update_func-child_of (index 0 100) behind 103 10 refl

bnode_split-child_of_example :
    let (low, high) = bnode_split node 2 in
    child_of node 25 ≡ (if ltb 25 20 then child_of low 25 else child_of high 25)
bnode_split-child_of_example =
    bnode_split-child_of (index 0 100) behind 2 25 (omega arith) (omega arith)
      (omega arith, (omega arith, tt))
