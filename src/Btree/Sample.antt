-- ===== src/Btree/Sample.antt =====
-- A btree of two full levels: root 10 with nodes 20 and 21, and four leaves, whose keys begin with 0, 30, 50,
-- 70; the path of a cursor to the leaf 101, and new blocks.
use tux3_fuse.Prelude.{
  ◌&&◌, ℕ, refl, Bool, ◌||◌, List, [], ◌∷◌, ltb, leb, ◌==◌, if◌then◌else◌, arith,
}
use tux3_fuse.Btree.{IndexEntry, Node}
use tux3_fuse.Btree.Cursor.{PathLevel, Path_, tuxkey_limit}
use tux3_fuse.Btree.Cursor.Order.{Hangs}

abbrev pub index : (key block : ℕ) → IndexEntry
index key block = record { key = key; block = block }

abbrev pub tree : ℕ → Node
tree block =
    if block == 10
    then index 0 20 ∷ index 50 21 ∷ []
    else if block == 20
    then index 0 100 ∷ index 30 101 ∷ []
    else if block == 21
    then index 50 102 ∷ index 70 103 ∷ []
    else []

abbrev pub leaf_of : ℕ → ℕ
leaf_of key =
    if ltb key 30 then 100 else if ltb key 50 then 101 else if ltb key 70 then 102 else 103

abbrev pub at_level : (buffer next : ℕ) → PathLevel
at_level buffer next = record { buffer = buffer; next = next }

abbrev pub path : Path_
path = at_level 20 2 ∷ at_level 10 1 ∷ []

abbrev pub fresh : List ℕ
fresh = 30 ∷ 31 ∷ 32 ∷ []

abbrev pub written : ℕ → Bool
written block = block == 10 || (block == 20 || (leb 30 block && ltb block 33))

pub path-Hangs : Hangs tree leaf_of 10 0 path 101 30 50
path-Hangs = (
  index 0 100 ∷ [],
  [],
  0,
  50,
  refl,
  refl,
  refl,
  (
    omega arith,
    refl,
    (
      (omega arith, λ k l u. ground (arith, l, u)),
      ((omega arith, λ k l u. ground (arith, l, u)), tt),
    ),
  ),
  (
    [],
    index 50 21 ∷ [],
    0,
    tuxkey_limit,
    refl,
    refl,
    refl,
    (
      omega arith,
      refl,
      (
        (
          omega arith,
          refl,
          (
            (omega arith, λ k l u. ground (arith, l, u)),
            ((omega arith, λ k l u. ground (arith, l, u)), tt),
          ),
        ),
        (
          (
            omega arith,
            refl,
            (
              (omega arith, λ k l u. ground (arith, l, u)),
              ((omega arith, λ k l u. ground (arith, l, u)), tt),
            ),
          ),
          tt,
        ),
      ),
    ),
    (refl, refl, refl),
  ),
)
