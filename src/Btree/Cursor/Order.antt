-- ===== src/Btree/Cursor/Order.antt =====
-- kernel/btree.c: the order of the keys in a btree, and the range of keys of the subtree that a path leads to.
use tux3_fuse.Prelude.{
  ℕ, zero, suc, ◌≤◌, ◌<◌, ◌≡◌, refl, ap, Bool-cases, inl, inr, [], ◌∷◌, ◌++◌, length, get_or, ltb,
  arith,
}
use tux3_fuse.Btree.{IndexEntry, Node, no_entry, passed}
use tux3_fuse.Btree.Cursor.{Path_, tuxkey_limit}

-- the first key, or the bound behind the entries
abbrev pub upper : Node → (hi : ℕ) → ℕ
upper [] hi = hi
upper (e ∷ es) hi = e.key

-- Each child has the keys from the one of its entry up to the next one.
abbrev pub Chain : (ℕ → ℕ → ℕ → Type 0) → Node → (hi : ℕ) → Type 0
Chain R [] hi = Unit {0}
Chain R (e ∷ es) hi = R e.block e.key (upper es hi) × Chain R es hi

pub Chain-append :
    (R : ℕ → ℕ → ℕ → Type 0) (xs ys : Node) (hi : ℕ)
    → Chain R xs (upper ys hi)
    → Chain R ys hi
    → Chain R (xs ++ ys) hi
Chain-append R [] ys hi a b = b
Chain-append R (x ∷ []) ys hi a b = (a.0, b)
Chain-append R (x ∷ x' ∷ xs) ys hi a b = (a.0, Chain-append R (x' ∷ xs) ys hi a.1 b)

pub Chain-split :
    (R : ℕ → ℕ → ℕ → Type 0) (xs ys : Node) (hi : ℕ)
    → Chain R (xs ++ ys) hi
    → Chain R xs (upper ys hi) × Chain R ys hi
Chain-split R [] ys hi a = (tt, a)
Chain-split R (x ∷ []) ys hi a = ((a.0, tt), a.1)
Chain-split R (x ∷ x' ∷ xs) ys hi a =
    let (first, second) = Chain-split R (x' ∷ xs) ys hi a.1 in ((a.0, first), second)

pub get_or-middle :
    (pre post : Node) (e : IndexEntry) → get_or (pre ++ e ∷ post) (length pre) no_entry ≡ e
get_or-middle [] post e = refl
get_or-middle (x ∷ pre) post e = get_or-middle pre post e

-- The entry that the lookup of a key finds: the key lies between its key and the next one.
pub passed-place :
    (first : IndexEntry) (rest : Node) (key hi : ℕ)
    → first.key ≤ key
    → key < hi
    → (pre : Node) × (e : IndexEntry) × (post : Node) × (first ∷ rest ≡ pre ++ e ∷ post)
      × (passed key rest ≡ length pre)
      × (e.key ≤ key)
      × (key < upper post hi)
passed-place first [] key hi low high = ([], first, [], refl, refl, low, high)
passed-place first (n ∷ rest) key hi low high = elim (Bool-cases (ltb key n.key)) [
  | inl below ↦ rw below ([], first, n ∷ rest, refl, refl, low, ground (arith, below))
  | inr above ↦
      let (pre, e, post, split, p, l, h) =
        passed-place n rest key hi (ground (arith, above)) high in
      rw above (first ∷ pre, e, post, ap (λ (t : Node). first ∷ t) split, ap suc p, l, h)
]

module _ (nodes : ℕ → Node) (leaf_at : ℕ → ℕ) where
  -- The subtree below a block has the keys from `lo` up to `hi` in order, the first key of a node being `lo`,
  -- and leads each of them to the leaf that the map `leaf_at` has for it.
  abbrev pub IsMapped : (levels block lo hi : ℕ) → Type 0
  IsMapped zero block lo hi = (lo < hi) × ((k : ℕ) → lo ≤ k → k < hi → leaf_at k ≡ block)
  IsMapped (suc levels) block lo hi =
      (0 < length (nodes block))
      × (upper (nodes block) hi ≡ lo)
      × Chain (IsMapped levels) (nodes block) hi

  -- A path leads down to `block`, whose keys are those from `lo` up to `hi`, from the root of a btree.
  abbrev pub Hangs : (root levels : ℕ) → Path_ → (block lo hi : ℕ) → Type 0
  Hangs root levels [] block lo hi = (block ≡ root) × (lo ≡ 0) × (hi ≡ tuxkey_limit)
  Hangs root levels (at ∷ path) block lo hi =
      (pre : Node) × (post : Node) × (lo' : ℕ) × (hi' : ℕ) × (nodes at.buffer
        ≡ pre ++ record { key = lo; block = block } ∷ post)
      × (at.next ≡ suc (length pre))
      × (upper post hi' ≡ hi)
      × IsMapped (suc levels) at.buffer lo' hi'
      × Hangs root (suc levels) path at.buffer lo' hi'
