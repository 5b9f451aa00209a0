-- ===== src/Btree/Route.antt =====
-- kernel/btree.c: the child that a node leads to for a key, and how the operations change it.
use tux3_fuse.Prelude.{
  ℕ, zero, suc, ◌+◌, ◌≤◌, ◌<◌, ◌≡◌, refl, ap, true, false, Bool-cases, inl, inr, some, [], ◌∷◌,
  ◌++◌, ltb, ◌==◌, if◌then◌else◌, length, length-take, length-drop, get_or, set, take, drop,
  take-append-drop, arith,
}
use tux3_fuse.Btree.{
  IndexEntry, Node, no_entry, passed, bnode_lookup, bnode_split, bnode_merge_nodes, add_func,
  update_func,
}

-- The child for key `k`, where `child` is the one before the entries.
unfoldable pub child_from : ℕ → Node → ℕ → ℕ
child_from child [] k = child
child_from child (n ∷ ns) k =
    let later = child_from n.block ns k in if ltb k n.key then child else later

-- The child of a node for a key: the last one whose key is not above it, the first key not counting.
unfoldable pub child_of : Node → ℕ → ℕ
child_of [] k = 0
child_of (first ∷ rest) k = child_from first.block rest k

pub passed-child_from :
    (first : IndexEntry) (rest : Node) (k : ℕ)
    → (get_or (first ∷ rest) (passed k rest) no_entry).block ≡ child_from first.block rest k
unfolding child_from
passed-child_from first [] k = refl
passed-child_from first (n ∷ ns) k = elim (Bool-cases (ltb k n.key)) [
  | inl below ↦ rw (below) refl
  | inr above ↦ rw (above) (passed-child_from n ns k)
]

-- The lookup in a node with an entry finds the position of the child for the key.
pub bnode_lookup-child_of :
    (first : IndexEntry) (rest : Node) (k : ℕ)
    → (at : ℕ) × (bnode_lookup (first ∷ rest) k ≡ some at)
      × (at < length (first ∷ rest))
      × ((get_or (first ∷ rest) at no_entry).block ≡ child_of (first ∷ rest) k)
unfolding bnode_lookup child_of
bnode_lookup-child_of first rest k =
    (passed k rest, refl, bound rest, passed-child_from first rest k)
  where
    bound : (rest : Node) → passed k rest < suc (length rest)
    bound [] = omega arith
    bound (n ∷ ns) = ground (arith, bound ns)

child_from-add :
    (child : ℕ) (ns : Node) (x : IndexEntry) (k : ℕ)
    → child_from child (take (passed x.key ns) ns ++ x ∷ drop (passed x.key ns) ns) k ≡ (
        if ltb k x.key
        then child_from child ns k
        else if passed k ns == passed x.key ns
        then x.block
        else child_from child ns k)
unfolding child_from
child_from-add child [] x k = ground arith
child_from-add child (n ∷ ns) x k = elim (Bool-cases (ltb x.key n.key)) [
  | inl below ↦ rw below (ground (arith, below))
  | inr above ↦ rw above (ground (arith, above, child_from-add n.block ns x k))
]

-- On a node with an entry the replay of an added index succeeds, and the new child takes over the keys from
-- `key` up to the next entry; every other key leads where it led.
pub add_func-child_of :
    (first : IndexEntry) (rest : Node) (child key : ℕ)
    → (node : Node) × (add_func (first ∷ rest) child key ≡ some node)
      × ((k : ℕ)
          → child_of node k ≡ (
              if ltb k key
              then child_of (first ∷ rest) k
              else if passed k rest == passed key rest
              then child
              else child_of (first ∷ rest) k))
unfolding add_func child_of
add_func-child_of first rest child key = (
  first
      ∷ (take (passed key rest) rest
          ++ record { key = key; block = child } ∷ drop (passed key rest) rest),
  refl,
  λ k. child_from-add first.block rest (record { key = key; block = child }) k,
)

child_from-first :
    (child child' : ℕ) (ns : Node) (k : ℕ)
    → child_from child' ns k ≡ (if passed k ns == 0 then child' else child_from child ns k)
unfolding child_from
child_from-first child child' [] k = refl
child_from-first child child' (n ∷ ns) k = ground arith

child_from-set :
    (child : ℕ) (ns : Node) (i new k : ℕ)
    → child_from child (set ns i (record { key = (get_or ns i no_entry).key; block = new })) k
      ≡ (if passed k ns == suc i then new else child_from child ns k)
unfolding child_from
child_from-set child [] i new k = ground arith
child_from-set child (n ∷ ns) zero new k = ground (arith, child_from-first n.block new ns k)
child_from-set child (n ∷ ns) (suc i) new k = ground (arith, child_from-set n.block ns i new k)

-- Where the entry that the lookup finds has exactly the key, the replay of an updated index succeeds: the
-- keys from that entry up to the next one lead to the new child, every other key where it led.
pub update_func-child_of :
    (first : IndexEntry) (rest : Node) (child key : ℕ)
    → (get_or (first ∷ rest) (passed key rest) no_entry).key ≡ key
    → (node : Node) × (update_func (first ∷ rest) child key ≡ some node)
      × ((k : ℕ)
          → child_of node k
            ≡ (if passed k rest == passed key rest then child else child_of (first ∷ rest) k))
unfolding update_func child_of
update_func-child_of first rest child key exact = (
  set (first ∷ rest) at (record { key = (get_or (first ∷ rest) at no_entry).key; block = child }),
  rw same refl,
  λ k. routes at k,
)
  where
    at : ℕ
    at = passed key rest

    same : ((get_or (first ∷ rest) at no_entry).key == key) ≡ true
    same = ground (arith, exact)

    routes :
        (i k : ℕ)
        → child_of
            (set
              (first ∷ rest)
              i
              (record { key = (get_or (first ∷ rest) i no_entry).key; block = child }))
            k
          ≡ (if passed k rest == i then child else child_of (first ∷ rest) k)
    routes zero k = child_from-first first.block child rest k
    routes (suc i) k = child_from-set first.block rest i child k

-- The halves of a split, merged again, are the node, if it was no larger than a node is.
pub bnode_merge_nodes-bnode_split :
    (entries_per_node pos : ℕ) (src : Node)
    → length src ≤ entries_per_node
    → let (low, high) = bnode_split src pos in
      bnode_merge_nodes entries_per_node low high ≡ some src
unfolding bnode_split bnode_merge_nodes
bnode_merge_nodes-bnode_split entries pos src h =
    let room : ltb entries (length (drop pos src) + length (take pos src)) ≡ false =
      ground (arith, length-take pos src, length-drop pos src) in
    rw room (ap some (take-append-drop pos src))

-- The keys do not decrease, from `low` on.
abbrev pub IsSorted : ℕ → Node → Type 0
IsSorted low [] = Unit {0}
IsSorted low (n ∷ ns) = (low ≤ n.key) × IsSorted n.key ns

IsSorted-bound :
    (low : ℕ) (ns : Node) (i : ℕ)
    → i < length ns
    → IsSorted low ns
    → low ≤ (get_or ns i no_entry).key
IsSorted-bound low [] i h s = absurd (omega arith)
IsSorted-bound low (n ∷ ns) zero h s = s.0
IsSorted-bound low (n ∷ ns) (suc i) h s =
    omega (arith, s.0, IsSorted-bound n.key ns i (omega arith) s.1)

child_from-cut :
    (child low : ℕ) (ns : Node) (i k : ℕ)
    → i < length ns
    → IsSorted low ns
    → child_from child ns k ≡ (
        if ltb k (get_or ns i no_entry).key
        then child_from child (take i ns) k
        else child_of (drop i ns) k)
unfolding child_from child_of
child_from-cut child low [] i k h s = absurd (omega arith)
child_from-cut child low (n ∷ ns) zero k h s = ground arith
child_from-cut child low (n ∷ ns) (suc i) k h s = ground (
  arith,
  child_from-cut n.block n.key ns i k (omega arith) s.1,
  IsSorted-bound n.key ns i (omega arith) s.1,
)

-- A node whose keys behind the first one do not decrease, split at a position inside it: the keys below the
-- first key of the upper half lead through the lower half where they led, the others through the upper one.
pub bnode_split-child_of :
    (first : IndexEntry) (rest : Node) (pos k : ℕ)
    → 0 < pos
    → pos < length (first ∷ rest)
    → IsSorted 0 rest
    → let (low, high) = bnode_split (first ∷ rest) pos in
      child_of (first ∷ rest) k
      ≡ (if ltb k (get_or (first ∷ rest) pos no_entry).key then child_of low k else child_of high k)
unfolding bnode_split child_of
bnode_split-child_of first rest zero k p h s = absurd (omega arith)
bnode_split-child_of first rest (suc i) k p h s =
    child_from-cut first.block 0 rest i k (omega arith) s
