-- ===== src/Dleaf2/Split.antt =====
-- kernel/dleaf2.c: what `dleaf2_split` leaves in the two leaves.
use tux3_fuse.Prelude.{
  length-drop, length-append, length-take, ℕ, zero, suc, ◌+◌, ◌-◌, ◌≤◌, ◌<◌, ◌≡◌, refl, ap, ◌∙◌,
  Option, none, some, [], ◌∷◌, ◌++◌, ltb, ◌==◌, if◌then◌else◌, length, take, drop, arith, Bool,
  true, false, Bool-cases, inl, inr,
}
use tux3_fuse.Dleaf2.{
  DiskExtent, Table, entry, get_logical, get_extent, put_extent, physical_of, lookup_from,
  dleaf2_lookup_index, dleaf2_split, SplitResult,
}
use tux3_fuse.Dleaf2.Extents.{
  get_logical-bound, block_at-cut, block_at-last, block_at-nil, get_extent-logical, block_at,
  IsAscending,
}
use tux3_fuse.Dleaf2.Words.{get_logical-put_extent}

-- Past the first entry the loop always finds a position.
lookup_from-found :
    (index i : ℕ) (rest : Table)
    → 0 < i
    → (n : ℕ) × (lookup_from index i rest ≡ some n) × (n ≤ i + length rest)
lookup_from-found index i [] h = (i, refl, omega arith)
lookup_from-found index i (dex ∷ rest) h =
    let (n, e, b) = lookup_from-found index (i + 1) rest (omega arith) in
    if_some (index == get_logical dex) (ltb index (get_logical dex)) i n
      (lookup_from index (i + 1) rest) (length rest) h e b
  where
    if_some :
        (p q : Bool) (i n : ℕ) (next : Option ℕ) (m : ℕ)
        → 0 < i
        → next ≡ some n
        → n ≤ i + 1 + m
        → (k : ℕ) × ((if p
              then some i
              else if q
              then (if i == 0 then none else some (i - 1))
              else next)
            ≡ some k)
          × (k ≤ i + suc m)
    if_some true q i n next m h e b = (i, refl, omega arith)
    if_some false true (suc i) n next m h e b = (i, ground arith, omega arith)
    if_some false true zero n next m h e b = absurd (omega arith)
    if_some false false i n next m h e b = (n, e, omega arith)

dleaf2_lookup_index-found :
    (d : DiskExtent) (rest : Table) (index : ℕ)
    → get_logical d ≤ index
    → physical_of (entry (d ∷ rest) (length rest)) ≡ 0
    → (n : ℕ) × (dleaf2_lookup_index (d ∷ rest) index ≡ some n) × (n ≤ length (d ∷ rest))
unfolding dleaf2_lookup_index
dleaf2_lookup_index-found d rest index h last =
    let (n, e, b) = lookup_from-found index 1 rest (omega arith) in
    let (k, f, c) = first n e b in
    let tail : k ≡ suc (length rest) → physical_of (entry (d ∷ rest) (k - 1)) ≡ 0 =
      λ q. ap (λ (i : ℕ). physical_of (entry (d ∷ rest) i)) (omega (arith, q)) ∙ last in
    (k, rw f (ground (arith, tail)), c)
  where
    first :
        (n : ℕ)
        → lookup_from index 1 rest ≡ some n
        → n ≤ 1 + length rest
        → (k : ℕ) × (lookup_from index 0 (d ∷ rest) ≡ some k) × (k ≤ suc (length rest))
    first n e b = elim (Bool-cases (index == get_logical d)) [
      | inl t ↦ (0, ground arith, omega arith)
      | inr t ↦ (n, ground arith, omega arith)
    ]

-- On a leaf whose addresses do not decrease, which has three entries at least, ends with a sentinel and
-- starts at or below the hint, the split into an empty leaf succeeds: below the returned key the left leaf
-- maps what the leaf did, from the key on the right leaf does, and no leaf grows.
pub dleaf2_split-block_at :
    (d : DiskExtent) (rest : Table) (hint : ℕ)
    → 3 ≤ length (d ∷ rest)
    → IsAscending 0 (d ∷ rest)
    → physical_of (entry (d ∷ rest) (length rest)) ≡ 0
    → get_logical d ≤ hint
    → (r : SplitResult) × (dleaf2_split hint (d ∷ rest) [] ≡ some r)
      × ((l : ℕ)
          → block_at (d ∷ rest) l ≡ (if ltb l r.key then block_at r.from l else block_at r.into l))
      × (length r.from ≤ length (d ∷ rest))
      × (length r.into ≤ length (d ∷ rest))
unfolding dleaf2_split block_at
dleaf2_split-block_at d rest hint three ascending sentinel low =
    let (at, found, bound) = dleaf2_lookup_index-found d rest hint low sentinel in
    elim (Bool-cases (at == length (d ∷ rest))) [
      | inl whole ↦
          let back : at - 1 ≡ length rest = ground arith in
          let last : physical_of (entry (d ∷ rest) (at - 1)) ≡ 0 =
            ap (λ (i : ℕ). physical_of (entry (d ∷ rest) i)) back ∙ sentinel in
          let key : (get_extent (entry (d ∷ rest) (at - 1))).logical
              ≡ get_logical (entry (d ∷ rest) (length rest)) =
            get_extent-logical (entry (d ∷ rest) (at - 1))
            ∙ ap (λ (i : ℕ). get_logical (entry (d ∷ rest) i)) back in
          (
            record {
              key = (get_extent (entry (d ∷ rest) (at - 1))).logical;
              from = d ∷ rest;
              into = [];
            },
            rw found (ground (arith, last)),
            λ l. ground (
              arith,
              block_at-nil l,
              block_at-last (d ∷ rest) (length rest) l refl ascending,
              key,
            ),
            omega arith,
            omega arith,
          )
      | inr inner ↦
          let inside : at < suc (length rest) = ground arith in
          let same = get_extent-logical (entry (d ∷ rest) at) in
          (
            record {
              key = (get_extent (entry (d ∷ rest) at)).logical;
              from =
                  take at (d ∷ rest)
                  ++ put_extent (get_extent (entry (d ∷ rest) at)).version
                      (get_extent (entry (d ∷ rest) at)).logical 0
                    ∷ [];
              into = drop at (d ∷ rest);
            },
            rw found (ground arith),
            λ l. rw same (
                block_at-cut (d ∷ rest) at _ l inside ascending
                  (get_logical-put_extent _ _ 0 (get_logical-bound (entry (d ∷ rest) at)))),
            omega (arith, length-take at (d ∷ rest), length-append (take at (d ∷ rest)) _),
            omega (arith, length-drop at (d ∷ rest)),
          )
    ]
