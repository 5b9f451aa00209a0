-- ===== src/Dleaf2/Merge.antt =====
-- kernel/dleaf2.c: what `dleaf2_merge` leaves in the leaf that it merges into.
use tux3_fuse.Prelude.{
  ℕ, suc, ◌+◌, ◌-◌, ◌≤◌, ◌<◌, ◌≡◌, refl, ap, ◌∙◌, sym, subst, some, [], ◌∷◌, ◌++◌, ltb, ◌==◌,
  if◌then◌else◌, length, take, arith, true, false, Bool-cases, ◌⊎◌, inl, inr, length-take,
  length-append,
}
use mathlib.Core.List.{append_assoc}
use tux3_fuse.Dleaf2.{DiskExtent, Table, entry, get_logical, physical_of, dleaf2_merge, MergeResult}
use tux3_fuse.Dleaf2.Extents.{
  block_at, block_from, block_at-nil, get_extent-logical, IsAscending, IsBelow, cut_IsBelow,
  block_from-cut, block_at-last, block_from-hole, block_from-before, cut_last, block_from_cons,
}

-- the map of two leaves: the left one counts where it maps
abbrev pub either : ℕ → ℕ → ℕ
either p q = if p == 0 then q else p

block_at-single : (f : DiskExtent) (l : ℕ) → block_at (f ∷ []) l ≡ 0
unfolding block_at block_from
block_at-single f l = ground arith

-- Entries put in place of the sentinel, or after it, extend the map.
block_at-join :
    (into from : Table) (n : ℕ) (d : DiskExtent) (zs : Table) (l : ℕ)
    → length into ≡ suc n
    → IsAscending 0 into
    → get_logical d ≡ get_logical (entry into n)
    → (get_logical (entry into n) ≤ l
        → block_from l (get_logical d) (physical_of d) zs ≡ block_at from l)
    → (l < get_logical (entry into n) → block_at from l ≡ 0)
    → block_at (take n into ++ d ∷ zs) l ≡ either (block_at into l) (block_at from l)
unfolding block_at
block_at-join into from n d zs l size ascending same above below =
    let is_below =
      subst (λ (t : ℕ). IsBelow t (take n into)) (sym same)
        (cut_IsBelow into n (omega (arith, size)) ascending) in
    let cut = block_from-cut l 0 0 (take n into) d (entry into n) zs is_below (sym same) in
    let whole : block_from l 0 0 into ≡ block_from l 0 0 (take n into ++ entry into n ∷ []) =
      ap (λ (t : Table). block_from l 0 0 t) (cut_last into n size) in
    ground (arith, cut, whole, above, below, block_at-last into n l size ascending)

before_first :
    (f : DiskExtent) (fs : Table) (n l : ℕ)
    → IsAscending 0 (f ∷ fs)
    → n ≤ get_logical f
    → l < n
    → block_at (f ∷ fs) l ≡ 0
unfolding block_at
before_first f fs n l h b c = ground (arith, block_from_cons l 0 0 f fs)

-- the three ways in which the entries of `f ∷ fs` follow a leaf that ends with a sentinel
module _ (into : Table) (n : ℕ) (f : DiskExtent) (fs : Table) (l : ℕ) (size : length into ≡ suc n)
    (ascending : IsAscending 0 into) (later : IsAscending 0 (f ∷ fs))
    (sentinel : physical_of (entry into n) ≡ 0)
    (order : get_logical (entry into n) ≤ get_logical f) where
  after_last : (zs : Table) → into ++ zs ≡ take n into ++ entry into n ∷ zs
  after_last zs =
      ap (λ (t : Table). t ++ zs) (cut_last into n size)
      ∙ append_assoc (take n into) (entry into n ∷ []) zs

  join_hole :
      physical_of f ≡ 0 → block_at (into ++ fs) l ≡ either (block_at into l) (block_at (f ∷ fs) l)
  unfolding block_at
  join_hole hole =
      let above : get_logical (entry into n) ≤ l
          → block_from l (get_logical (entry into n)) 0 fs ≡ block_from l 0 0 (f ∷ fs) =
        λ b. ground (
          arith,
          hole,
          ap (λ (p : ℕ). block_from l (get_logical f) p fs) hole,
          block_from_cons l 0 0 f fs,
          block_from-hole l (get_logical (entry into n)) (get_logical f) fs,
          block_from-before l (get_logical f) (get_logical f) fs later.1,
        ) in
      ap (λ (t : Table). block_at t l) (after_last fs)
      ∙ block_at-join into (f ∷ fs) n (entry into n) fs l size ascending refl
          (λ b. ap (λ (p : ℕ). block_from l (get_logical (entry into n)) p fs) sentinel ∙ above b)
          (before_first f fs (get_logical (entry into n)) l later order)

  join_same :
      get_logical (entry into n) ≡ get_logical f
      → block_at (take n into ++ f ∷ fs) l ≡ either (block_at into l) (block_at (f ∷ fs) l)
  unfolding block_at
  join_same same =
      block_at-join into (f ∷ fs) n f fs l size ascending (sym same)
        (λ b. ground (arith, block_from_cons l 0 0 f fs))
        (before_first f fs (get_logical (entry into n)) l later order)

  join_apart : block_at (into ++ f ∷ fs) l ≡ either (block_at into l) (block_at (f ∷ fs) l)
  unfolding block_at
  join_apart =
      ap (λ (t : Table). block_at t l) (after_last (f ∷ fs))
      ∙ block_at-join into (f ∷ fs) n (entry into n) (f ∷ fs) l size ascending refl
          (λ b.
            ap (λ (p : ℕ). block_from l (get_logical (entry into n)) p (f ∷ fs)) sentinel
            ∙ block_from-hole l (get_logical (entry into n)) 0 (f ∷ fs))
          (before_first f fs (get_logical (entry into n)) l later order)

abbrev pub IsMerged : ℕ → (into from : Table) → MergeResult → Type 0
IsMerged entries_per_leaf into from r =
    ((r.merged ≡ true)
      × (length r.into ≤ entries_per_leaf)
      × ((l : ℕ) → block_at r.into l ≡ either (block_at into l) (block_at from l)))
    ⊎ ((r.merged ≡ false)
        × (r.into ≡ into)
        × (r.from ≡ from)
        × (entries_per_leaf < length into + length from))

unmerged : (p q : ℕ) → q ≡ 0 → p ≡ either p q
unmerged p q e = ground arith

settle :
    (entries_per_leaf : ℕ) (into from : Table) (can_merge : ℕ) (joined : Table)
    → length joined + can_merge ≡ length into + length from
    → dleaf2_merge entries_per_leaf into from ≡ (
        if ltb entries_per_leaf (length into + length from - can_merge)
        then some (record { merged = false; into = into; from = from })
        else some (record { merged = true; into = joined; from = [] }))
    → ((l : ℕ) → block_at joined l ≡ either (block_at into l) (block_at from l))
    → (r : MergeResult) × (dleaf2_merge entries_per_leaf into from ≡ some r)
      × IsMerged entries_per_leaf into from r
settle entries into from can_merge joined size e maps =
    elim (Bool-cases (ltb entries (length into + length from - can_merge))) [
      | inl full ↦ (
        record { merged = false; into = into; from = from },
        rw e (ground (arith, full)),
        inr (refl, refl, refl, ground (arith, full)),
      )
      | inr room ↦ (
        record { merged = true; into = joined; from = [] },
        rw e (ground (arith, room)),
        inl (refl, ground (arith, room), maps),
      )
    ]

-- Two leaves within `entries_per_leaf` whose addresses do not decrease, where a right one of two entries
-- or more meets a left one that is empty or ended by a sentinel at or below its first address (which the
-- source asserts): the merge gives a result. Either it says merged, and the left leaf, within
-- `entries_per_leaf` again, maps each block as the two leaves did, or it leaves both as they were, and
-- the entries of the two together are more than a leaf takes.
pub dleaf2_merge-IsMerged :
    (entries_per_leaf : ℕ) (into from : Table)
    → length into ≤ entries_per_leaf
    → length from ≤ entries_per_leaf
    → IsAscending 0 into
    → IsAscending 0 from
    → ((n : ℕ)
        → length into ≡ suc n
        → 1 < length from
        → (physical_of (entry into n) ≡ 0)
          × (get_logical (entry into n) ≤ get_logical (entry from 0)))
    → (r : MergeResult) × (dleaf2_merge entries_per_leaf into from ≡ some r)
      × IsMerged entries_per_leaf into from r
unfolding dleaf2_merge
dleaf2_merge-IsMerged entries into [] p q a b h = (
  record { merged = true; into = into; from = [] },
  ground arith,
  inl (refl, omega arith, λ l. unmerged _ _ (block_at-nil l)),
)
dleaf2_merge-IsMerged entries into (f ∷ []) p q a b h = (
  record { merged = true; into = into; from = f ∷ [] },
  ground arith,
  inl (refl, omega arith, λ l. unmerged _ _ (block_at-single f l)),
)
dleaf2_merge-IsMerged entries [] (f ∷ g ∷ fs) p q a b h = (
  record { merged = true; into = f ∷ g ∷ fs; from = [] },
  ground arith,
  inl (refl, omega arith, λ l. ground (arith, block_at-nil l)),
)
dleaf2_merge-IsMerged entries (d ∷ rest) (f ∷ g ∷ fs) p q a b h =
    let back : suc (length rest) - 1 ≡ length rest = omega arith in
    let (sentinel, order) = h (length rest) refl (omega arith) in
    let last = get_extent-logical (entry (d ∷ rest) (length rest)) in
    let first = get_extent-logical f in
    elim (Bool-cases (physical_of f == 0)) [
      | inl hole ↦
          settle entries (d ∷ rest) (f ∷ g ∷ fs) 1 ((d ∷ rest) ++ g ∷ fs)
            (omega (arith, length-append (d ∷ rest) (g ∷ fs)))
            (rw back (ground (arith, hole, sentinel, order, last, first)))
            (λ l.
              join_hole (d ∷ rest) (length rest) f (g ∷ fs) l refl a b sentinel order
                (ground (arith, hole)))
      | inr block ↦
          elim (Bool-cases (get_logical (entry (d ∷ rest) (length rest)) == get_logical f)) [
            | inl same ↦
                settle entries (d ∷ rest) (f ∷ g ∷ fs) 1
                  (take (length rest) (d ∷ rest) ++ f ∷ g ∷ fs)
                  (omega (
                    arith,
                    length-append (take (length rest) (d ∷ rest)) (f ∷ g ∷ fs),
                    length-take (length rest) (d ∷ rest),
                  ))
                  (rw back (ground (arith, block, same, sentinel, order, last, first)))
                  (λ l.
                    join_same (d ∷ rest) (length rest) f (g ∷ fs) l refl a b sentinel order
                      (ground (arith, same)))
            | inr apart ↦
                settle entries (d ∷ rest) (f ∷ g ∷ fs) 0 ((d ∷ rest) ++ f ∷ g ∷ fs)
                  (omega (arith, length-append (d ∷ rest) (f ∷ g ∷ fs)))
                  (rw back (ground (arith, block, apart, sentinel, order, last, first)))
                  (λ l. join_apart (d ∷ rest) (length rest) f (g ∷ fs) l refl a b sentinel order)
          ]
    ]
