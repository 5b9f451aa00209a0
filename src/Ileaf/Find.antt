-- ===== src/Ileaf/Find.antt =====
-- kernel/ileaf.c: the search for a free inode number in a leaf.
use tux3_fuse.Prelude.{
  ℕ, zero, suc, ◌+◌, ◌-◌, ◌%◌, ◌^◌, ◌≤◌, ◌<◌, ◌≡◌, refl, ap, ap₂, subst, ◌∙◌, sym, Option, none,
  some, List, [], ◌∷◌, inl, inr, Bool-cases, ltb, ◌==◌, if◌then◌else◌, length, get_or-out, take,
  drop, min, arith,
}
use tux3_fuse.Prelude.Slices.{get_or-drop}
use tux3_fuse.Ileaf.{Ileaf, atdict, icount, find_gap, ileaf_find_free}
use tux3_fuse.Ileaf.Ends.{concat, ends, drop-ends}
use tux3_fuse.Ileaf.Chunks.{IsLeaf, attrs, nil-length, IsLeaf-icount, IsLeaf-atdict}

-- The loop stops at the first inode without attributes.
find_gap-ends :
    (at start : ℕ) (cs : List (List ℕ))
    → (k : ℕ) × (find_gap at start (ends start cs) ≡ at + k)
      × (attrs cs k ≡ [])
      × ((j : ℕ) → j < k → 0 < length (attrs cs j))
find_gap-ends at start [] = (0, omega arith, refl, λ j h. absurd (omega arith))
find_gap-ends at start (c ∷ cs) =
    let (k, e, empty, used) = find_gap-ends (at + 1) (start + length c) cs in
    elim (Bool-cases (start == start + length c)) [
      | inl gap ↦
          (0, rw gap (omega arith), nil-length c (ground (arith, gap)), λ j h. absurd (omega arith))
      | inr full ↦
          (suc k, rw full (omega (arith, e)), empty, used_too k used (ground (arith, full)))
    ]
  where
    used_too :
        (k : ℕ)
        → ((j : ℕ) → j < k → 0 < length (attrs cs j))
        → 0 < length c
        → (j : ℕ) → j < suc k
        → 0 < length (attrs (c ∷ cs) j)
    used_too k used here zero h = here
    used_too k used here (suc j) h = used j (omega arith)

-- The answer to a search up to `end`, where `used i` are the attributes of inode `i`.
abbrev pub IsFirstFree : (used : ℕ → List ℕ) (key end : ℕ) → Option ℕ → Type 0
IsFirstFree used key end (some inum) =
    (key ≤ inum)
    × (inum < end)
    × (used inum ≡ [])
    × ((i : ℕ) → key ≤ i → i < inum → 0 < length (used i))
IsFirstFree used key end none = (i : ℕ) → key ≤ i → i < end → 0 < length (used i)

-- The search of a range of numbers below 2^64, from an inode number not below the base, answers with the first
-- one, up to both bounds, that has no attributes, and with none when all of them have some.
pub ileaf_find_free-IsFirstFree :
    (blocksize key_limit key len : ℕ) (leaf : Ileaf) (cs : List (List ℕ))
    → IsLeaf blocksize leaf cs
    → leaf.ibase ≤ key
    → key + len < 2 ^ 64
    → IsFirstFree
        (λ i. attrs cs (i - leaf.ibase))
        key
        (min key_limit (key + len))
        (ileaf_find_free key_limit leaf key len)
unfolding ileaf_find_free
ileaf_find_free-IsFirstFree blocksize key_limit key len leaf cs r low word =
    let wide : (key + len) % 2 ^ 64 ≡ key + len = omega arith in
    let at = key - leaf.ibase in
    let place : (key + 2 ^ 64 - leaf.ibase) % 2 ^ 64 ≡ at = omega arith in
    let found =
      if ltb at (icount leaf) then find_gap at (atdict leaf.dict at) (drop at leaf.dict) else at in
    let (k, e, empty, used) = first at (omega arith) in
    let answer : leaf.ibase + found ≡ key + k = omega (arith, e) in
    rw (place, answer, wide)
      (elim (Bool-cases (ltb (key + k) (min key_limit (key + len)))) [
        | inl inside ↦ rw inside (
          omega arith,
          ground (arith, inside),
          subst (λ (t : ℕ). attrs cs t ≡ []) (omega arith) empty,
          λ i h b.
              subst (λ (t : ℕ). 0 < length (attrs cs t)) (omega (arith, h))
                (used (i - key) (omega (arith, h, b))),
        )
        | inr outside ↦ rw outside (λ i h b.
            subst (λ (t : ℕ). 0 < length (attrs cs t)) (omega (arith, h))
              (used (i - key) (ground (arith, h, b, outside))))
      ])
  where
    first :
        (at : ℕ)
        → at ≤ at
        → (k : ℕ) × ((if ltb at (icount leaf)
              then find_gap at (atdict leaf.dict at) (drop at leaf.dict)
              else at)
            ≡ at + k)
          × (attrs cs (at + k) ≡ [])
          × ((j : ℕ) → j < k → 0 < length (attrs cs (at + j)))
    first at _ = elim (Bool-cases (ltb at (icount leaf))) [
      | inl inside ↦
          let h : at ≤ length cs = ground (arith, inside, IsLeaf-icount r) in
          let start = length (concat (take at cs)) in
          let rest : drop at leaf.dict ≡ ends start (drop at cs) =
            ap (drop at) r.ends_at
            ∙ drop-ends 0 cs at
            ∙ ap (λ (t : ℕ). ends t (drop at cs)) (omega arith) in
          let (k, e, empty, used) = find_gap-ends at start (drop at cs) in
          (
            k,
            rw inside (ap₂ (find_gap at) (IsLeaf-atdict r at h) rest ∙ e),
            sym (get_or-drop at cs k (at + k) [] refl) ∙ empty,
            λ j b.
                subst (λ (t : List ℕ). 0 < length t) (get_or-drop at cs j (at + j) [] refl)
                  (used j b),
          )
      | inr outside ↦ (
        0,
        rw outside (omega arith),
        get_or-out cs (at + 0) [] (ground (arith, outside, IsLeaf-icount r)),
        λ j b. absurd (omega arith),
      )
    ]
