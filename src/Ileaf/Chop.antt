-- ===== src/Ileaf/Chop.antt =====
-- kernel/ileaf.c: what `ileaf_chop` leaves of the attributes in a leaf.
use tux3_fuse.Prelude.{
  ℕ, zero, suc, ◌+◌, ◌-◌, ◌%◌, ◌^◌, ◌≤◌, ◌<◌, ◌≡◌, ◌≢◌, refl, ap, subst, ◌∙◌, List, [], inl, inr,
  Bool, true, false, not, Bool-cases, ltb, leb, ◌==◌, ◌&&◌, if◌then◌else◌, length, length-append,
  get_or-out, get_or-set_self, get_or-set_ne, set, take, drop, min, arith,
}
use tux3_fuse.Ileaf.{
  Ileaf, atdict, icount, add_idict_from, minus16, memmove, ileaf_trim, ileaf_chop,
}
use tux3_fuse.Ileaf.Ends.{concat}
use tux3_fuse.Ileaf.Chunks.{
  IsLeaf, attrs, take-cut, nil-length, IsLeaf-icount, IsLeaf-atdict, IsLeaf-last, IsLeaf-bound,
}
use tux3_fuse.Ileaf.Memory.{moved, moved-IsLeaf}
use tux3_fuse.Ileaf.Trim.{ileaf_trim-IsLeaf}

-- Chunks without bytes do not move the end.
take-empty :
    (cs : List (List ℕ)) (i k : ℕ)
    → suc i + k ≤ length cs
    → ((j : ℕ) → i < j → j < suc i + k → attrs cs j ≡ [])
    → length (concat (take (suc i + k) cs)) ≡ length (concat (take (suc i) cs))
take-empty cs i zero h none_there =
    let place : suc i + 0 ≡ suc i = omega arith in ap (λ (t : ℕ). length (concat (take t cs))) place
take-empty cs i (suc k) h none_there =
    let place : suc i + suc k ≡ suc (suc i + k) = omega arith in
    ap (λ (t : ℕ). length (concat (take t cs))) place
    ∙ ap length (take-cut cs (suc i + k) (omega arith))
    ∙ omega (
      arith,
      length-append (concat (take (suc i + k) cs)) (attrs cs (suc i + k)),
      ap length (none_there (suc i + k) (omega arith) (omega arith)),
      take-empty cs i k (omega arith) (λ j low high. none_there j low (omega arith)),
    )

-- the attributes after the chop: none in the range, the others as they were
abbrev pub chopped : (cs : List (List ℕ)) (at len i : ℕ) → List ℕ
chopped cs at len i = if leb at i && ltb i (at + len) then [] else attrs cs i

-- What the answer says, and the attributes that are left.
abbrev pub IsChopped :
    (blocksize : ℕ) (leaf : Ileaf) (cs : List (List ℕ)) (at len : ℕ) → Bool × Ileaf → Type 0
IsChopped blocksize leaf cs at len (modified, leaf') =
    (modified ≡ not (length (attrs cs at) == 0))
    × (leaf'.ibase ≡ leaf.ibase)
    × ((cs' : List (List ℕ)) × IsLeaf blocksize leaf' cs'
        × ((i : ℕ) → attrs cs' i ≡ chopped cs at len i))

module _ {blocksize : ℕ} {leaf : Ileaf} {cs : List (List ℕ)} (r : IsLeaf blocksize leaf cs)
    (at len : ℕ) (some_len : 0 < len)
    (only_first : (j : ℕ) → at < j → j < at + len → attrs cs j ≡ []) where
  set-chopped : at < length cs → (i : ℕ) → attrs (set cs at []) i ≡ chopped cs at len i
  set-chopped inside i = elim (Bool-cases (i == at)) [
    | inl here ↦
        let e : i ≡ at = ground (arith, here) in
        rw e (ground (arith, get_or-set_self cs at [] [] inside))
    | inr there ↦
        let ne : at ≢ i = ground (arith, there) in
        get_or-set_ne cs at i [] [] ne ∙ ground (arith, there, only_first i)
  ]

  same-chopped : attrs cs at ≡ [] → (i : ℕ) → attrs cs i ≡ chopped cs at len i
  same-chopped empty i = elim (Bool-cases (i == at)) [
    | inl here ↦ let e : i ≡ at = ground (arith, here) in rw e (empty ∙ ground arith)
    | inr there ↦ ground (arith, there, only_first i)
  ]

  unchanged : attrs cs at ≡ [] → IsChopped blocksize leaf cs at len (false, leaf)
  unchanged empty = (ground (arith, ap length empty), refl, (cs, r, same-chopped empty))

  trimmed :
      at < length cs
      → 0 < length (attrs cs at)
      → IsChopped blocksize leaf cs at len (true, ileaf_trim (moved r at 0))
  trimmed inside some_bytes =
      let holds = moved-IsLeaf r at 0 inside (omega (arith, r.room)) in
      let (cs', h, base, same, tight) =
        ileaf_trim-IsLeaf blocksize (moved r at 0) (set cs at []) holds in
      (ground (arith, some_bytes), base, (cs', h, λ i. same i ∙ set-chopped inside i))

  module _ (start : ℕ) (low : leaf.ibase ≤ start) (word : start < 2 ^ 64)
      (here : at ≡ start - leaf.ibase) where
    place : (start + 2 ^ 64 - leaf.ibase) % 2 ^ 64 ≡ at
    place = omega (arith, here)

    end_of :
        at < length cs
        → atdict leaf.dict (at + min len (icount leaf - at))
          ≡ length (concat (take at cs)) + length (attrs cs at)
    end_of inside =
        let k = min len (icount leaf - at) - 1 in
        let count = IsLeaf-icount r in
        let same : at + min len (icount leaf - at) ≡ suc at + k =
          omega (arith, count, inside, some_len) in
        ap (atdict leaf.dict) same
        ∙ IsLeaf-atdict r (suc at + k) (omega (arith, count, inside, some_len))
        ∙ take-empty cs at k (omega (arith, count, inside, some_len))
            (λ j above below. only_first j above (omega (arith, count)))
        ∙ ap length (take-cut cs at inside)
        ∙ length-append (concat (take at cs)) (attrs cs at)

    inside_IsChopped :
        at < length cs → IsChopped blocksize leaf cs at len (ileaf_chop start len leaf)
    unfolding ileaf_chop
    inside_IsChopped inside =
        let kept : ltb (icount leaf) (at + 1) ≡ false = ground (arith, IsLeaf-icount r) in
        let first = IsLeaf-atdict r at (omega (arith, inside)) in
        let p = length (concat (take at cs)) in
        let c = length (attrs cs at) in
        let q = length (concat (drop (suc at) cs)) in
        let size : p + c - p ≡ c = omega arith in
        let behind : length (concat cs) - (p + c) ≡ q = omega (arith, IsLeaf-bound r at inside) in
        let no_more : p + 0 ≡ p = omega arith in
        elim (Bool-cases (p == p + c)) [
          | inl empty ↦
              rw (place, kept, first, end_of inside, empty)
                (unchanged (nil-length (attrs cs at) (ground (arith, empty))))
          | inr some_bytes ↦
              rw (place, kept, first, end_of inside, some_bytes, IsLeaf-last r, size, behind)
                (subst
                  (λ (t : ℕ). IsChopped blocksize leaf cs at len (
                    true,
                    ileaf_trim (record leaf {
                      dict = add_idict_from at (minus16 0 c) leaf.dict;
                      table = memmove leaf.table t (p + c) q;
                    }),
                  ))
                  no_more (trimmed inside (ground (arith, some_bytes))))
        ]

    behind_IsChopped :
        length cs ≤ at → IsChopped blocksize leaf cs at len (ileaf_chop start len leaf)
    unfolding ileaf_chop
    behind_IsChopped behind =
        let outside : ltb (icount leaf) (at + 1) ≡ true = ground (arith, IsLeaf-icount r) in
        rw (place, outside) (unchanged (get_or-out cs at [] behind))

-- A chop from an inode not below the base, where no inode of the range but the first has attributes: the
-- leaf that is left holds no attributes for the range and the same as before for every other inode, and the
-- answer says modified exactly when the first inode had some.
pub ileaf_chop-IsChopped :
    (blocksize start len : ℕ) (leaf : Ileaf) (cs : List (List ℕ))
    → IsLeaf blocksize leaf cs
    → 0 < len
    → leaf.ibase ≤ start
    → start < 2 ^ 64
    → ((j : ℕ) → start - leaf.ibase < j → j < start - leaf.ibase + len → attrs cs j ≡ [])
    → IsChopped blocksize leaf cs (start - leaf.ibase) len (ileaf_chop start len leaf)
ileaf_chop-IsChopped blocksize start len leaf cs r some_len low word only_first =
    let at = start - leaf.ibase in
    elim (Bool-cases (ltb at (length cs))) [
      | inl inside ↦
          inside_IsChopped r at len some_len only_first start low word refl (ground (arith, inside))
      | inr behind ↦
          behind_IsChopped r at len some_len only_first start low word refl (ground (arith, behind))
    ]
