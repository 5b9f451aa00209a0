-- ===== src/Ileaf/Chunks.antt =====
-- kernel/ileaf.c: a leaf as the attributes of its inodes, and the lookup in it.
use tux3_fuse.Prelude.{
  ℕ, zero, suc, ◌+◌, ◌-◌, ◌*◌, ◌%◌, ◌^◌, ◌≤◌, ◌<◌, ◌≡◌, refl, ap, ◌∙◌, sym, Option, none, some,
  List, [], ◌∷◌, ◌++◌, Bool-cases, inl, inr, ltb, ◌==◌, length, length-append, get_or, get_or-out,
  take, drop, arith,
}
use tux3_fuse.Prelude.Slices.{take-all, take-exact, drop-exact}
use mathlib.Core.List.{append_assoc, append-nil}
use tux3_fuse.Ileaf.{lacks_free, ileaf_need, Ileaf, atdict, icount, ileaf_need, ileaf_lookup}
use tux3_fuse.Ileaf.Ends.{concat, ends, length-ends, limit_at-ends}

-- The table holds the attributes `cs`, one list of bytes for each inode from the base on, and the
-- dictionary where they end; the two fit in the block together.
pub record IsLeaf (blocksize : ℕ) (leaf : Ileaf) (cs : List (List ℕ)) : Type 0 where
  pub pad : List ℕ
  pub ends_at : leaf.dict ≡ ends 0 cs
  pub holds : leaf.table ≡ concat cs ++ pad
  pub sized : length leaf.table + 16 ≡ blocksize
  pub room : length (concat cs) + length cs * 2 + 16 ≤ blocksize
  pub word : blocksize ≤ 2 ^ 16

-- the attributes of the `i`-th inode; none behind the last one
abbrev pub attrs : List (List ℕ) → ℕ → List ℕ
attrs cs i = get_or cs i []

pub take-cut :
    (cs : List (List ℕ)) (i : ℕ)
    → i < length cs
    → concat (take (suc i) cs) ≡ concat (take i cs) ++ attrs cs i
take-cut [] i h = absurd (omega arith)
take-cut (c ∷ cs) zero h = append-nil c
take-cut (c ∷ cs) (suc i) h =
    ap (λ (t : List ℕ). c ++ t) (take-cut cs i (omega arith))
    ∙ sym (append_assoc c (concat (take i cs)) (attrs cs i))

pub concat-cut :
    (cs : List (List ℕ)) (i : ℕ)
    → i < length cs
    → concat cs ≡ concat (take i cs) ++ (attrs cs i ++ concat (drop (suc i) cs))
concat-cut [] i h = absurd (omega arith)
concat-cut (c ∷ cs) zero h = refl
concat-cut (c ∷ cs) (suc i) h =
    ap (λ (t : List ℕ). c ++ t) (concat-cut cs i (omega arith))
    ∙ sym (append_assoc c (concat (take i cs)) (attrs cs i ++ concat (drop (suc i) cs)))

pub plus_one : (n : ℕ) → n + 1 ≡ suc n
plus_one n = omega arith

module _ {blocksize : ℕ} {leaf : Ileaf} {cs : List (List ℕ)} (r : IsLeaf blocksize leaf cs) where
  pub IsLeaf-icount : icount leaf ≡ length cs
  IsLeaf-icount = ap length r.ends_at ∙ length-ends 0 cs

  pub IsLeaf-atdict : (i : ℕ) → i ≤ length cs → atdict leaf.dict i ≡ length (concat (take i cs))
  IsLeaf-atdict i h =
      ap (λ (t : List ℕ). atdict t i) r.ends_at ∙ limit_at-ends 0 cs i h ∙ omega arith

  pub IsLeaf-last : atdict leaf.dict (icount leaf) ≡ length (concat cs)
  IsLeaf-last =
      ap (atdict leaf.dict) IsLeaf-icount
      ∙ IsLeaf-atdict (length cs) (omega arith)
      ∙ ap (λ (t : List (List ℕ)). length (concat t)) (take-all cs (length cs) (omega arith))

  pub IsLeaf-need : ileaf_need leaf ≡ length (concat cs) + length cs * 2
  unfolding ileaf_need
  IsLeaf-need = omega (arith, IsLeaf-last, IsLeaf-icount)

  pub IsLeaf-space :
      (wanted given : ℕ)
      → lacks_free blocksize leaf wanted given
        ≡ ltb (blocksize + given) (length (concat cs) + length cs * 2 + 16 + wanted)
  unfolding lacks_free
  IsLeaf-space wanted given = ap (λ (t : ℕ). ltb (blocksize + given) (t + 16 + wanted)) IsLeaf-need

  pub IsLeaf-next :
      (i : ℕ)
      → i < length cs
      → atdict leaf.dict (i + 1) ≡ length (concat (take i cs)) + length (attrs cs i)
  IsLeaf-next i h =
      ap (λ (t : ℕ). atdict leaf.dict t) (plus_one i)
      ∙ IsLeaf-atdict (suc i) (omega arith)
      ∙ ap length (take-cut cs i h)
      ∙ length-append (concat (take i cs)) (attrs cs i)

  -- the table, cut at the attributes of an inode
  pub IsLeaf-table :
      (i : ℕ)
      → i < length cs
      → leaf.table ≡ concat (take i cs) ++ (attrs cs i ++ (concat (drop (suc i) cs) ++ r.pad))
  IsLeaf-table i h =
      r.holds
      ∙ ap (λ (t : List ℕ). t ++ r.pad) (concat-cut cs i h)
      ∙ append_assoc (concat (take i cs)) (attrs cs i ++ concat (drop (suc i) cs)) r.pad
      ∙ ap (λ (t : List ℕ). concat (take i cs) ++ t)
          (append_assoc (attrs cs i) (concat (drop (suc i) cs)) r.pad)

  pub IsLeaf-slice :
      (i : ℕ)
      → i < length cs
      → take (length (attrs cs i)) (drop (length (concat (take i cs))) leaf.table) ≡ attrs cs i
  IsLeaf-slice i h =
      ap (λ (t : List ℕ). take (length (attrs cs i)) (drop (length (concat (take i cs))) t))
        (IsLeaf-table i h)
      ∙ ap (take (length (attrs cs i))) (drop-exact (concat (take i cs)) _)
      ∙ take-exact (attrs cs i) _

  pub IsLeaf-bound :
      (i : ℕ)
      → i < length cs
      → length (concat (take i cs)) + length (attrs cs i) + length (concat (drop (suc i) cs))
        ≡ length (concat cs)
  IsLeaf-bound i h = omega (
    arith,
    ap length (concat-cut cs i h),
    length-append (concat (take i cs)) (attrs cs i ++ concat (drop (suc i) cs)),
    length-append (attrs cs i) (concat (drop (suc i) cs)),
  )

pub nil-length : (c : List ℕ) → length c ≡ 0 → c ≡ []
nil-length [] h = refl
nil-length (x ∷ c) h = absurd (omega (arith, h))

-- NULL stands for no attributes, an offset for those at it.
abbrev pub IsFound : (table : List ℕ) → Option ℕ → List ℕ → Type 0
IsFound table none c = c ≡ []
IsFound table (some offset) c = (0 < length c) × (take (length c) (drop offset table) ≡ c)

-- The lookup of an inode number not below the base answers with the place and the size of its attributes,
-- NULL and 0 if it has none.
pub ileaf_lookup-attrs :
    (blocksize : ℕ) (leaf : Ileaf) (cs : List (List ℕ)) (inum : ℕ)
    → IsLeaf blocksize leaf cs
    → leaf.ibase ≤ inum
    → (at : Option ℕ) × (ileaf_lookup inum leaf ≡ some (at, length (attrs cs (inum - leaf.ibase))))
      × IsFound leaf.table at (attrs cs (inum - leaf.ibase))
unfolding ileaf_lookup
ileaf_lookup-attrs blocksize leaf cs inum r low =
    let at = inum - leaf.ibase in
    let c = attrs cs at in
    elim (Bool-cases (ltb at (length cs))) [
      | inl inside ↦
          let h : at < length cs = ground (arith, inside) in
          let first = IsLeaf-atdict r at (omega (arith, h)) in
          let size : (atdict leaf.dict (at + 1) + 2 ^ 32 - atdict leaf.dict at) % 2 ^ 32
              ≡ length c =
            omega (arith, first, IsLeaf-next r at h, IsLeaf-bound r at h) in
          elim (Bool-cases (length c == 0)) [
            | inl empty ↦ (
              none,
              ground (arith, size, IsLeaf-icount r, inside, empty),
              nil-length c (ground (arith, empty)),
            )
            | inr some_bytes ↦ (
              some (atdict leaf.dict at),
              ground (arith, size, IsLeaf-icount r, inside, some_bytes),
              (
                ground (arith, some_bytes),
                ap (λ (t : ℕ). take (length c) (drop t leaf.table)) first ∙ IsLeaf-slice r at h,
              ),
            )
          ]
      | inr outside ↦
          let absent : c ≡ [] = get_or-out cs at [] (ground (arith, outside)) in
          (none, ground (arith, IsLeaf-icount r, outside, ap length absent), absent)
    ]
