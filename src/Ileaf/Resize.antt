-- ===== src/Ileaf/Resize.antt =====
-- kernel/ileaf.c: what `ileaf_resize` leaves of the attributes in a leaf.
use tux3_fuse.Prelude.{
  ℕ, zero, suc, ◌+◌, ◌-◌, ◌*◌, ◌≤◌, ◌<◌, ◌≡◌, ◌≢◌, refl, ap, ap₂, subst, ◌∙◌, sym, Option, none,
  some, List, [], ◌∷◌, ◌++◌, ◌⊎◌, inl, inr, true, false, Bool-cases, ltb, leb, ◌==◌, length,
  length-append, length-replicate, length-set, get_or, get_or-out, get_or-set_self, get_or-set_ne,
  set, take, drop, replicate, max, arith,
}
use tux3_fuse.Prelude.Slices.{drop-all, take-exact, get_or-replicate}
use mathlib.Core.List.{append-nil}
use tux3_fuse.Ileaf.{Ileaf, atdict, icount, lacks_free, resize_space, resize_at, ileaf_resize}
use tux3_fuse.Ileaf.Ends.{concat}
use tux3_fuse.Ileaf.Chunks.{
  IsLeaf, attrs, IsLeaf-slice, IsLeaf-bound, IsLeaf-atdict, IsLeaf-icount, IsLeaf-last, IsLeaf-next,
  IsLeaf-space,
}
use tux3_fuse.Ileaf.Memory.{
  resized, moved, length-resized, moved-IsLeaf, IsLeaf-extend, concat-extend,
}

-- The leaf after the inode at `at` was given `newsize` bytes at `offset`: its attributes keep as many of
-- their leading bytes as both sizes allow, and those of every other inode are as they were.
pub record IsResized (blocksize at newsize : ℕ) (cs : List (List ℕ)) (leaf : Ileaf) (offset : ℕ)
    (leaf' : Ileaf) : Type 0 where
  pub cs' : List (List ℕ)
  pub holds : IsLeaf blocksize leaf' cs'
  pub base : leaf'.ibase ≡ leaf.ibase
  pub size : length (attrs cs' at) ≡ newsize
  pub kept : take (length (attrs cs at)) (attrs cs' at) ≡ take newsize (attrs cs at)
  pub others : (i : ℕ) → i ≢ at → attrs cs' i ≡ attrs cs i
  pub there : at < length cs'
  pub offset_at : offset ≡ length (concat (take at cs'))
  pub place : take newsize (drop offset leaf'.table) ≡ attrs cs' at

pub take-set : {A : Type 0} (xs : List A) (i : ℕ) (v : A) → take i (set xs i v) ≡ take i xs
take-set [] i v = refl
take-set (x ∷ xs) zero v = refl
take-set (x ∷ xs) (suc i) v = ap (λ t. x ∷ t) (take-set xs i v)

set-same : {A : Type 0} (xs : List A) (i : ℕ) (d : A) → set xs i (get_or xs i d) ≡ xs
set-same [] i d = refl
set-same (x ∷ xs) zero d = refl
set-same (x ∷ xs) (suc i) d = ap (λ t. x ∷ t) (set-same xs i d)

-- the leading bytes that both sizes have
take-take : (n : ℕ) (xs ys : List ℕ) → take (length xs) (take n (xs ++ ys)) ≡ take n xs
take-take zero [] ys = refl
take-take zero (x ∷ xs) ys = refl
take-take (suc n) [] ys = refl
take-take (suc n) (x ∷ xs) ys = ap (λ (t : List ℕ). x ∷ t) (take-take n xs ys)

module _ {blocksize : ℕ} {leaf : Ileaf} {cs : List (List ℕ)} (r : IsLeaf blocksize leaf cs)
    (at n : ℕ) (inside : at < length cs)
    (fits : length (concat cs) + n + length cs * 2 + 16 ≤ blocksize + length (attrs cs at)) where
  -- the view of a leaf whose attributes at `at` were replaced
  replaced :
      (leaf' : Ileaf)
      → leaf'.ibase ≡ leaf.ibase
      → IsLeaf blocksize leaf' (set cs at (resized r at n))
      → IsResized blocksize at n cs leaf (length (concat (take at cs))) leaf'
  replaced leaf' base holds =
      let same = get_or-set_self cs at (resized r at n) [] inside in
      let slice =
        IsLeaf-slice holds at (omega (arith, inside, length-set cs at (resized r at n))) in
      let size : length (attrs (set cs at (resized r at n)) at) ≡ n =
        ap length same ∙ length-resized r at n inside fits in
      record {
        cs' = set cs at (resized r at n);
        holds = holds;
        base = base;
        size = size;
        kept = ap (take (length (attrs cs at))) same ∙ take-take n (attrs cs at) _;
        others = λ i ne. get_or-set_ne cs at i (resized r at n) [] (λ e. ne (sym e));
        there = omega (arith, inside, length-set cs at (resized r at n));
        offset_at =
            ap (λ (t : List (List ℕ)). length (concat t)) (sym (take-set cs at (resized r at n)));
        place =
            ap₂ (λ (m : ℕ) (k : ℕ). take m (drop k leaf'.table)) (sym size)
              (ap (λ (t : List (List ℕ)). length (concat t))
                (sym (take-set cs at (resized r at n))))
            ∙ slice;
      }

  pub resize_space-IsResized :
      (leaf' : Ileaf) × (resize_space at n
          (length (concat (take at cs)))
          (length (attrs cs at))
          leaf
        ≡ some (some (length (concat (take at cs)), leaf')))
      × IsResized blocksize at n cs leaf (length (concat (take at cs))) leaf'
  unfolding resize_space
  resize_space-IsResized = elim (Bool-cases (n == length (attrs cs at))) [
    | inl same ↦
        let e : n ≡ length (attrs cs at) = ground (arith, same) in
        let unchanged : set cs at (resized r at n) ≡ cs =
          ap (λ (t : ℕ). set cs at (resized r at t)) e
          ∙ ap (set cs at) (take-exact (attrs cs at) _)
          ∙ set-same cs at [] in
        (
          leaf,
          ground (arith, same),
          replaced leaf refl (subst (IsLeaf blocksize leaf) (sym unchanged) r),
        )
    | inr differs ↦
        let behind : length (concat cs) - length (concat (take at cs)) - length (attrs cs at)
            ≡ length (concat (drop (suc at) cs)) =
          omega (arith, IsLeaf-bound r at inside) in
        let in_order : ltb (length (concat cs))
              (length (concat (take at cs)) + length (attrs cs at))
            ≡ false =
          ground (arith, IsLeaf-bound r at inside) in
        (
          moved r at n,
          rw (differs, IsLeaf-last r, in_order, behind) refl,
          replaced (moved r at n) refl (moved-IsLeaf r at n inside fits),
        )
  ]

pub attrs-extend :
    (cs : List (List ℕ)) (extra i : ℕ) → attrs (cs ++ replicate extra []) i ≡ attrs cs i
attrs-extend [] extra i = get_or-replicate extra [] i
attrs-extend (c ∷ cs) extra zero = refl
attrs-extend (c ∷ cs) extra (suc i) = attrs-extend cs extra i

-- added inodes without attributes do not show in the view
IsResized-extend :
    {blocksize at n offset : ℕ} {cs : List (List ℕ)} {leaf extended leaf' : Ileaf} (extra : ℕ)
    → extended.ibase ≡ leaf.ibase
    → IsResized blocksize at n (cs ++ replicate extra []) extended offset leaf'
    → IsResized blocksize at n cs leaf offset leaf'
IsResized-extend {blocksize} {at} {n} {offset} {cs} extra same d = record {
  cs' = d.cs';
  holds = d.holds;
  base = d.base ∙ same;
  size = d.size;
  kept =
      subst (λ (c : List ℕ). take (length c) (attrs d.cs' at) ≡ take n c) (attrs-extend cs extra at)
        d.kept;
  others = λ i ne. d.others i ne ∙ attrs-extend cs extra i;
  there = d.there;
  offset_at = d.offset_at;
  place = d.place;
}

-- the bytes that the leaf needs with `n` bytes for the inode at `at` in place of those that it has
abbrev pub wanted : (cs : List (List ℕ)) (at n : ℕ) → ℕ
wanted cs at n = length (concat cs) + n + max (length cs) (suc at) * 2 + 16

abbrev pub ResizeAnswer :
    (blocksize at n : ℕ) → List (List ℕ) → Ileaf → Option (Option (ℕ × Ileaf)) → Type 0
ResizeAnswer blocksize at n cs leaf answer =
    ((answer ≡ some none) × (blocksize + length (attrs cs at) < wanted cs at n))
    ⊎ ((offset : ℕ) × (leaf' : Ileaf) × (answer ≡ some (some (offset, leaf')))
        × IsResized blocksize at n cs leaf offset leaf')

module _ {blocksize : ℕ} {leaf : Ileaf} {cs : List (List ℕ)} (r : IsLeaf blocksize leaf cs)
    (at n : ℕ) where
  resize_inside :
      at < length cs → ResizeAnswer blocksize at n cs leaf (resize_at blocksize at n leaf)
  unfolding resize_at
  resize_inside inside =
      let kept : ltb (icount leaf) (at + 1) ≡ false = ground (arith, IsLeaf-icount r) in
      let first = IsLeaf-atdict r at (omega (arith, inside)) in
      let size : atdict leaf.dict (at + 1) - atdict leaf.dict at ≡ length (attrs cs at) =
        omega (arith, first, IsLeaf-next r at inside) in
      let free = IsLeaf-space r (n + 0 * 2) (length (attrs cs at)) in
      elim (Bool-cases (lacks_free blocksize leaf (n + 0 * 2) (length (attrs cs at)))) [
        | inl full ↦ inl (rw (kept, size, full) refl, ground (arith, full, free))
        | inr room ↦
            let fits : length (concat cs) + n + length cs * 2 + 16
                ≤ blocksize + length (attrs cs at) =
              ground (arith, room, free) in
            let (leaf', e, done) = resize_space-IsResized r at n inside fits in
            inr (
              length (concat (take at cs)),
              leaf',
              rw (kept, size, room, append-nil leaf.dict, first) e,
              done,
            )
      ]

  -- the dictionary extended up to the inode
  abbrev extra : ℕ
  extra = at + 1 - length cs

  abbrev extended : Ileaf
  extended = record leaf { dict = leaf.dict ++ replicate extra (atdict leaf.dict (icount leaf)) }

  resize_grows :
      (count : ℕ)
      → count ≡ icount leaf
      → ltb count (at + 1) ≡ true
      → leb blocksize ((at + 1) * 2) ≡ false
      → lacks_free blocksize leaf (n + (at + 1 - count) * 2) 0 ≡ false
      → resize_at blocksize at n leaf
        ≡ resize_space at n (atdict leaf.dict (icount leaf)) 0 (record leaf {
          dict = leaf.dict ++ replicate (at + 1 - count) (atdict leaf.dict (icount leaf));
        })
  unfolding resize_at
  resize_grows count e grows small room = rw (e) (rw⁻¹ (e) (rw (grows, small, room) refl))

  resize_behind :
      length cs ≤ at → ResizeAnswer blocksize at n cs leaf (resize_at blocksize at n leaf)
  unfolding resize_at
  resize_behind behind =
      let grows : ltb (icount leaf) (at + 1) ≡ true = ground (arith, IsLeaf-icount r) in
      let count : at + 1 - icount leaf ≡ extra = omega (arith, IsLeaf-icount r) in
      let absent : attrs cs at ≡ [] = get_or-out cs at [] behind in
      let free = IsLeaf-space r (n + extra * 2) 0 in
      elim (Bool-cases (leb blocksize ((at + 1) * 2))) [
        | inl large ↦ inl (rw (grows, large) refl, ground (arith, large, ap length absent, r.word))
        | inr small ↦ elim (Bool-cases (lacks_free blocksize leaf (n + extra * 2) 0)) [
          | inl full ↦
              inl
                (rw (grows, small, count, full) refl, ground (arith, full, free, ap length absent))
          | inr room ↦
              let cs1 = cs ++ replicate extra [] in
              let longer : length cs1 ≡ at + 1 = omega (
                arith,
                length-append cs (replicate extra []),
                length-replicate {A = List ℕ} extra [],
              ) in
              let fits : length (concat cs) + n + (at + 1) * 2 + 16 ≤ blocksize =
                ground (arith, room, free) in
              let r1 = IsLeaf-extend r extra (omega (arith, fits, behind)) in
              let absent1 = attrs-extend cs extra at ∙ absent in
              let concat_same : length (concat cs1) ≡ length (concat cs) =
                ap length (concat-extend cs extra) in
              let none_behind : drop (suc at) cs1 ≡ [] =
                drop-all cs1 (suc at) (omega (arith, longer)) in
              let first : length (concat (take at cs1)) ≡ length (concat cs) = omega (
                arith,
                IsLeaf-bound r1 at (omega (arith, longer)),
                ap length absent1,
                ap (λ (t : List (List ℕ)). length (concat t)) none_behind,
                concat_same,
              ) in
              let (leaf', e, done) =
                resize_space-IsResized r1 at n (omega (arith, longer))
                  (omega (arith, fits, longer, concat_same)) in
              inr (
                length (concat (take at cs1)),
                leaf',
                resize_grows (length cs) (sym (IsLeaf-icount r)) (ground arith) small room
                    ∙ (ap₂ (λ (o z : ℕ). resize_space at n o z extended) (IsLeaf-last r ∙ sym first)
                          (sym (ap length absent1))
                        ∙ e),
                IsResized-extend extra refl done,
              )
        ]
      ]

-- On a leaf that holds the attributes `cs`, the resize for an inode not below the base never fails an assert.
-- It answers NULL exactly when the block has no room for the attributes with the new size and for the
-- dictionary up to the inode. Otherwise it answers where the attributes of the inode are now: as long as
-- wanted, with the leading bytes kept, and the attributes of every other inode unchanged.
pub ileaf_resize-IsResized :
    (blocksize inum newsize : ℕ) (leaf : Ileaf) (cs : List (List ℕ))
    → IsLeaf blocksize leaf cs
    → leaf.ibase ≤ inum
    → ResizeAnswer blocksize
        (inum - leaf.ibase)
        newsize
        cs
        leaf
        (ileaf_resize blocksize inum leaf newsize)
unfolding ileaf_resize
ileaf_resize-IsResized blocksize inum newsize leaf cs r low =
    let above : ltb inum leaf.ibase ≡ false = ground arith in
    let at = inum - leaf.ibase in
    rw above (elim (Bool-cases (ltb at (length cs))) [
      | inl inside ↦ resize_inside r at newsize (ground (arith, inside))
      | inr behind ↦ resize_behind r at newsize (ground (arith, behind))
    ])
