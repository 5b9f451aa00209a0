-- ===== src/Ileaf/Ends.antt =====
-- kernel/ileaf.c: the dictionary of attributes that follow each other.
use tux3_fuse.Prelude.{
  ℕ, zero, suc, ◌+◌, ◌*◌, ◌%◌, ◌^◌, ◌≤◌, ◌<◌, ◌≡◌, refl, ap, ◌∙◌, sym, List, [], ◌∷◌, ◌++◌, length,
  length-append, take, drop, replicate, arith,
}
use mathlib.Core.List.{append_assoc}
use tux3_fuse.Ileaf.{limit_at, add_idict_from}

abbrev pub concat : List (List ℕ) → List ℕ
concat [] = []
concat (c ∷ cs) = c ++ concat cs

-- where each of the chunks ends, the first one starting at `start`
abbrev pub ends : (start : ℕ) → List (List ℕ) → List ℕ
ends start [] = []
ends start (c ∷ cs) = (start + length c) ∷ ends (start + length c) cs

pub length-ends : (start : ℕ) (cs : List (List ℕ)) → length (ends start cs) ≡ length cs
length-ends start [] = refl
length-ends start (c ∷ cs) = ap suc (length-ends (start + length c) cs)

limit_at-cons :
    (base x : ℕ) (dict : List ℕ) (i : ℕ) → limit_at base (x ∷ dict) (suc i) ≡ limit_at x dict i
limit_at-cons base x dict zero = refl
limit_at-cons base x dict (suc i) = refl

pub limit_at-ends :
    (start : ℕ) (cs : List (List ℕ)) (i : ℕ)
    → i ≤ length cs
    → limit_at start (ends start cs) i ≡ start + length (concat (take i cs))
limit_at-ends start cs zero h = omega arith
limit_at-ends start [] (suc i) h = absurd (omega arith)
limit_at-ends start (c ∷ cs) (suc i) h =
    limit_at-cons start (start + length c) (ends (start + length c) cs) i
    ∙ omega (
      arith,
      limit_at-ends (start + length c) cs i (omega arith),
      length-append c (concat (take i cs)),
    )

pub ends-append :
    (start : ℕ) (cs ds : List (List ℕ))
    → ends start (cs ++ ds) ≡ ends start cs ++ ends (start + length (concat cs)) ds
ends-append start [] ds = ap (λ (t : ℕ). ends t ds) (omega arith)
ends-append start (c ∷ cs) ds =
    let place : start + length c + length (concat cs) ≡ start + length (c ++ concat cs) =
      omega (arith, length-append c (concat cs)) in
    ap (λ (t : List ℕ). (start + length c) ∷ t)
      (ends-append (start + length c) cs ds
        ∙ ap (λ (t : ℕ). ends (start + length c) cs ++ ends t ds) place)

pub concat-append : (cs ds : List (List ℕ)) → concat (cs ++ ds) ≡ concat cs ++ concat ds
concat-append [] ds = refl
concat-append (c ∷ cs) ds =
    ap (λ (t : List ℕ). c ++ t) (concat-append cs ds) ∙ sym (append_assoc c (concat cs) (concat ds))

pub take-ends :
    (start : ℕ) (cs : List (List ℕ)) (i : ℕ) → take i (ends start cs) ≡ ends start (take i cs)
take-ends start cs zero = refl
take-ends start [] (suc i) = refl
take-ends start (c ∷ cs) (suc i) =
    ap (λ (t : List ℕ). (start + length c) ∷ t) (take-ends (start + length c) cs i)

pub drop-ends :
    (start : ℕ) (cs : List (List ℕ)) (i : ℕ)
    → drop i (ends start cs) ≡ ends (start + length (concat (take i cs))) (drop i cs)
drop-ends start cs zero = ap (λ (t : ℕ). ends t cs) (omega arith)
drop-ends start [] (suc i) = refl
drop-ends start (c ∷ cs) (suc i) =
    let place : start + length c + length (concat (take i cs))
        ≡ start + length (c ++ concat (take i cs)) =
      omega (arith, length-append c (concat (take i cs))) in
    drop-ends (start + length c) cs i ∙ ap (λ (t : ℕ). ends t (drop i cs)) place

-- The dictionary grows by chunks of no bytes.
pub ends-replicate : (start n : ℕ) → ends start (replicate n []) ≡ replicate n start
ends-replicate start zero = refl
ends-replicate start (suc n) =
    let place : start + 0 ≡ start = omega arith in
    ap (λ (t : ℕ). t ∷ ends t (replicate n [])) place
    ∙ ap (λ (t : List ℕ). start ∷ t) (ends-replicate start n)

-- Adding `n` to every entry moves the chunks from `start` to `start'`, the ends staying in 16 bits.
pub add_idict_from-ends :
    (start start' n k : ℕ) (cs : List (List ℕ))
    → start + n ≡ start' + k * 2 ^ 16
    → start' + length (concat cs) < 2 ^ 16
    → add_idict_from 0 n (ends start cs) ≡ ends start' cs
add_idict_from-ends start start' n k [] e h = refl
add_idict_from-ends start start' n k (c ∷ cs) e h =
    let size = length-append c (concat cs) in
    let moved : (start + length c + n) % 2 ^ 16 ≡ start' + length c = omega (arith, e, size, h) in
    ap (λ (t : ℕ). t ∷ add_idict_from 0 n (ends (start + length c) cs)) moved
    ∙ ap (λ (t : List ℕ). (start' + length c) ∷ t)
        (add_idict_from-ends (start + length c) (start' + length c) n k cs (omega (arith, e))
          (omega (arith, size, h)))

pub add_idict_from-append :
    (xs ys : List ℕ) (i n : ℕ)
    → i ≡ length xs
    → add_idict_from i n (xs ++ ys) ≡ xs ++ add_idict_from 0 n ys
add_idict_from-append [] ys i n e = ap (λ (t : ℕ). add_idict_from t n ys) e
add_idict_from-append (x ∷ xs) ys zero n e = absurd (omega (arith, e))
add_idict_from-append (x ∷ xs) ys (suc i) n e =
    ap (λ (t : List ℕ). x ∷ t) (add_idict_from-append xs ys i n (omega (arith, e)))
