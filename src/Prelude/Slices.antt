-- ===== src/Prelude/Slices.antt =====
-- Parts of a list: `take` and `drop` across an append.
use Prim.Native.Nat.{ℕ, zero, suc, ◌+◌, ◌≤◌, ◌<◌}
use mathlib.Core.Path.{◌≡◌, refl, ap}
use mathlib.Core.List.{List, [], ◌∷◌, ◌++◌}
use native.Mathlib.Omega.{arith}
use tux3_fuse.Prelude.Lists.{length, take, drop, get_or, replicate}

module _ {ℓ} {A : Type ℓ} where
  pub take-past :
      (xs ys : List A) (i n : ℕ) → i ≡ length xs + n → take i (xs ++ ys) ≡ xs ++ take n ys
  take-past [] ys i n h = ap (λ (t : ℕ). take t ys) (omega (arith, h))
  take-past (x ∷ xs) ys zero n h = absurd (omega (arith, h))
  take-past (x ∷ xs) ys (suc i) n h =
      ap (λ (t : List A). x ∷ t) (take-past xs ys i n (omega (arith, h)))

  pub drop-past : (xs ys : List A) (i n : ℕ) → i ≡ length xs + n → drop i (xs ++ ys) ≡ drop n ys
  drop-past [] ys i n h = ap (λ (t : ℕ). drop t ys) (omega (arith, h))
  drop-past (x ∷ xs) ys zero n h = absurd (omega (arith, h))
  drop-past (x ∷ xs) ys (suc i) n h = drop-past xs ys i n (omega (arith, h))

  pub take-exact : (xs ys : List A) → take (length xs) (xs ++ ys) ≡ xs
  take-exact [] ys = refl
  take-exact (x ∷ xs) ys = ap (λ (t : List A). x ∷ t) (take-exact xs ys)

  pub drop-exact : (xs ys : List A) → drop (length xs) (xs ++ ys) ≡ ys
  drop-exact [] ys = refl
  drop-exact (x ∷ xs) ys = drop-exact xs ys

  pub take-all : (xs : List A) (n : ℕ) → length xs ≤ n → take n xs ≡ xs
  take-all [] zero h = refl
  take-all [] (suc n) h = refl
  take-all (x ∷ xs) zero h = absurd (omega arith)
  take-all (x ∷ xs) (suc n) h = ap (λ (t : List A). x ∷ t) (take-all xs n (omega arith))

  pub drop-all : (xs : List A) (n : ℕ) → length xs ≤ n → drop n xs ≡ []
  drop-all [] zero h = refl
  drop-all [] (suc n) h = refl
  drop-all (x ∷ xs) zero h = absurd (omega arith)
  drop-all (x ∷ xs) (suc n) h = drop-all xs n (omega arith)

  pub get_or-append-left :
      (xs ys : List A) (i : ℕ) (d : A) → i < length xs → get_or (xs ++ ys) i d ≡ get_or xs i d
  get_or-append-left [] ys i d h = absurd (omega arith)
  get_or-append-left (x ∷ xs) ys zero d h = refl
  get_or-append-left (x ∷ xs) ys (suc i) d h = get_or-append-left xs ys i d (omega arith)

  pub get_or-append-right :
      (xs ys : List A) (i n : ℕ) (d : A) → i ≡ length xs + n → get_or (xs ++ ys) i d ≡ get_or ys n d
  get_or-append-right [] ys i n d h = ap (λ (t : ℕ). get_or ys t d) (omega (arith, h))
  get_or-append-right (x ∷ xs) ys zero n d h = absurd (omega (arith, h))
  get_or-append-right (x ∷ xs) ys (suc i) n d h = get_or-append-right xs ys i n d (omega (arith, h))

  pub get_or-drop :
      (n : ℕ) (xs : List A) (i j : ℕ) (d : A) → j ≡ n + i → get_or (drop n xs) i d ≡ get_or xs j d
  get_or-drop zero xs i j d h = ap (λ (t : ℕ). get_or xs t d) (omega (arith, h))
  get_or-drop (suc n) [] i j d h = refl
  get_or-drop (suc n) (x ∷ xs) i zero d h = absurd (omega (arith, h))
  get_or-drop (suc n) (x ∷ xs) i (suc j) d h = get_or-drop n xs i j d (omega (arith, h))

  pub get_or-replicate : (n : ℕ) (d : A) (i : ℕ) → get_or (replicate n d) i d ≡ d
  get_or-replicate zero d i = refl
  get_or-replicate (suc n) d zero = refl
  get_or-replicate (suc n) d (suc i) = get_or-replicate n d i
