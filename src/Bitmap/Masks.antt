-- ===== src/Bitmap/Masks.antt =====
-- The digits of the masks, by tables over the eight bit positions, and a bitmap after `memset`.
use tux3_fuse.Prelude.{
  ℕ, zero, suc, ◌+◌, ◌%◌, ◌<◌, ◌≡◌, refl, Bool, true, false, not, List, [], ◌∷◌, arith, leb, ap,
  ltb, ◌&&◌, if◌then◌else◌, length, get_or,
}
use tux3_fuse.Prelude.Digits.{test_digit}
use tux3_fuse.Prelude.Table.{holds_from, holds_below}
use tux3_fuse.Bitmap.{left_mask, right_mask, complement, memset}

abbrev same : Bool → Bool → Bool
same true b = b
same false b = not b

same→eq : (a b : Bool) → same a b ≡ true → a ≡ b
same→eq a b h = ground arith

-- A digit of a number that depends on `s & 7` alone, from a table of 64 entries.
digit_by_table :
    (mask : ℕ → ℕ) (expected : ℕ → ℕ → Bool) (s k : ℕ)
    → holds_from 0 8 (λ r. holds_from 0 8 (λ k. same (test_digit (mask r) k) (expected r k))) ≡ true
    → mask s ≡ mask (s % 8)
    → k < 8
    → test_digit (mask s) k ≡ expected (s % 8) k
digit_by_table mask expected s k table e h = rw e (
    same→eq _ _ (
      holds_below 8 8 (λ r k. same (test_digit (mask r) k) (expected r k)) (s % 8) k table
        (omega arith) h))

mod_eight_twice : (s : ℕ) → s % 8 ≡ s % 8 % 8
mod_eight_twice s = omega arith

pub left_mask_digit : (s k : ℕ) → k < 8 → test_digit (left_mask s) k ≡ leb (s % 8) k
unfolding left_mask holds_from
left_mask_digit s k h = digit_by_table left_mask leb s k refl (rw (← mod_eight_twice s) refl) h

pub right_mask_digit : (s k : ℕ) → k < 8 → test_digit (right_mask s) k ≡ ltb k (s % 8)
unfolding right_mask holds_from
right_mask_digit s k h =
    digit_by_table right_mask (λ r k. ltb k r) s k refl (rw (← mod_eight_twice s) refl) h

pub left_complement_digit :
    (s k : ℕ) → k < 8 → test_digit (complement (left_mask s)) k ≡ ltb k (s % 8)
unfolding left_mask holds_from
left_complement_digit s k h =
    digit_by_table (λ s. complement (left_mask s)) (λ r k. ltb k r) s k refl
      (rw (← mod_eight_twice s) refl) h

pub right_complement_digit :
    (s k : ℕ) → k < 8 → test_digit (complement (right_mask s)) k ≡ leb (s % 8) k
unfolding right_mask holds_from
right_complement_digit s k h =
    digit_by_table (λ s. complement (right_mask s)) leb s k refl (rw (← mod_eight_twice s) refl) h

pub ones_digit : (k : ℕ) → k < 8 → test_digit 0xff k ≡ true
unfolding holds_from
ones_digit k h = digit_by_table (λ s. 0xff) (λ r k. true) 0 k refl refl h

pub zero_digit : (k : ℕ) → test_digit 0 k ≡ false
zero_digit zero = refl
zero_digit (suc k) = zero_digit k

-- An empty right mask is that of a limit at a byte's start.
pub right_mask-zero : (s : ℕ) → right_mask s ≡ 0 → s % 8 ≡ 0
right_mask-zero s e = ground (arith, right_mask_digit s 0, ap (λ (m : ℕ). test_digit m 0) e)

pub right_mask-aligned : (s : ℕ) → s % 8 ≡ 0 → right_mask s ≡ 0
unfolding right_mask
right_mask-aligned s e = rw e refl

pub get_or-memset :
    (xs : List ℕ) (off v n j : ℕ)
    → get_or (memset xs off v n) j 0
      ≡ (if leb off j && ltb j (off + n) && ltb j (length xs) then v else get_or xs j 0)
get_or-memset [] off v n j = ground arith
get_or-memset (x ∷ xs) zero v zero j = ground arith
get_or-memset (x ∷ xs) zero v (suc n) zero = ground arith
get_or-memset (x ∷ xs) zero v (suc n) (suc j) = ground (arith, get_or-memset xs zero v n j)
get_or-memset (x ∷ xs) (suc off) v n zero = ground arith
get_or-memset (x ∷ xs) (suc off) v n (suc j) = ground (arith, get_or-memset xs off v n j)

pub length-memset : (xs : List ℕ) (off v n : ℕ) → length (memset xs off v n) ≡ length xs
length-memset [] off v n = refl
length-memset (x ∷ xs) zero v zero = refl
length-memset (x ∷ xs) zero v (suc n) = ap suc (length-memset xs zero v n)
length-memset (x ∷ xs) (suc off) v n = ap suc (length-memset xs off v n)
