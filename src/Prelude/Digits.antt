-- ===== src/Prelude/Digits.antt =====
-- The binary digits of a native number, and the laws of `bit_and` and `bit_or` on them, for
-- numbers of any width.
use Prim.Native.Nat.{
  ℕ, zero, suc, ◌+◌, ◌*◌, ◌/◌, ◌%◌, ◌^◌, ◌≤◌, ◌<◌, min, max, bit_and, bit_or, digits,
  bit_and-bitwise, bit_or-bitwise,
}
use mathlib.Core.Path.{◌≡◌, refl, ap}
use mathlib.Core.Bool.{Bool, ◌&&◌, ◌||◌}
use native.Mathlib.Nat.{pow-suc}
use native.Mathlib.Omega.{arith}
use tux3_fuse.Prelude.Tests.{◌==◌}

-- digit `i` of `a`, the lowest first
abbrev pub test_digit : ℕ → ℕ → Bool
test_digit a zero = a % 2 == 1
test_digit a (suc i) = test_digit (a / 2) i

module _ (ends : ℕ → ℕ) (meet : ℕ → ℕ → ℕ) where
  -- The digits of a pair do not depend on the fuel, if it is no less than the first number.
  digits-fuel :
      (a b fuel fuel' : ℕ)
      → a ≤ fuel
      → a ≤ fuel'
      → digits ends meet fuel a b ≡ digits ends meet fuel' a b
  digits-fuel zero b zero zero h h' = refl
  digits-fuel zero b zero (suc _) h h' = refl
  digits-fuel zero b (suc _) zero h h' = refl
  digits-fuel zero b (suc _) (suc _) h h' = refl
  digits-fuel (suc a) b zero fuel' h h' = absurd (omega arith)
  digits-fuel (suc a) b (suc fuel) zero h h' = absurd (omega arith)
  digits-fuel (suc a) b (suc fuel) (suc fuel') h h' =
      let rest = digits-fuel (suc a / 2) (b / 2) fuel fuel' (omega arith) (omega arith) in
      ap (λ (t : ℕ). t * 2 + meet (suc a % 2) (b % 2)) rest

  -- An operation that runs the digits of two numbers takes one step on the lowest ones.
  by_digits :
      (op : ℕ → ℕ → ℕ)
      → ((a b : ℕ) → op a b ≡ digits ends meet a a b)
      → ((b : ℕ) → ends b ≡ ends (b / 2) * 2 + meet 0 (b % 2))
      → (a b : ℕ) → op a b ≡ op (a / 2) (b / 2) * 2 + meet (a % 2) (b % 2)
  by_digits op runs last zero b = rw (runs 0 b, runs 0 (b / 2)) (last b)
  by_digits op runs last (suc a) b =
      rw
        (
          runs (suc a) b,
          runs (suc a / 2) (b / 2),
          digits-fuel (suc a / 2) (b / 2) a (suc a / 2) (omega arith) (omega arith),
        )
        refl

pub bit_and_step : (x y : ℕ) → bit_and x y ≡ bit_and (x / 2) (y / 2) * 2 + min (x % 2) (y % 2)
bit_and_step = by_digits (λ y. zero) min bit_and bit_and-bitwise (λ y. omega arith)

pub bit_or_step : (x y : ℕ) → bit_or x y ≡ bit_or (x / 2) (y / 2) * 2 + max (x % 2) (y % 2)
bit_or_step = by_digits (λ y. y) max bit_or bit_or-bitwise (λ y. omega arith)

pub zero-bit_or : (b : ℕ) → bit_or 0 b ≡ b
zero-bit_or b = bit_or-bitwise 0 b

pub test_digit-bit_and :
    (i a b : ℕ) → test_digit (bit_and a b) i ≡ (test_digit a i && test_digit b i)
test_digit-bit_and zero a b = ground (arith, bit_and_step a b)
test_digit-bit_and (suc i) a b =
    let e : bit_and a b / 2 ≡ bit_and (a / 2) (b / 2) = omega (arith, bit_and_step a b) in
    rw e (test_digit-bit_and i (a / 2) (b / 2))

pub test_digit-bit_or : (i a b : ℕ) → test_digit (bit_or a b) i ≡ (test_digit a i || test_digit b i)
test_digit-bit_or zero a b = ground (arith, bit_or_step a b)
test_digit-bit_or (suc i) a b =
    let e : bit_or a b / 2 ≡ bit_or (a / 2) (b / 2) = omega (arith, bit_or_step a b) in
    rw e (test_digit-bit_or i (a / 2) (b / 2))

or_zero_fuel : (n a : ℕ) → a ≤ n → bit_or a 0 ≡ a
or_zero_fuel n zero h = zero-bit_or 0
or_zero_fuel zero (suc a) h = absurd (omega arith)
or_zero_fuel (suc n) (suc a) h =
    omega (arith, bit_or_step (suc a) 0, or_zero_fuel n (suc a / 2) (omega arith))

pub bit_or-zero : (a : ℕ) → bit_or a 0 ≡ a
bit_or-zero a = or_zero_fuel a a (omega arith)

-- A shifted field and one below it do not meet.
pub bit_or_fields : (k q r : ℕ) → r < 2 ^ k → bit_or (q * 2 ^ k) r ≡ q * 2 ^ k + r
bit_or_fields zero q r h = let e : r ≡ 0 = omega arith in rw e (omega (arith, bit_or-zero (q * 1)))
bit_or_fields (suc k) q r h =
    let double : q * 2 ^ suc k ≡ q * (2 ^ k * 2) = ap (λ (t : ℕ). q * t) (pow-suc 2 k) in
    let half : (q * 2 ^ suc k) / 2 ≡ q * 2 ^ k = omega arith in
    omega (
      arith,
      bit_or_step (q * 2 ^ suc k) r,
      ap (λ (t : ℕ). bit_or t (r / 2)) half,
      bit_or_fields k q (r / 2) (omega (arith, pow-suc 2 k)),
    )
