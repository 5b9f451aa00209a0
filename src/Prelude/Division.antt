-- ===== src/Prelude/Division.antt =====
-- Division with remainder by a number that is not known.
use Prim.Native.Nat.{ℕ, ◌+◌, ◌-◌, ◌*◌, ◌/◌, ◌%◌, ◌≤◌, ◌<◌}
use mathlib.Core.Path.{◌≡◌, ap}
use native.Mathlib.Omega.{arith}

module _ (q r m : ℕ) (h : r < m) where
  pub div-mul-add : (q * m + r) / m ≡ q
  div-mul-add = grind arith

  pub mod-mul-add : (q * m + r) % m ≡ r
  mod-mul-add = grind arith

-- Multiples of `m` lie at least `m` apart.
pub mul-step : (q k m : ℕ) → q < k → q * m + m ≤ k * m
mul-step q k m h = grind arith

pub sub-mul-add : (e q m : ℕ) → q ≤ e → (e - q) * m + q * m ≡ e * m
sub-mul-add e q m h =
    let split : e ≡ e - q + q = omega arith in omega (arith, ap (λ (t : ℕ). t * m) split)

pub div-mod-eq : (b m : ℕ) → 0 < m → b ≡ b / m * m + b % m
div-mod-eq b m h = omega arith

pub mod-lt : (b m : ℕ) → 0 < m → b % m < m
mod-lt b m h = omega arith
