-- ===== src/Prelude/Table.antt =====
-- A fact about every number below a small bound, checked by evaluation.
use Prim.Native.Nat.{ℕ, zero, suc, ◌+◌, ◌<◌}
use mathlib.Core.Path.{◌≡◌, subst}
use mathlib.Core.Bool.{Bool, true, ◌&&◌}
use native.Mathlib.Omega.{arith}

-- `test` on the `count` numbers from `first` on
unfoldable pub holds_from : (first count : ℕ) → (ℕ → Bool) → Bool
holds_from first zero test = true
holds_from first (suc count) test = test first && holds_from (first + 1) count test

holds_from-at :
    (first count : ℕ) (test : ℕ → Bool) (k : ℕ)
    → k < count
    → holds_from first count test ≡ true
    → test (first + k) ≡ true
unfolding holds_from
holds_from-at first zero test k small all = absurd (omega arith)
holds_from-at first (suc count) test zero small all = ground arith
holds_from-at first (suc count) test (suc k) small all =
    let next = holds_from-at (first + 1) count test k (omega arith) (ground arith) in
    let place : first + 1 + k ≡ first + suc k = omega arith in subst (λ i. test i ≡ true) place next

holds_from_zero :
    (count : ℕ) (test : ℕ → Bool) (k : ℕ)
    → k < count
    → holds_from 0 count test ≡ true
    → test k ≡ true
holds_from_zero count test k small all =
    let place : 0 + k ≡ k = omega arith in
    subst (λ i. test i ≡ true) place (holds_from-at 0 count test k small all)

-- a table of two arguments
pub holds_below :
    (m n : ℕ) (test : ℕ → ℕ → Bool) (x y : ℕ)
    → holds_from 0 m (λ a. holds_from 0 n (test a)) ≡ true
    → x < m
    → y < n
    → test x y ≡ true
holds_below m n test x y all small small' =
    holds_from_zero n (test x) y small'
      (holds_from_zero m (λ a. holds_from 0 n (test a)) x small all)
