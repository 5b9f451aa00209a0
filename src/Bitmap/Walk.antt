-- ===== src/Bitmap/Walk.antt =====
-- A bit search by walking, which meets the laws that the bitmap functions rely on.
use tux3_fuse.Prelude.{
  ℕ, zero, suc, ◌+◌, ◌-◌, ◌≤◌, ◌<◌, ◌≡◌, ap, Bool, true, false, not, List, arith, if◌then◌else◌,
}
use tux3_fuse.Bitmap.{test_bit}
use tux3_fuse.Bitmap.Search.{BitSearch}

abbrev agrees : Bool → Bool → Bool
agrees true b = b
agrees false b = not b

unfoldable pub walk : Bool → List ℕ → ℕ → ℕ → ℕ
walk want p zero i = i
walk want p (suc n) i =
    let rest = walk want p n (i + 1) in if agrees want (test_bit p i) then i else rest

walk_bounds :
    (want : Bool) (p : List ℕ) (n i : ℕ) → (i ≤ walk want p n i) × (walk want p n i ≤ i + n)
unfolding walk
walk_bounds want p zero i = omega arith
walk_bounds want p (suc n) i = ground (arith, walk_bounds want p n (i + 1))

pub walk_before :
    (want : Bool) (p : List ℕ) (n i j : ℕ) → i ≤ j → j < walk want p n i → test_bit p j ≡ not want
unfolding walk
walk_before want p zero i j lo hi = absurd (omega arith)
walk_before true p (suc n) i j lo hi =
    ground (arith, walk_before true p n (i + 1) j, λ (e : i ≡ j). ap (test_bit p) e)
walk_before false p (suc n) i j lo hi =
    ground (arith, walk_before false p n (i + 1) j, λ (e : i ≡ j). ap (test_bit p) e)

walk_found :
    (want : Bool) (p : List ℕ) (n i : ℕ)
    → walk want p n i < i + n
    → test_bit p (walk want p n i) ≡ want
unfolding walk
walk_found want p zero i h = absurd (omega arith)
walk_found true p (suc n) i h = ground (arith, walk_found true p n (i + 1))
walk_found false p (suc n) i h = ground (arith, walk_found false p n (i + 1))

pub walk_found_before :
    (want : Bool) (p : List ℕ) (size i : ℕ)
    → walk want p (size - i) i < size
    → test_bit p (walk want p (size - i) i) ≡ want
walk_found_before want p size i h =
    walk_found want p (size - i) i (omega (arith, walk_bounds want p (size - i) i))

pub walk_bounds_before :
    (want : Bool) (p : List ℕ) (size i : ℕ)
    → i ≤ size
    → (i ≤ walk want p (size - i) i) × (walk want p (size - i) i ≤ size)
walk_bounds_before want p size i h = omega (arith, walk_bounds want p (size - i) i)

abbrev pub walking : BitSearch
walking = record {
  find_next_bit_le = λ p size i. walk true p (size - i) i;
  find_next_zero_bit_le = λ p size i. walk false p (size - i) i;
  next_bounds = walk_bounds_before true;
  next_clear_before = λ p size i. walk_before true p (size - i) i;
  next_found = walk_found_before true;
  next_zero_bounds = walk_bounds_before false;
  next_zero_set_before = λ p size i. walk_before false p (size - i) i;
  next_zero_found = walk_found_before false;
}
