-- ===== src/Bitmap/Search.antt =====
-- kernel/utility.c: `all_set`, `all_clear` and `bytebits`. The bit searches that the first two call
-- (libklib/find_next_bit.c, a copy of the Linux kernel's) are a parameter, with their documented
-- results as laws.
use tux3_fuse.Prelude.{ℕ, ◌+◌, ◌^◌, ◌≤◌, ◌<◌, ◌≡◌, ◌↔◌, Bool, true, false, List, arith, ◌==◌}
use tux3_fuse.Bitmap.{add32, test_bit}

-- The arguments are the bitmap, the size in bits (one past the last bit looked at) and the first bit.
pub record BitSearch : Type 0 where
  pub find_next_bit_le : List ℕ → ℕ → ℕ → ℕ
  pub find_next_zero_bit_le : List ℕ → ℕ → ℕ → ℕ
  pub next_bounds :
      (p : List ℕ) (size offset : ℕ)
      → offset ≤ size
      → (offset ≤ find_next_bit_le p size offset) × (find_next_bit_le p size offset ≤ size)
  pub next_clear_before :
      (p : List ℕ) (size offset i : ℕ)
      → offset ≤ i
      → i < find_next_bit_le p size offset
      → test_bit p i ≡ false
  pub next_found :
      (p : List ℕ) (size offset : ℕ)
      → find_next_bit_le p size offset < size
      → test_bit p (find_next_bit_le p size offset) ≡ true
  pub next_zero_bounds :
      (p : List ℕ) (size offset : ℕ)
      → offset ≤ size
      → (offset ≤ find_next_zero_bit_le p size offset)
        × (find_next_zero_bit_le p size offset ≤ size)
  pub next_zero_set_before :
      (p : List ℕ) (size offset i : ℕ)
      → offset ≤ i
      → i < find_next_zero_bit_le p size offset
      → test_bit p i ≡ true
  pub next_zero_found :
      (p : List ℕ) (size offset : ℕ)
      → find_next_zero_bit_le p size offset < size
      → test_bit p (find_next_zero_bit_le p size offset) ≡ false

module _ (search : BitSearch) where
  unfoldable pub all_set : List ℕ → ℕ → ℕ → Bool
  all_set bitmap start count =
      let limit = add32 start count in search.find_next_zero_bit_le bitmap limit start == limit

  unfoldable pub all_clear : List ℕ → ℕ → ℕ → Bool
  all_clear bitmap start count =
      let limit = add32 start count in search.find_next_bit_le bitmap limit start == limit

  -- `all_clear` answers true exactly when every bit of the range is clear.
  pub all_clear_iff :
      (p : List ℕ) (start count : ℕ)
      → start + count < 2 ^ 32
      → (all_clear p start count ≡ true)
        ↔ ((i : ℕ) → start ≤ i → i < start + count → test_bit p i ≡ false)
  unfolding all_clear
  all_clear_iff p start count word = (
    λ holds i lo hi. search.next_clear_before p (start + count) start i lo (ground (arith, exact)),
    λ clear. ground (
      arith,
      exact,
      search.next_bounds p (start + count) start,
      search.next_found p (start + count) start,
      clear (search.find_next_bit_le p (start + count) start),
    ),
  )
    where
      exact : add32 start count ≡ start + count
      exact = omega arith

  -- `all_set` answers true exactly when every bit of the range is set.
  pub all_set_iff :
      (p : List ℕ) (start count : ℕ)
      → start + count < 2 ^ 32
      → (all_set p start count ≡ true)
        ↔ ((i : ℕ) → start ≤ i → i < start + count → test_bit p i ≡ true)
  unfolding all_set
  all_set_iff p start count word = (
    λ holds i lo hi.
        search.next_zero_set_before p (start + count) start i lo (ground (arith, exact)),
    λ held. ground (
      arith,
      exact,
      search.next_zero_bounds p (start + count) start,
      search.next_zero_found p (start + count) start,
      held (search.find_next_zero_bit_le p (start + count) start),
    ),
  )
    where
      exact : add32 start count ≡ start + count
      exact = omega arith
