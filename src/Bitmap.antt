-- ===== src/Bitmap.antt =====
-- kernel/utility.c: the bit operations on a bitmap of bytes. A bitmap is the list of its bytes, bit
-- `i` being digit `i & 7` of byte `i >> 3`.
pub mod Masks
pub mod Set
pub mod Clear
pub mod Search
pub mod Walk
mod Tests
use tux3_fuse.Prelude.{
  ℕ, zero, suc, ◌+◌, ◌-◌, ◌/◌, ◌%◌, ◌^◌, Bool, List, [], ◌∷◌, bit_and, bit_or, ◌==◌, if◌then◌else◌,
  get_or, set,
}
use tux3_fuse.Prelude.Digits.{test_digit}

-- `unsigned` addition
abbrev pub add32 : ℕ → ℕ → ℕ
add32 a b = (a + b) % 2 ^ 32

-- `-1 << k` and `~(-1 << k)` as patterns of 32 bits
abbrev pub ones_from : ℕ → ℕ
ones_from k = 2 ^ 32 - 2 ^ k

abbrev pub ones_below : ℕ → ℕ
ones_below k = 2 ^ 32 - 1 - ones_from k

-- `lmask` and `rmask` of a bound of the range
unfoldable pub left_mask : ℕ → ℕ
left_mask start = bit_and (ones_from (start % 8)) 0xff

unfoldable pub right_mask : ℕ → ℕ
right_mask limit = bit_and (ones_below (limit % 8)) 0xff

-- `~m` of an `unsigned` m
abbrev pub complement : ℕ → ℕ
complement m = 2 ^ 32 - 1 - m

-- memset(xs + off, v, n) inside the list
abbrev pub memset : List ℕ → ℕ → ℕ → ℕ → List ℕ
memset [] off v n = []
memset (x ∷ xs) (suc off) v n = x ∷ memset xs off v n
memset (x ∷ xs) zero v zero = x ∷ xs
memset (x ∷ xs) zero v (suc n) = v ∷ memset xs zero v n

-- `bitmap[off] |= m` and `bitmap[off] &= m`
abbrev pub or_byte : List ℕ → ℕ → ℕ → List ℕ
or_byte bitmap off m = set bitmap off (bit_or (get_or bitmap off 0) m)

abbrev pub and_byte : List ℕ → ℕ → ℕ → List ℕ
and_byte bitmap off m = set bitmap off (bit_and (get_or bitmap off 0) m)

unfoldable pub set_bits : List ℕ → ℕ → ℕ → List ℕ
set_bits bitmap start count =
    let limit = add32 start count in
    let lmask = left_mask start in
    let rmask = right_mask limit in
    let loff = start / 8 in
    let roff = limit / 8 in
    if loff == roff
    then or_byte bitmap loff (bit_and lmask rmask)
    else let filled = memset (or_byte bitmap loff lmask) (loff + 1) 0xff (roff - loff - 1) in
      if rmask == 0 then filled else or_byte filled roff rmask

unfoldable pub clear_bits : List ℕ → ℕ → ℕ → List ℕ
clear_bits bitmap start count =
    let limit = add32 start count in
    let lmask = left_mask start in
    let rmask = right_mask limit in
    let loff = start / 8 in
    let roff = limit / 8 in
    if loff == roff
    then and_byte bitmap loff (bit_or (complement lmask) (complement rmask))
    else let filled =
        memset (and_byte bitmap loff (complement lmask)) (loff + 1) 0 (roff - loff - 1) in
      if rmask == 0 then filled else and_byte filled roff (complement rmask)

-- the bit that the range functions are about
abbrev pub test_bit : List ℕ → ℕ → Bool
test_bit bitmap i = test_digit (get_or bitmap (i / 8) 0) (i % 8)
