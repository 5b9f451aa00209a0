-- ===== src/Bitmap/Clear.antt =====
-- kernel/utility.c: `clear_bits` bit by bit.
use tux3_fuse.Prelude.{
  ℕ, ◌+◌, ◌*◌, ◌/◌, ◌%◌, ◌^◌, ◌≤◌, ◌<◌, ◌≡◌, Bool-cases, inl, inr, ◌==◌, not, ◌&&◌, ◌||◌, List,
  arith, ltb, bit_or, bit_and, length, get_or, get_or-set_self, get_or-set_ne, length-set, ◌-◌,
}
use tux3_fuse.Prelude.Digits.{test_digit, test_digit-bit_or, test_digit-bit_and}
use tux3_fuse.Bitmap.{
  add32, left_mask, right_mask, complement, memset, and_byte, clear_bits, test_bit,
}
use tux3_fuse.Bitmap.Set.{in_range}
use tux3_fuse.Bitmap.Masks.{
  left_complement_digit, right_complement_digit, zero_digit, right_mask-zero, right_mask-aligned,
  get_or-memset, length-memset,
}

-- A byte of the bitmap after `bitmap[off] &= m`, digit by digit.
and_byte_digit :
    (xs : List ℕ) (off m j k : ℕ)
    → off < length xs
    → test_digit (get_or (and_byte xs off m) j 0) k
      ≡ (((ltb off j || ltb j off) || test_digit m k) && test_digit (get_or xs j 0) k)
and_byte_digit xs off m j k h = ground (
  arith,
  get_or-set_self xs off (bit_and (get_or xs off 0) m) 0,
  get_or-set_ne xs off j (bit_and (get_or xs off 0) m) 0,
  test_digit-bit_and k (get_or xs off 0) m,
)

pub length-clear_bits :
    (xs : List ℕ) (start count : ℕ) → length (clear_bits xs start count) ≡ length xs
unfolding clear_bits
length-clear_bits xs start count = grind (arith, length-set, length-memset)

module _ (xs : List ℕ) (start limit j k : ℕ) (le : start < limit) (fits : limit ≤ 8 * length xs)
    (small : k < 8) where
  one_byte :
      start / 8 ≡ limit / 8
      → j < length xs
      → start / 8 < length xs
      → test_digit
          (get_or
            (and_byte xs
              (start / 8)
              (bit_or (complement (left_mask start)) (complement (right_mask limit))))
            j
            0)
          k
        ≡ (not (in_range start limit (8 * j + k)) && test_digit (get_or xs j 0) k)
  one_byte e hj hs = ground (
    arith,
    and_byte_digit xs (start / 8)
        (bit_or (complement (left_mask start)) (complement (right_mask limit))) j k hs,
    test_digit-bit_or k (complement (left_mask start)) (complement (right_mask limit)),
    left_complement_digit start k small,
    right_complement_digit limit k small,
  )

  abbrev filled : List ℕ
  filled =
      memset (and_byte xs (start / 8) (complement (left_mask start))) (start / 8 + 1) 0
        (limit / 8 - start / 8 - 1)

  -- all whole bytes of the range, and what of it lies in its first byte
  filled_digit :
      start / 8 < limit / 8
      → j < length xs
      → test_digit (get_or filled j 0) k
        ≡ (not (in_range start (8 * (limit / 8)) (8 * j + k)) && test_digit (get_or xs j 0) k)
  filled_digit lt hj = ground (
    arith,
    and_byte_digit xs (start / 8) (complement (left_mask start)) j k (omega arith),
    get_or-memset (and_byte xs (start / 8) (complement (left_mask start))) (start / 8 + 1) 0
        (limit / 8 - start / 8 - 1) j,
    length-set xs (start / 8) (bit_and (get_or xs (start / 8) 0) (complement (left_mask start))),
    left_complement_digit start k small,
    zero_digit k,
  )

  -- with the bits of its last byte
  topped_digit :
      start / 8 < limit / 8
      → limit / 8 < length xs
      → j < length xs
      → test_digit (get_or (and_byte filled (limit / 8) (complement (right_mask limit))) j 0) k
        ≡ (not (in_range start limit (8 * j + k)) && test_digit (get_or xs j 0) k)
  topped_digit lt top hj = ground (
    arith,
    filled_digit lt hj,
    and_byte_digit filled (limit / 8) (complement (right_mask limit)) j k,
    length-memset (and_byte xs (start / 8) (complement (left_mask start))) (start / 8 + 1) 0
        (limit / 8 - start / 8 - 1),
    length-set xs (start / 8) (bit_and (get_or xs (start / 8) 0) (complement (left_mask start))),
    right_complement_digit limit k small,
  )

  aligned : limit % 8 ≡ 0 → 8 * (limit / 8) ≡ limit
  aligned e = omega arith

  clear_bits_digit :
      limit < 2 ^ 32
      → j < length xs
      → test_digit (get_or (clear_bits xs start (limit - start)) j 0) k
        ≡ (not (in_range start limit (8 * j + k)) && test_digit (get_or xs j 0) k)
  unfolding clear_bits
  clear_bits_digit word hj =
      let exact : add32 start (limit - start) ≡ limit = omega arith in
      rw exact (elim (Bool-cases (start / 8 == limit / 8)) [
        | inl one ↦ rw one (one_byte (ground arith) hj (omega arith))
        | inr more ↦ elim (Bool-cases (right_mask limit == 0)) [
          | inl whole ↦
              rw (more, whole)
                (rw (aligned (right_mask-zero limit (ground arith))) at
                  (filled_digit (ground arith) hj))
          | inr part ↦
              rw (more, part)
                (topped_digit (ground arith) (ground (arith, right_mask-aligned limit)) hj)
        ]
      ])

-- `clear_bits` clears the bits from `start` up to `start + count` and no other, on a bitmap that holds
-- that range and whose size in bits is an `unsigned`.
pub test_bit-clear_bits :
    (xs : List ℕ) (start count i : ℕ)
    → 0 < count
    → start + count ≤ 8 * length xs
    → 8 * length xs < 2 ^ 32
    → i < 8 * length xs
    → test_bit (clear_bits xs start count) i
      ≡ (not (in_range start (start + count) i) && test_bit xs i)
test_bit-clear_bits xs start count i positive fits word inside =
    ground (arith, clear_bits_digit xs start (start + count) (i / 8) (i % 8))
