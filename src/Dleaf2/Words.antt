-- ===== src/Dleaf2/Words.antt =====
-- kernel/dleaf2.c: `get_extent` after `put_extent`.
use tux3_fuse.Prelude.{ℕ, zero, suc, ◌*◌, ◌/◌, ◌%◌, ◌^◌, ◌<◌, ◌≡◌, ap, bit_and, arith}
use native.Mathlib.Nat.{pow-suc}
use tux3_fuse.Prelude.Digits.{bit_and_step, bit_or_fields, zero-bit_or, bit_or-zero}
use tux3_fuse.Dleaf2.{get_logical, get_extent, put_extent, ver_mask}

-- A mask of high digits leaves a multiple of its lowest one.
bit_and_high : (k a b : ℕ) → (q : ℕ) × (bit_and a (b * 2 ^ k) ≡ q * 2 ^ k)
bit_and_high zero a b = (bit_and a (b * 2 ^ 0), omega arith)
bit_and_high (suc k) a b =
    let (q, e) = bit_and_high k (a / 2) b in
    let double : b * 2 ^ suc k ≡ b * (2 ^ k * 2) = ap (λ (t : ℕ). b * t) (pow-suc 2 k) in
    let half : (b * 2 ^ suc k) / 2 ≡ b * 2 ^ k = omega arith in
    (
      q,
      omega (
        arith,
        bit_and_step a (b * 2 ^ suc k),
        ap (λ (t : ℕ). bit_and (a / 2) t) half,
        e,
        ap (λ (t : ℕ). q * t) (pow-suc 2 k),
      ),
    )

-- the low half of the version does not reach its word
low_version_lost : (version : ℕ) → bit_and version ver_mask * 2 ^ 48 % 2 ^ 64 ≡ 0
low_version_lost version = let (q, e) = bit_and_high 16 version 1 in omega (arith, e)

-- What is read back after `put_extent`: the addresses as they were written, and of the version only its
-- upper 16 bits. (VER_MASK keeps bit 16, which is shifted out.)
pub get_extent-put_extent :
    (version logical physical : ℕ)
    → version < 2 ^ 32
    → logical < 2 ^ 48
    → physical < 2 ^ 48
    → get_extent (put_extent version logical physical)
      ≡ record { version = version / 2 ^ 16 * 2 ^ 16; logical = logical; physical = physical }
unfolding get_extent put_extent
get_extent-put_extent version logical physical v l p = ground (
  arith,
  low_version_lost version,
  zero-bit_or physical,
  bit_or_fields 48 (version / 2 ^ 16) logical,
  bit_or-zero (version / 2 ^ 16 * 2 ^ 16),
)

pub get_logical-put_extent :
    (version logical physical : ℕ)
    → logical < 2 ^ 48
    → get_logical (put_extent version logical physical) ≡ logical
unfolding get_logical put_extent
get_logical-put_extent version logical physical l =
    let high : version / 2 ^ 16 * 2 ^ 48 % 2 ^ 64 ≡ version / 2 ^ 16 % 2 ^ 16 * 2 ^ 48 =
      omega arith in
    rw high (omega (arith, bit_or_fields 48 (version / 2 ^ 16 % 2 ^ 16) logical l))
