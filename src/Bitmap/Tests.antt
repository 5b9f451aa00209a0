-- ===== src/Bitmap/Tests.antt =====
-- Runs of the bitmap functions, and their theorems at an input.
use tux3_fuse.Prelude.{
  ℕ, ◌+◌, ◌≤◌, ◌<◌, ◌≡◌, ◌↔◌, refl, true, false, ◌||◌, ◌&&◌, not, List, [], ◌∷◌, arith,
}
use tux3_fuse.Bitmap.{set_bits, clear_bits, left_mask, right_mask, test_bit}
use tux3_fuse.Bitmap.Set.{in_range, test_bit-set_bits}
use tux3_fuse.Bitmap.Clear.{test_bit-clear_bits}
use tux3_fuse.Bitmap.Search.{all_set, all_clear, all_clear_iff, all_set_iff}
use tux3_fuse.Bitmap.Walk.{walk, walking}

abbrev three : List ℕ
three = 0x80 ∷ 0 ∷ 1 ∷ []

set_across : set_bits three 6 12 ≡ 0xc0 ∷ 0xff ∷ 3 ∷ []
unfolding set_bits left_mask right_mask
set_across = refl

clear_across : clear_bits (0xff ∷ 0xff ∷ 0xff ∷ []) 6 12 ≡ 0x3f ∷ 0 ∷ 0xfc ∷ []
unfolding clear_bits left_mask right_mask
clear_across = refl

clear_run : all_clear walking three 8 8 ≡ true
unfolding all_clear walk
clear_run = refl

test_bit-set_bits_example :
    test_bit (set_bits three 6 12) 17 ≡ (in_range 6 (6 + 12) 17 || test_bit three 17)
test_bit-set_bits_example =
    test_bit-set_bits three 6 12 17 (omega arith) (omega arith) (omega arith) (omega arith)

test_bit-clear_bits_example :
    test_bit (clear_bits three 6 12) 17 ≡ (not (in_range 6 (6 + 12) 17) && test_bit three 17)
test_bit-clear_bits_example =
    test_bit-clear_bits three 6 12 17 (omega arith) (omega arith) (omega arith) (omega arith)

all_clear_iff_example :
    (all_clear walking three 8 8 ≡ true) ↔ ((i : ℕ) → 8 ≤ i → i < 8 + 8 → test_bit three i ≡ false)
all_clear_iff_example = all_clear_iff walking three 8 8 (omega arith)

all_set_iff_example :
    (all_set walking three 7 1 ≡ true) ↔ ((i : ℕ) → 7 ≤ i → i < 7 + 1 → test_bit three i ≡ true)
all_set_iff_example = all_set_iff walking three 7 1 (omega arith)
