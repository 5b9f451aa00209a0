-- ===== src/Balloc/Tests.antt =====
-- A run of the allocator on a volume of twelve blocks, and its theorems at an input.
use tux3_fuse.Prelude.{
  ℕ, ◌+◌, ◌≤◌, ◌<◌, ◌/◌, ◌%◌, ◌≡◌, refl, true, false, none, some, [], ◌∷◌, arith, ◌≢◌,
}
use tux3_fuse.Bitmap.Masks.{zero_digit}
use tux3_fuse.Bitmap.Walk.{walking}
use tux3_fuse.Balloc.{
  Sb, BlockIo, Ret, ok, enospc, fs_error, eagain, bitmap_modify, bitmap_test_and_modify, allocated,
}
use tux3_fuse.Balloc.Modify.{IsWf}
use tux3_fuse.Balloc.Results.{
  Applied, bitmap_modify-Applied, bitmap_test_and_modify-Applied, bitmap_test_and_modify-ok,
}
use tux3_fuse.Balloc.Alloc.{Seg, balloc_from_range, balloc_partial}
use tux3_fuse.Balloc.Alloc.Sound.{Outcome, balloc_from_range-Outcome}
use tux3_fuse.Balloc.Alloc.Tail.{none_saved, balloc_partial-misses_tail}

never : none ≢ some eagain
never e = cc

-- no failures
abbrev io : BlockIo
io = record { read_fails = λ k. false; dirty_error = λ k. none; no_eagain = λ b. never }

-- bitmap blocks of one byte, all blocks free
abbrev volume : ℕ → Sb
volume n = record {
  blockbits = 0;
  volblocks = n;
  freeblocks = n;
  nextblock = 0;
  bitmap = λ k. 0 ∷ [];
}

volume-IsWf : IsWf (volume 12)
volume-IsWf = record { sized = λ k. refl; word = omega arith; pattern = omega arith }

volume_free : (n b : ℕ) → allocated (volume n) b ≡ false
volume_free n b =
    let first_byte : b % 8 / 8 ≡ 0 = omega arith in rw first_byte (zero_digit (b % 8 % 8))

bitmap_modify-Applied_example :
    (n : ℕ) × Applied
      (volume 12)
      (bitmap_modify io (volume 12) 6 4 true).0
      (bitmap_modify io (volume 12) 6 4 true).1
      true
      6
      4
      n
    × ((bitmap_modify io (volume 12) 6 4 true).1 ≢ fs_error)
bitmap_modify-Applied_example =
    bitmap_modify-Applied io (volume 12) 6 4 true volume-IsWf (omega arith) (omega arith)
      (omega arith)

bitmap_test_and_modify-Applied_example :
    (n : ℕ) × Applied
      (volume 12)
      (bitmap_test_and_modify io walking (volume 12) 6 4 true).0
      (bitmap_test_and_modify io walking (volume 12) 6 4 true).1
      true
      6
      4
      n
    × ((b : ℕ) → 6 ≤ b → b < 6 + n → allocated (volume 12) b ≡ false)
    × (((b : ℕ) → 6 ≤ b → b < 10 → allocated (volume 12) b ≡ false)
        → (bitmap_test_and_modify io walking (volume 12) 6 4 true).1 ≢ fs_error)
bitmap_test_and_modify-Applied_example =
    bitmap_test_and_modify-Applied io (volume 12) 6 4 true volume-IsWf (omega arith) (omega arith)
      (omega arith) walking

bitmap_test_and_modify-ok_example : (bitmap_test_and_modify io walking (volume 12) 6 4 true).1 ≡ ok
bitmap_test_and_modify-ok_example =
    bitmap_test_and_modify-ok io (volume 12) 6 4 true volume-IsWf (omega arith) (omega arith)
      (omega arith) walking (record { reads = λ k. refl; dirties = λ k. refl })
      (λ b lo hi. volume_free 12 b)

balloc_from_range-Outcome_example :
    (r : Sb × Seg × Ret) × (balloc_from_range io walking (volume 12) 5 6 12 true ≡ some r)
    × Outcome (volume 12) 5 true r
balloc_from_range-Outcome_example =
    balloc_from_range-Outcome io walking (volume 12) 5 volume-IsWf (omega arith) (omega arith) 6 12
      true (omega arith) (omega arith)

balloc_partial-misses_tail_example :
    balloc_partial io walking (volume 4) 6 ≡ some (volume 4, none_saved, enospc)
balloc_partial-misses_tail_example =
    balloc_partial-misses_tail io walking (volume 4) 6 (omega arith) (omega arith) (omega arith)
      (λ b lo hi. volume_free 4 b) refl refl
