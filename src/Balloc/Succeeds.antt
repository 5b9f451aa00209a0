-- ===== src/Balloc/Succeeds.antt =====
-- kernel/balloc.c: with bitmap blocks that can all be read and dirtied, the loops run to the end.
use tux3_fuse.Prelude.{
  Option-cases, inr, inl, Bool-cases, ℕ, zero, suc, ◌+◌, ◌-◌, ◌*◌, ◌^◌, ◌≤◌, ◌<◌, ◌≡◌, ◌≢◌, refl,
  Bool, true, false, not, none, List, arith, min, ◌==◌, ◌||◌, ltb,
}
use tux3_fuse.Prelude.Division.{mul-step}
use tux3_fuse.Bitmap.{test_bit}
use tux3_fuse.Balloc.{
  Sb, BlockIo, Ret, ok, eio, enospc, panic, fs_error, errno, eagain, mapsize, blocksize, allocated,
  bitmap_modify_bits, modify_loop, ◌and_then◌,
}
use tux3_fuse.Balloc.Modify.{IsWf, modified, modified-Modified, modified-IsWf, mapsize_pos}
use tux3_fuse.Balloc.Loop.{bitmap_modify_bits-errno, bitmap_modify_bits-ok}
use tux3_fuse.Balloc.Alloc.Free.{allocated_at}

pub record IsClean (io : BlockIo) : Type 0 where
  pub reads : (k : ℕ) → io.read_fails k ≡ false
  pub dirties : (k : ℕ) → io.dirty_error k ≡ none

-- The test accepts a range whose bits are all the opposite of what will be written.
abbrev pub Accepts : (List ℕ → ℕ → ℕ → Bool) → Bool → Type 0
Accepts test set =
    (p : List ℕ) (offset len : ℕ)
    → offset + len < 2 ^ 32
    → ((i : ℕ) → offset ≤ i → i < offset + len → test_bit p i ≡ not set)
    → test p offset len ≡ true

module _ (io : BlockIo) (clean : IsClean io) (test : List ℕ → ℕ → ℕ → Bool) (set : Bool)
    (accepts : Accepts test set) where
  pub modify_loop-ok :
      (rounds : ℕ) (sb : Sb) (mapblock offset blocks : ℕ)
      → IsWf sb
      → offset < mapsize sb
      → rounds * mapsize sb < offset + blocks + mapsize sb
      → (0 < rounds → 0 < blocks)
      → ((b : ℕ)
          → mapblock * mapsize sb + offset ≤ b
          → b < mapblock * mapsize sb + offset + blocks
          → allocated sb b ≡ not set)
      → (modify_loop io test rounds sb mapblock offset blocks set).1 ≡ ok
  unfolding modify_loop
  modify_loop-ok zero sb mapblock offset blocks w inside tight busy state = refl
  modify_loop-ok (suc rounds) sb mapblock offset blocks w inside tight busy state =
      rw
        (
          clean.reads mapblock,
          tested,
          bitmap_modify_bits-ok io sb mapblock offset len set some_len fits
              (clean.dirties mapblock),
        )
        (modify_loop-ok rounds (modified sb mapblock offset len set) (mapblock + 1) 0 (blocks - len)
          (modified-IsWf sb mapblock offset len w some_len fits set) (mapsize_pos sb) (omega arith)
          (λ h. omega (arith, mul-step 0 rounds m h)) (λ b lo hi. later b lo hi))
    where
      m : ℕ
      m = mapsize sb

      len : ℕ
      len = min (m - offset) blocks

      some_len : 0 < len
      some_len = omega (arith, busy)

      fits : offset + len ≤ m
      fits = omega arith

      tested : test (sb.bitmap mapblock) offset len ≡ true
      tested =
          accepts (sb.bitmap mapblock) offset len (omega (arith, w.word))
            λ i lo hi. ground (arith, allocated_at sb mapblock i, state (mapblock * m + i))

      later :
          (b : ℕ)
          → (mapblock + 1) * m + 0 ≤ b
          → b < (mapblock + 1) * m + 0 + (blocks - len)
          → allocated (modified sb mapblock offset len set) b ≡ not set
      later b lo hi =
          ground
            (arith, state b, (modified-Modified sb mapblock offset len w some_len fits set).bits b)

and_then-fs_error :
    (r : Sb × Ret) (next : Sb → Sb × Ret)
    → r.1 ≢ fs_error
    → ((sb : Sb) → (next sb).1 ≢ fs_error)
    → (r and_then next).1 ≢ fs_error
and_then-fs_error (sb, ok) next h k = k sb
and_then-fs_error (sb, eio) next h k = h
and_then-fs_error (sb, enospc) next h k = h
and_then-fs_error (sb, panic) next h k = h
and_then-fs_error (sb, fs_error) next h k = h
and_then-fs_error (sb, errno e) next h k = h

module _ (io : BlockIo) where
  pub bitmap_modify_bits-fs_error :
      (sb : Sb) (mapblock offset blocks : ℕ) (set : Bool)
      → (bitmap_modify_bits io sb mapblock offset blocks set).1 ≢ fs_error
  unfolding bitmap_modify_bits
  bitmap_modify_bits-fs_error sb mapblock offset blocks set =
      elim (Bool-cases (blocks == 0 || ltb (blocksize sb * 8) (offset + blocks))) [
        | inl bad ↦ rw bad (λ e. cc)
        | inr good ↦ elim (Option-cases (io.dirty_error mapblock)) [
          | inl clean ↦ rw (good, clean) (λ e. cc)
          | inr (e, failed) ↦ elim (Bool-cases (e == eagain)) [
            | inl again ↦ rw (good, failed, again) (λ e. cc)
            | inr other ↦ rw (good, failed, other) (λ e. cc)
          ]
        ]
      ]

  -- Without a test there is no call of tux3_fs_error.
  pub modify_loop-unchecked :
      (rounds : ℕ) (sb : Sb) (mapblock offset blocks : ℕ) (set : Bool)
      → (modify_loop io (λ p offset len. true) rounds sb mapblock offset blocks set).1 ≢ fs_error
  unfolding modify_loop
  modify_loop-unchecked zero sb mapblock offset blocks set = λ e. cc
  modify_loop-unchecked (suc rounds) sb mapblock offset blocks set =
      let len = min (mapsize sb - offset) blocks in
      elim (Bool-cases (io.read_fails mapblock)) [
        | inl fails ↦ rw fails (λ e. cc)
        | inr reads ↦ rw reads (
            and_then-fs_error (bitmap_modify_bits io sb mapblock offset len set) _
              (bitmap_modify_bits-fs_error sb mapblock offset len set)
              (λ sb'. modify_loop-unchecked rounds sb' (mapblock + 1) 0 (blocks - len) set))
      ]

-- Nor is there one where all the bits are in the state that the test accepts.
module _ (io : BlockIo) (test : List ℕ → ℕ → ℕ → Bool) (set : Bool)
    (accepts : Accepts test set) where
  pub modify_loop-lawful :
      (rounds : ℕ) (sb : Sb) (mapblock offset blocks : ℕ)
      → IsWf sb
      → offset < mapsize sb
      → rounds * mapsize sb < offset + blocks + mapsize sb
      → (0 < rounds → 0 < blocks)
      → ((b : ℕ)
          → mapblock * mapsize sb + offset ≤ b
          → b < mapblock * mapsize sb + offset + blocks
          → allocated sb b ≡ not set)
      → (modify_loop io test rounds sb mapblock offset blocks set).1 ≢ fs_error
  unfolding modify_loop
  modify_loop-lawful zero sb mapblock offset blocks w inside tight busy state = λ e. cc
  modify_loop-lawful (suc rounds) sb mapblock offset blocks w inside tight busy state =
      elim (Bool-cases (io.read_fails mapblock)) [
        | inl fails ↦ rw fails (λ e. cc)
        | inr reads ↦ elim (Option-cases (io.dirty_error mapblock)) [
          | inr (e, failed) ↦
              rw
                (
                  reads,
                  tested,
                  bitmap_modify_bits-errno io sb mapblock offset len e set some_len fits failed,
                )
                (λ e. cc)
          | inl clean ↦
              rw
                (
                  reads,
                  tested,
                  bitmap_modify_bits-ok io sb mapblock offset len set some_len fits clean,
                )
                (modify_loop-lawful rounds (modified sb mapblock offset len set) (mapblock + 1) 0
                  (blocks - len) (modified-IsWf sb mapblock offset len w some_len fits set)
                  (mapsize_pos sb) (omega arith) (λ h. omega (arith, mul-step 0 rounds m h))
                  (λ b lo hi. later b lo hi))
        ]
      ]
    where
      m : ℕ
      m = mapsize sb

      len : ℕ
      len = min (m - offset) blocks

      some_len : 0 < len
      some_len = omega (arith, busy)

      fits : offset + len ≤ m
      fits = omega arith

      tested : test (sb.bitmap mapblock) offset len ≡ true
      tested =
          accepts (sb.bitmap mapblock) offset len (omega (arith, w.word))
            λ i lo hi. ground (arith, allocated_at sb mapblock i, state (mapblock * m + i))

      later :
          (b : ℕ)
          → (mapblock + 1) * m + 0 ≤ b
          → b < (mapblock + 1) * m + 0 + (blocks - len)
          → allocated (modified sb mapblock offset len set) b ≡ not set
      later b lo hi =
          ground
            (arith, state b, (modified-Modified sb mapblock offset len w some_len fits set).bits b)
