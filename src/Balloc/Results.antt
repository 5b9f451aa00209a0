-- ===== src/Balloc/Results.antt =====
-- kernel/balloc.c: what `bitmap_modify`, `bitmap_test_and_modify` and `bfree` do, for every outcome.
use tux3_fuse.Prelude.{
  sym, ℕ, ◌+◌, ◌-◌, ◌*◌, ◌/◌, ◌%◌, ◌^◌, ◌≤◌, ◌<◌, ◌≡◌, ◌≢◌, subst, Bool, true, false, not, List,
  arith, ◌==◌, ltb, ◌||◌,
}
use tux3_fuse.Prelude.Division.{sub-mul-add, mul-step, div-mod-eq, mod-lt}
use tux3_fuse.Bitmap.Search.{BitSearch, all_set_iff, all_clear_iff}
use tux3_fuse.Balloc.{
  Sb, BlockIo, Ret, ok, enospc, panic, fs_error, mapsize, allocated, modify_loop, rounds_of,
  bitmap_modify, bitmap_test_and_modify, expected,
}
use tux3_fuse.Balloc.Modify.{IsWf, Modified, mapsize_pos}
use tux3_fuse.Balloc.Loop.{Progress, Checks, modify_loop-Progress}
use tux3_fuse.Balloc.Succeeds.{
  IsClean, Accepts, modify_loop-ok, modify_loop-unchecked, modify_loop-lawful,
}

-- `n` of the `blocks` from `start` on are marked and counted, all of them on success; no assert fails.
pub record Applied (sb sb' : Sb) (err : Ret) (set : Bool) (start blocks n : ℕ) : Type 0 where
  pub bound : n ≤ blocks
  pub done : Modified sb sb' set start n
  pub complete : err ≡ ok → n ≡ blocks
  pub sound : err ≢ panic
  pub not_full : err ≢ enospc

guard :
    (sb : Sb) (start blocks : ℕ)
    → 0 < blocks
    → start + blocks ≤ sb.volblocks
    → ((blocks == 0) || ltb sb.volblocks (start + blocks)) ≡ false
guard sb start blocks h k = ground arith

-- The loop has as many rounds as the range has bitmap blocks.
rounds_facts :
    (start blocks m : ℕ)
    → 0 < m
    → let rounds = (start + blocks + (m - 1)) / m - start / m in
      (start % m + blocks ≤ rounds * m) × (rounds * m < start % m + blocks + m)
rounds_facts start blocks m h = ground (
  arith,
  div-mod-eq start m h,
  mod-lt start m h,
  div-mod-eq (start + blocks + (m - 1)) m h,
  mod-lt (start + blocks + (m - 1)) m h,
  sub-mul-add ((start + blocks + (m - 1)) / m) (start / m) m,
  mul-step ((start + blocks + (m - 1)) / m) (start / m) m,
)

expected-Checks :
    (search : BitSearch) (set : Bool) (sb : Sb) → IsWf sb → Checks (expected search set) set sb
expected-Checks search true sb w p offset len i h fits lo hi =
    (all_clear_iff search p offset len (omega (arith, w.word))).0 h i lo hi
expected-Checks search false sb w p offset len i h fits lo hi =
    (all_set_iff search p offset len (omega (arith, w.word))).0 h i lo hi

expected-Accepts : (search : BitSearch) (set : Bool) → Accepts (expected search set) set
expected-Accepts search true p offset len small clear =
    (all_clear_iff search p offset len small).1 clear
expected-Accepts search false p offset len small held =
    (all_set_iff search p offset len small).1 held

module _ (io : BlockIo) (sb : Sb) (start blocks : ℕ) (set : Bool) (w : IsWf sb)
    (positive : 0 < blocks) (word : blocks < 2 ^ 32) (inside : start + blocks ≤ sb.volblocks) where
  facts :
      (start % mapsize sb + blocks ≤ rounds_of sb start blocks * mapsize sb)
      × (rounds_of sb start blocks * mapsize sb < start % mapsize sb + blocks + mapsize sb)
  facts = rounds_facts start blocks (mapsize sb) (mapsize_pos sb)

  here : start ≡ start / mapsize sb * mapsize sb + start % mapsize sb
  here = div-mod-eq start (mapsize sb) (mapsize_pos sb)

  abbrev whole : (List ℕ → ℕ → ℕ → Bool) → Sb × Ret
  whole test =
      modify_loop io test (rounds_of sb start blocks) sb (start / mapsize sb) (start % mapsize sb)
        blocks set

  whole-Progress :
      (test : List ℕ → ℕ → ℕ → Bool)
      → (n : ℕ) × Progress test sb (whole test).0 (whole test).1 set start blocks n
  whole-Progress test =
      subst (λ at. (n : ℕ) × Progress test sb (whole test).0 (whole test).1 set at blocks n)
        (sym here)
        (modify_loop-Progress io test set (rounds_of sb start blocks) sb (start / mapsize sb)
          (start % mapsize sb) blocks w (mod-lt start (mapsize sb) (mapsize_pos sb)) word facts.0
          facts.1 (λ h. positive))

  whole-ok :
      (test : List ℕ → ℕ → ℕ → Bool)
      → IsClean io
      → Accepts test set
      → ((b : ℕ) → start ≤ b → b < start + blocks → allocated sb b ≡ not set)
      → (whole test).1 ≡ ok
  whole-ok test clean accepts state =
      modify_loop-ok io clean test set accepts (rounds_of sb start blocks) sb (start / mapsize sb)
        (start % mapsize sb) blocks w (mod-lt start (mapsize sb) (mapsize_pos sb)) facts.1
        (λ h. positive) (λ b lo hi. state b (omega (arith, here)) (omega (arith, here)))

  whole-lawful :
      (test : List ℕ → ℕ → ℕ → Bool)
      → Accepts test set
      → ((b : ℕ) → start ≤ b → b < start + blocks → allocated sb b ≡ not set)
      → (whole test).1 ≢ fs_error
  whole-lawful test accepts state =
      modify_loop-lawful io test set accepts (rounds_of sb start blocks) sb (start / mapsize sb)
        (start % mapsize sb) blocks w (mod-lt start (mapsize sb) (mapsize_pos sb)) facts.1
        (λ h. positive) (λ b lo hi. state b (omega (arith, here)) (omega (arith, here)))

  -- On a well-formed map and a range of the volume, `bitmap_modify` marks (or clears) the first `n` blocks of the
  -- range and no other, adjusts the count of free blocks by `n`, and keeps the rest; `n` is the whole
  -- range when it returns 0. No assert fails, and tux3_fs_error is not called.
  pub bitmap_modify-Applied :
      (n : ℕ) × Applied sb
        (bitmap_modify io sb start blocks set).0
        (bitmap_modify io sb start blocks set).1
        set
        start
        blocks
        n
      × ((bitmap_modify io sb start blocks set).1 ≢ fs_error)
  unfolding bitmap_modify
  bitmap_modify-Applied = rw (guard sb start blocks positive inside) (
      let (n, p) = whole-Progress (λ a b c. true) in
      (
        n,
        record {
          bound = p.bound;
          done = p.done;
          complete = p.complete;
          sound = p.sound;
          not_full = p.not_full;
        },
        modify_loop-unchecked io (rounds_of sb start blocks) sb (start / mapsize sb)
            (start % mapsize sb) blocks set,
      ))

  module _ (search : BitSearch) where
    -- On a well-formed map and a range of the volume, `bitmap_test_and_modify` marks (or clears) the first `n`
    -- blocks of the range and no other, adjusts the count of free blocks by `n`, and keeps the rest; `n` is the
    -- whole range when it returns 0, and no assert fails but the one in tux3_fs_error. Every block that it
    -- changes was in the opposite state, so that a range with a block in another state (a double free) never
    -- gets a success; and tux3_fs_error is called only for a range with such a block.
    pub bitmap_test_and_modify-Applied :
        (n : ℕ) × Applied sb
          (bitmap_test_and_modify io search sb start blocks set).0
          (bitmap_test_and_modify io search sb start blocks set).1
          set
          start
          blocks
          n
        × ((b : ℕ) → start ≤ b → b < start + n → allocated sb b ≡ not set)
        × (((b : ℕ) → start ≤ b → b < start + blocks → allocated sb b ≡ not set)
            → (bitmap_test_and_modify io search sb start blocks set).1 ≢ fs_error)
    unfolding bitmap_test_and_modify
    bitmap_test_and_modify-Applied = rw (guard sb start blocks positive inside) (
        let (n, p) = whole-Progress (expected search set) in
        (
          n,
          record {
            bound = p.bound;
            done = p.done;
            complete = p.complete;
            sound = p.sound;
            not_full = p.not_full;
          },
          p.was (expected-Checks search set sb w),
          whole-lawful (expected search set) (expected-Accepts search set),
        ))

    -- When the whole range is in the opposite state and the bitmap can be read and dirtied,
    -- `bitmap_test_and_modify` succeeds.
    pub bitmap_test_and_modify-ok :
        IsClean io
        → ((b : ℕ) → start ≤ b → b < start + blocks → allocated sb b ≡ not set)
        → (bitmap_test_and_modify io search sb start blocks set).1 ≡ ok
    unfolding bitmap_test_and_modify
    bitmap_test_and_modify-ok clean state =
        rw (guard sb start blocks positive inside)
          (whole-ok (expected search set) clean (expected-Accepts search set) state)
