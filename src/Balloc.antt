-- ===== src/Balloc.antt =====
-- kernel/balloc.c: the block allocator over the bitmap file. The file is a function from the number of
-- a bitmap block to its bytes. What the buffer layer does is a parameter: which bitmap blocks
-- `blockread` cannot read, and the error that `blockdirty` returns for one.
pub mod Range
pub mod Modify
pub mod Loop
pub mod Succeeds
pub mod Results
pub mod Alloc
mod Tests
use tux3_fuse.Prelude.{
  ◌≢◌, ℕ, zero, suc, ◌+◌, ◌-◌, ◌*◌, ◌/◌, ◌%◌, ◌^◌, Bool, true, false, Option, none, some, List, ltb,
  leb, ◌==◌, if◌then◌else◌, min, ◌&&◌, ◌||◌, not,
}
use tux3_fuse.Bitmap.{set_bits, clear_bits, test_bit}
use tux3_fuse.Bitmap.Search.{BitSearch, all_set, all_clear}

-- The fields of `struct sb` that the allocator uses. `freeblocks` is its pattern of 64 bits.
pub record Sb : Type 0 where
  pub blockbits : ℕ
  pub volblocks : ℕ
  pub freeblocks : ℕ
  pub nextblock : ℕ
  pub bitmap : ℕ → List ℕ

abbrev pub eagain : ℕ
eagain = 11

-- `no_eagain` is what the comment in bitmap_modify_bits says of blockdirty.
pub record BlockIo : Type 0 where
  pub read_fails : ℕ → Bool
  pub dirty_error : ℕ → Option ℕ
  pub no_eagain : (b : ℕ) → dirty_error b ≢ some eagain

-- A return value; `panic` is a failed assert, and `fs_error` a call of tux3_fs_error, which stops the run too.
pub data Ret : Type 0 where
  ok eio enospc panic fs_error : Ret
  errno : ℕ → Ret

abbrev pub mapsize : Sb → ℕ
mapsize sb = 2 ^ (sb.blockbits + 3)

abbrev pub blocksize : Sb → ℕ
blocksize sb = 2 ^ sb.blockbits

-- `freeblocks -= n` and `freeblocks += n`
abbrev pub sub64 : ℕ → ℕ → ℕ
sub64 a b = (a + 2 ^ 64 - b) % 2 ^ 64

abbrev pub add64 : ℕ → ℕ → ℕ
add64 a b = (a + b) % 2 ^ 64

abbrev pub update : (ℕ → List ℕ) → ℕ → List ℕ → ℕ → List ℕ
update f at v i = if i == at then v else f i

abbrev pub modify : Bool → List ℕ → ℕ → ℕ → List ℕ
modify set p offset blocks = if set then set_bits p offset blocks else clear_bits p offset blocks

-- `test`
abbrev pub expected : BitSearch → Bool → List ℕ → ℕ → ℕ → Bool
expected search set p offset len =
    if set then all_clear search p offset len else all_set search p offset len

-- `mapblocks - (start >> mapshift)`
abbrev pub rounds_of : Sb → ℕ → ℕ → ℕ
rounds_of sb start blocks = (start + blocks + (mapsize sb - 1)) / mapsize sb - start / mapsize sb

-- go on after a call that succeeded; `if (err) return err`
infixl 5 ◌and_then◌
abbrev pub ◌and_then◌ : Sb × Ret → (Sb → Sb × Ret) → Sb × Ret
(sb, ok) and_then k = k sb
(sb, e) and_then k = (sb, e)

module _ (io : BlockIo) where
  unfoldable pub bitmap_modify_bits : Sb → ℕ → ℕ → ℕ → Bool → Sb × Ret
  bitmap_modify_bits sb mapblock offset blocks set =
      if blocks == 0 || ltb (blocksize sb * 8) (offset + blocks)
      then (sb, panic)
      else elim (io.dirty_error mapblock) [
        | some e ↦ if e == eagain then (sb, panic) else (sb, errno e)
        | none ↦ (
          record sb {
            bitmap = update sb.bitmap mapblock (modify set (sb.bitmap mapblock) offset blocks);
            freeblocks = if set then sub64 sb.freeblocks blocks else add64 sb.freeblocks blocks;
          },
          ok,
        )
      ]

  -- The rounds of the two loops: what a bitmap block must pass before it is modified is `test`.
  unfoldable pub modify_loop : (List ℕ → ℕ → ℕ → Bool) → ℕ → Sb → ℕ → ℕ → ℕ → Bool → Sb × Ret
  modify_loop test zero sb mapblock mapoffset blocks set = (sb, ok)
  modify_loop test (suc rounds) sb mapblock mapoffset blocks set =
      let len = min (mapsize sb - mapoffset) blocks in
      if io.read_fails mapblock
      then (sb, eio)
      else if test (sb.bitmap mapblock) mapoffset len
      then bitmap_modify_bits sb mapblock mapoffset len set
        and_then (λ sb'. modify_loop test rounds sb' (mapblock + 1) 0 (blocks - len) set)
      else (sb, fs_error)

  unfoldable pub bitmap_modify : Sb → ℕ → ℕ → Bool → Sb × Ret
  bitmap_modify sb start blocks set =
      if blocks == 0 || ltb sb.volblocks (start + blocks)
      then (sb, panic)
      else modify_loop (λ p offset len. true) (rounds_of sb start blocks) sb (start / mapsize sb)
          (start % mapsize sb) blocks set

  module _ (search : BitSearch) where
    unfoldable pub bitmap_test_and_modify : Sb → ℕ → ℕ → Bool → Sb × Ret
    bitmap_test_and_modify sb start blocks set =
        if blocks == 0 || ltb sb.volblocks (start + blocks)
        then (sb, panic)
        else modify_loop (expected search set) (rounds_of sb start blocks) sb (start / mapsize sb)
            (start % mapsize sb) blocks set

    unfoldable pub bfree : Sb → ℕ → ℕ → Sb × Ret
    unfolding bitmap_test_and_modify
    bfree sb start blocks = bitmap_test_and_modify sb start blocks false

    unfoldable pub replay_update_bitmap : Sb → ℕ → ℕ → Bool → Sb × Ret
    unfolding bitmap_test_and_modify
    replay_update_bitmap sb start blocks set = bitmap_test_and_modify sb start blocks set

-- whether a block of the volume is in use
abbrev pub allocated : Sb → ℕ → Bool
allocated sb b = test_bit (sb.bitmap (b / mapsize sb)) (b % mapsize sb)
