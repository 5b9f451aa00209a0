-- ===== src/Balloc/Loop.antt =====
-- kernel/balloc.c: the loops of `bitmap_modify` and `bitmap_test_and_modify`, on every path.
use tux3_fuse.Prelude.{
  ◌⊎◌, ℕ, zero, suc, ◌+◌, ◌-◌, ◌*◌, ◌%◌, ◌^◌, ◌≤◌, ◌<◌, ◌≡◌, ◌≢◌, refl, ap, ◌∙◌, Bool, true, false,
  not, ◌||◌, inl, inr, Bool-cases, Option-cases, none, some, List, min, arith, ◌==◌, leb, ltb,
}
use tux3_fuse.Prelude.Division.{mul-step}
use tux3_fuse.Bitmap.{test_bit}
use tux3_fuse.Balloc.{
  Sb, BlockIo, Ret, ok, eio, enospc, panic, fs_error, eagain, errno, mapsize, blocksize,
  bitmap_modify_bits, modify_loop, allocated,
}
use tux3_fuse.Balloc.Range.{in_range-block}
use tux3_fuse.Balloc.Modify.{
  modified-IsWf, Modified-move, IsWf, Modified, Modified-none, Modified-trans, modified,
  modified-Modified, mapsize_bytes, mapsize_pos,
}

-- A test that accepts a range only if all its bits are the opposite of what will be written.
abbrev pub Checks : (List ℕ → ℕ → ℕ → Bool) → Bool → Sb → Type 0
Checks test set sb =
    (p : List ℕ) (offset len i : ℕ)
    → test p offset len ≡ true
    → offset + len ≤ mapsize sb
    → offset ≤ i
    → i < offset + len
    → test_bit p i ≡ not set

-- What the loop leaves behind: `n` blocks from `lo` on are done, all of them on success.
pub record Progress (test : List ℕ → ℕ → ℕ → Bool) (sb sb' : Sb) (err : Ret) (set : Bool)
    (lo blocks n : ℕ) : Type 0 where
  pub bound : n ≤ blocks
  pub done : Modified sb sb' set lo n
  pub complete : err ≡ ok → n ≡ blocks
  pub sound : err ≢ panic
  pub not_full : err ≢ enospc
  pub was : Checks test set sb → (b : ℕ) → lo ≤ b → b < lo + n → allocated sb b ≡ not set

pub bitmap_modify_bits-ok :
    (io : BlockIo) (sb : Sb) (mapblock offset blocks : ℕ) (set : Bool)
    → 0 < blocks
    → offset + blocks ≤ mapsize sb
    → io.dirty_error mapblock ≡ none
    → bitmap_modify_bits io sb mapblock offset blocks set
      ≡ (modified sb mapblock offset blocks set, ok)
unfolding bitmap_modify_bits
bitmap_modify_bits-ok io sb mapblock offset blocks set some_blocks fits e = rw (guard, e) refl
  where
    guard : ((blocks == 0) || ltb (blocksize sb * 8) (offset + blocks)) ≡ false
    guard = ground (arith, mapsize_bytes sb)

pub bitmap_modify_bits-errno :
    (io : BlockIo) (sb : Sb) (mapblock offset blocks e : ℕ) (set : Bool)
    → 0 < blocks
    → offset + blocks ≤ mapsize sb
    → io.dirty_error mapblock ≡ some e
    → bitmap_modify_bits io sb mapblock offset blocks set ≡ (sb, errno e)
unfolding bitmap_modify_bits
bitmap_modify_bits-errno io sb mapblock offset blocks e set some_blocks fits h =
    rw (guard, h, other) refl
  where
    other : (e == eagain) ≡ false
    other = elim (Bool-cases (e == eagain)) [
      | inl same ↦
          let e' : e ≡ eagain = ground (arith, same) in
          absurd (io.no_eagain mapblock (h ∙ ap some e'))
      | inr different ↦ different
    ]

    guard : ((blocks == 0) || ltb (blocksize sb * 8) (offset + blocks)) ≡ false
    guard = ground (arith, mapsize_bytes sb)

stopped :
    (test : List ℕ → ℕ → ℕ → Bool) (sb : Sb) (err : Ret) (set : Bool) (lo blocks : ℕ)
    → IsWf sb
    → (err ≡ ok → ⊥)
    → err ≢ panic
    → err ≢ enospc
    → Progress test sb sb err set lo blocks 0
stopped test sb err set lo blocks w bad calm other = record {
  bound = omega arith;
  done = Modified-none sb set lo w;
  complete = λ e. absurd (bad e);
  sound = calm;
  not_full = other;
  was = λ c b h k. absurd (omega arith);
}

module _ (io : BlockIo) (test : List ℕ → ℕ → ℕ → Bool) (set : Bool) where
  abbrev outcome : ℕ → Sb → ℕ → ℕ → ℕ → Sb × Ret
  outcome rounds sb mapblock offset blocks =
      modify_loop io test rounds sb mapblock offset blocks set

  joined :
      (sb sb' : Sb) (err : Ret) (mapblock offset blocks n : ℕ)
      → IsWf sb
      → offset < mapsize sb
      → blocks < 2 ^ 32
      → 0 < blocks
      → test (sb.bitmap mapblock) offset (min (mapsize sb - offset) blocks) ≡ true
      → Progress test
          (modified sb mapblock offset (min (mapsize sb - offset) blocks) set)
          sb'
          err
          set
          ((mapblock + 1) * mapsize sb + 0)
          (blocks - min (mapsize sb - offset) blocks)
          n
      → Progress test sb sb' err set
          (mapblock * mapsize sb + offset)
          blocks
          (min (mapsize sb - offset) blocks + n)
  joined sb sb' err mapblock offset blocks n w inside small some_blocks tested p = record {
    bound = omega (arith, p.bound);
    done =
        Modified-trans sb (modified sb mapblock offset len set) sb' set lo len n
          (omega (arith, p.bound)) w.pattern first second;
    complete = λ e. omega (arith, p.complete e, p.bound);
    sound = p.sound;
    not_full = p.not_full;
    was = λ c b h k. ground (
      arith,
      first.bits b,
      p.was c b,
      p.bound,
      in_range-block m mapblock offset (offset + len) b (mapsize_pos sb),
      c (sb.bitmap mapblock) offset len (b % m) tested,
    );
  }
    where
      m : ℕ
      m = mapsize sb

      len : ℕ
      len = min (m - offset) blocks

      lo : ℕ
      lo = mapblock * m + offset

      first : Modified sb (modified sb mapblock offset len set) set lo len
      first = modified-Modified sb mapblock offset len w (omega arith) (omega arith) set

      place : (n ≡ 0) ⊎ ((mapblock + 1) * m + 0 ≡ lo + len)
      place = elim (Bool-cases (leb blocks (m - offset))) [
        | inl last ↦ inl (ground (arith, p.bound))
        | inr more ↦ inr (ground arith)
      ]

      second : Modified (modified sb mapblock offset len set) sb' set (lo + len) n
      second =
          Modified-move (modified sb mapblock offset len set) sb' set ((mapblock + 1) * m + 0)
            (lo + len) n place p.done

  -- Each round of the loop either does its blocks or stops with an error that left the rest alone.
  pub modify_loop-Progress :
      (rounds : ℕ) (sb : Sb) (mapblock offset blocks : ℕ)
      → IsWf sb
      → offset < mapsize sb
      → blocks < 2 ^ 32
      → offset + blocks ≤ rounds * mapsize sb
      → rounds * mapsize sb < offset + blocks + mapsize sb
      → (0 < rounds → 0 < blocks)
      → (n : ℕ) × Progress test sb
          (outcome rounds sb mapblock offset blocks).0
          (outcome rounds sb mapblock offset blocks).1
          set
          (mapblock * mapsize sb + offset)
          blocks
          n
  unfolding modify_loop
  modify_loop-Progress zero sb mapblock offset blocks w inside small enough tight busy = (
    0,
    record {
      bound = omega arith;
      done = Modified-none sb set _ w;
      complete = λ e. omega arith;
      sound = λ e. cc;
      not_full = λ e. cc;
      was = λ c b h k. absurd (omega arith);
    },
  )
  modify_loop-Progress (suc rounds) sb mapblock offset blocks w inside small enough tight busy =
      elim (Bool-cases (io.read_fails mapblock)) [
        | inl fails ↦ rw fails (0, stopped test sb eio set _ blocks w (λ e. cc) (λ e. cc) (λ e. cc))
        | inr reads ↦ elim (Bool-cases (test (sb.bitmap mapblock) offset len)) [
          | inr refused ↦
              rw (reads, refused)
                (0, stopped test sb fs_error set _ blocks w (λ e. cc) (λ e. cc) (λ e. cc))
          | inl tested ↦ elim (Option-cases (io.dirty_error mapblock)) [
            | inr (e, failed) ↦
                rw
                  (
                    reads,
                    tested,
                    bitmap_modify_bits-errno io sb mapblock offset len e set (ground arith)
                        (ground arith) failed,
                  )
                  (0, stopped test sb (errno e) set _ blocks w (λ e. cc) (λ e. cc) (λ e. cc))
            | inl clean ↦
                rw
                  (
                    reads,
                    tested,
                    bitmap_modify_bits-ok io sb mapblock offset len set (ground arith)
                        (ground arith) clean,
                  )
                  (let (n, p) =
                      modify_loop-Progress rounds (modified sb mapblock offset len set)
                        (mapblock + 1) 0 (blocks - len)
                        (modified-IsWf sb mapblock offset len w (ground arith) (ground arith) set)
                        (mapsize_pos sb) (omega arith) (omega arith) (omega arith)
                        (λ h. omega (arith, mul-step 0 rounds m h)) in
                    (
                      len + n,
                      joined sb _ _ mapblock offset blocks n w inside small (busy (omega arith))
                          tested p,
                    ))
          ]
        ]
      ]
    where
      m : ℕ
      m = mapsize sb

      len : ℕ
      len = min (m - offset) blocks
