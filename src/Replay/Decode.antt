-- ===== src/Replay/Decode.antt =====
-- kernel/replay.c reads back what kernel/log.c stores, entry by entry.
use tux3_fuse.Prelude.{ℕ, ◌<◌, ◌≡◌, refl, some, List, ◌∷◌, ◌++◌, arith, drop, ◌%◌, ◌^◌}
use mathlib.Core.List.{append_assoc}
use tux3_fuse.Codec.{
  decode48, encode16, encode32, encode48, decode16-encode16, decode32-encode32, decode48-encode48,
}
use tux3_fuse.Log.{Code, code_of}
use tux3_fuse.Log.Entry.{Entry, stored, code, Fits}
use tux3_fuse.Replay.{
  decode48s, decode48s₃, decode16_48s, decode16_48, decode32_48, decode_entry, code_at,
}

-- what is stored behind the code
abbrev pub fields : Entry → List ℕ
fields e = drop 1 (stored e)

pub stored-fields : (e : Entry) → stored e ≡ code_of (code e) ∷ fields e
stored-fields (Entry.balloc block count) = refl
stored-fields (Entry.bfree block count) = refl
stored-fields (Entry.bfree_on_unify block count) = refl
stored-fields (Entry.bfree_relog block count) = refl
stored-fields (Entry.leaf_redirect oldblock newblock) = refl
stored-fields (Entry.leaf_free leaf) = refl
stored-fields (Entry.bnode_redirect oldblock newblock) = refl
stored-fields (Entry.bnode_root root count left right rkey) = refl
stored-fields (Entry.bnode_split src pos dst) = refl
stored-fields (Entry.bnode_add parent child key) = refl
stored-fields (Entry.bnode_update parent child key) = refl
stored-fields (Entry.bnode_merge src dst) = refl
stored-fields (Entry.bnode_del bnode key count) = refl
stored-fields (Entry.bnode_adjust bnode from to) = refl
stored-fields (Entry.bnode_free bnode) = refl
stored-fields (Entry.orphan_add version inum) = refl
stored-fields (Entry.orphan_del version inum) = refl
stored-fields (Entry.freeblocks count) = refl
stored-fields Entry.unify = refl
stored-fields Entry.delta = refl

pub code_at-code_of : (c : Code) → code_at (code_of c) ≡ some c
unfolding code_at
code_at-code_of Code.balloc = refl
code_at-code_of Code.bfree = refl
code_at-code_of Code.bfree_on_unify = refl
code_at-code_of Code.bfree_relog = refl
code_at-code_of Code.leaf_redirect = refl
code_at-code_of Code.leaf_free = refl
code_at-code_of Code.bnode_redirect = refl
code_at-code_of Code.bnode_root = refl
code_at-code_of Code.bnode_split = refl
code_at-code_of Code.bnode_add = refl
code_at-code_of Code.bnode_update = refl
code_at-code_of Code.bnode_merge = refl
code_at-code_of Code.bnode_del = refl
code_at-code_of Code.bnode_adjust = refl
code_at-code_of Code.bnode_free = refl
code_at-code_of Code.orphan_add = refl
code_at-code_of Code.orphan_del = refl
code_at-code_of Code.freeblocks = refl
code_at-code_of Code.unify = refl
code_at-code_of Code.delta = refl

mod-u16 : (v : ℕ) → v < 2 ^ 16 → v % 2 ^ 16 ≡ v
mod-u16 v h = omega arith

mod-u8 : (v : ℕ) → v < 2 ^ 8 → v % 2 ^ 8 ≡ v
mod-u8 v h = omega arith

module _ (rest : List ℕ) where
  read48 : (a : ℕ) → a < 2 ^ 48 → decode48 (encode48 a ++ rest) ≡ some (a, rest)
  read48 a h = decode48-encode48 a rest h

  read48s :
      (a b : ℕ)
      → a < 2 ^ 48
      → b < 2 ^ 48
      → decode48s ((encode48 a ++ encode48 b) ++ rest) ≡ some (a, b, rest)
  read48s a b h k =
      rw
        (
          append_assoc (encode48 a) (encode48 b) rest,
          decode48-encode48 a (encode48 b ++ rest) h,
          decode48-encode48 b rest k,
        )
        refl

  read32_48 :
      (a b : ℕ)
      → a < 2 ^ 32
      → b < 2 ^ 48
      → decode32_48 ((encode32 a ++ encode48 b) ++ rest) ≡ some (a, b, rest)
  read32_48 a b h k =
      rw
        (
          append_assoc (encode32 a) (encode48 b) rest,
          decode32-encode32 a (encode48 b ++ rest) h,
          decode48-encode48 b rest k,
        )
        refl

  read16_48 :
      (a b : ℕ)
      → a < 2 ^ 16
      → b < 2 ^ 48
      → decode16_48 ((encode16 (a % 2 ^ 16) ++ encode48 b) ++ rest) ≡ some (a, b, rest)
  read16_48 a b h k =
      rw
        (
          mod-u16 a h,
          append_assoc (encode16 a) (encode48 b) rest,
          decode16-encode16 a (encode48 b ++ rest) h,
          decode48-encode48 b rest k,
        )
        refl

read48s₃ :
    (rest : List ℕ) (a b c : ℕ)
    → a < 2 ^ 48
    → b < 2 ^ 48
    → c < 2 ^ 48
    → decode48s₃ ((encode48 a ++ (encode48 b ++ encode48 c)) ++ rest) ≡ some (a, b, c, rest)
read48s₃ rest a b c h k l =
    rw
      (
        append_assoc (encode48 a) (encode48 b ++ encode48 c) rest,
        decode48-encode48 a ((encode48 b ++ encode48 c) ++ rest) h,
        read48s rest b c k l,
      )
      refl

read16_48s :
    (rest : List ℕ) (a b c : ℕ)
    → a < 2 ^ 16
    → b < 2 ^ 48
    → c < 2 ^ 48
    → decode16_48s ((encode16 (a % 2 ^ 16) ++ (encode48 b ++ encode48 c)) ++ rest)
      ≡ some (a, b, c, rest)
read16_48s rest a b c h k l =
    rw
      (
        mod-u16 a h,
        append_assoc (encode16 a) (encode48 b ++ encode48 c) rest,
        decode16-encode16 a ((encode48 b ++ encode48 c) ++ rest) h,
        read48s rest b c k l,
      )
      refl

-- An entry whose arguments fit is read back, whatever follows it.
pub decode_entry-fields :
    (e : Entry) (rest : List ℕ) → Fits e → decode_entry (code e) (fields e ++ rest) ≡ some (e, rest)
unfolding decode_entry
decode_entry-fields (Entry.balloc block count) rest h = rw (read32_48 rest count block h.0 h.1) refl
decode_entry-fields (Entry.bfree block count) rest h = rw (read32_48 rest count block h.0 h.1) refl
decode_entry-fields (Entry.bfree_on_unify block count) rest h =
    rw (read32_48 rest count block h.0 h.1) refl
decode_entry-fields (Entry.bfree_relog block count) rest h =
    rw (read32_48 rest count block h.0 h.1) refl
decode_entry-fields (Entry.leaf_redirect oldblock newblock) rest h =
    rw (read48s rest oldblock newblock h.0 h.1) refl
decode_entry-fields (Entry.leaf_free leaf) rest h = rw (read48 rest leaf h) refl
decode_entry-fields (Entry.bnode_redirect oldblock newblock) rest h =
    rw (read48s rest oldblock newblock h.0 h.1) refl
decode_entry-fields (Entry.bnode_root root count left right rkey) rest h =
    rw
      (
        mod-u8 count h.1,
        append_assoc (encode48 root) (encode48 left ++ (encode48 right ++ encode48 rkey)) rest,
        append_assoc (encode48 left) (encode48 right ++ encode48 rkey) rest,
        decode48-encode48 root (encode48 left ++ ((encode48 right ++ encode48 rkey) ++ rest)) h.0,
        decode48-encode48 left ((encode48 right ++ encode48 rkey) ++ rest) h.2,
        read48s rest right rkey h.3 h.4,
      )
      refl
decode_entry-fields (Entry.bnode_split src pos dst) rest h =
    rw (read16_48s rest pos src dst h.0 h.1 h.2) refl
decode_entry-fields (Entry.bnode_add parent child key) rest h =
    rw (read48s₃ rest parent child key h.0 h.1 h.2) refl
decode_entry-fields (Entry.bnode_update parent child key) rest h =
    rw (read48s₃ rest parent child key h.0 h.1 h.2) refl
decode_entry-fields (Entry.bnode_merge src dst) rest h = rw (read48s rest src dst h.0 h.1) refl
decode_entry-fields (Entry.bnode_del bnode key count) rest h =
    rw (read16_48s rest count bnode key h.0 h.1 h.2) refl
decode_entry-fields (Entry.bnode_adjust bnode from to) rest h =
    rw (read48s₃ rest bnode from to h.0 h.1 h.2) refl
decode_entry-fields (Entry.bnode_free bnode) rest h = rw (read48 rest bnode h) refl
decode_entry-fields (Entry.orphan_add version inum) rest h =
    rw (read16_48 rest version inum h.0 h.1) refl
decode_entry-fields (Entry.orphan_del version inum) rest h =
    rw (read16_48 rest version inum h.0 h.1) refl
decode_entry-fields (Entry.freeblocks count) rest h = rw (read48 rest count h) refl
decode_entry-fields Entry.unify rest h = refl
decode_entry-fields Entry.delta rest h = refl
