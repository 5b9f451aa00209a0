-- ===== src/Log.antt =====
-- kernel/log.c: the log of a delta cycle. A log block is what `log_finish` leaves of it: the count of
-- bytes in its header, and its data up to the end of the block. The open block, `sb->logbuf`, is the
-- list of the bytes before `sb->logpos`.
pub mod Entry
pub mod Holds
pub mod Tests
use tux3_fuse.Prelude.{
  ℕ, ◌+◌, ◌-◌, ◌≤◌, ◌<◌, Bool, true, false, Option, none, some, List, [], ◌∷◌, ◌++◌, ltb, ◌==◌,
  if◌then◌else◌, length, replicate, ◌%◌, ◌^◌,
}
use tux3_fuse.Codec.{encode16, encode32, encode48}

pub record LogBlock : Type 0 where
  pub bytes : ℕ
  pub body : List ℕ

-- `space` is the block size less the header; `done` are the blocks of the cycle that are finished,
-- the first one first. `asserted` says that an assert has failed: the run stops there, and what the model has
-- from there on is the run without asserts.
pub record Log : Type 0 where
  pub space : ℕ
  pub done : List LogBlock
  pub logbuf : Option (List ℕ)
  pub asserted : Bool

-- the codes, LOG_BALLOC = 0x33 and up, and `log_size`
pub data Code : Type 0 where
  balloc bfree bfree_on_unify bfree_relog leaf_redirect leaf_free bnode_redirect bnode_root : Code
  bnode_split bnode_add bnode_update bnode_merge bnode_del bnode_adjust bnode_free : Code
  orphan_add orphan_del freeblocks unify delta : Code

abbrev pub code_of : Code → ℕ
code_of balloc = 0x33
code_of bfree = 0x34
code_of bfree_on_unify = 0x35
code_of bfree_relog = 0x36
code_of leaf_redirect = 0x37
code_of leaf_free = 0x38
code_of bnode_redirect = 0x39
code_of bnode_root = 0x3a
code_of bnode_split = 0x3b
code_of bnode_add = 0x3c
code_of bnode_update = 0x3d
code_of bnode_merge = 0x3e
code_of bnode_del = 0x3f
code_of bnode_adjust = 0x40
code_of bnode_free = 0x41
code_of orphan_add = 0x42
code_of orphan_del = 0x43
code_of freeblocks = 0x44
code_of unify = 0x45
code_of delta = 0x46

abbrev pub log_size : Code → ℕ
log_size balloc = 11
log_size bfree = 11
log_size bfree_on_unify = 11
log_size bfree_relog = 11
log_size leaf_redirect = 13
log_size leaf_free = 7
log_size bnode_redirect = 13
log_size bnode_root = 26
log_size bnode_split = 15
log_size bnode_add = 19
log_size bnode_update = 19
log_size bnode_merge = 13
log_size bnode_del = 15
log_size bnode_adjust = 19
log_size bnode_free = 7
log_size orphan_add = 9
log_size orphan_del = 9
log_size freeblocks = 7
log_size unify = 1
log_size delta = 1

-- `log_next` and the header that `log_begin` writes: an empty block
unfoldable pub log_next : Log → Log
log_next log = record log { logbuf = some [] }

abbrev pub finish_block : Log → Option (List ℕ) → Log
finish_block log none = log
finish_block log (some data_bytes) = record log {
  done =
      log.done
      ++ record {
        bytes = length data_bytes;
        body = data_bytes ++ replicate (log.space - length data_bytes) 0;
      }
        ∷ [];
  logbuf = none;
}

unfoldable pub log_finish : Log → Log
log_finish log = finish_block log log.logbuf

-- `log_finish_cycle` of a finished log: the next delta starts with no block.
unfoldable pub log_finish_cycle : Log → Log
log_finish_cycle log = record log { done = [] }

-- whether `logpos + bytes > logtop`, which holds too when there is no open block
abbrev pub lacks_room : ℕ → Option (List ℕ) → ℕ → Bool
lacks_room space none bytes = true
lacks_room space (some data_bytes) bytes = ltb space (length data_bytes + bytes)

unfoldable pub log_begin : Log → ℕ → Log
unfolding log_finish log_next
log_begin log bytes =
    if lacks_room log.space log.logbuf bytes then log_next (log_finish log) else log

-- what the callers of `log_begin` do: store at `logpos` and move it on
abbrev pub store : Option (List ℕ) → List ℕ → Option (List ℕ)
store none stored = none
store (some data_bytes) stored = some (data_bytes ++ stored)

unfoldable pub log_end : Log → List ℕ → Log
log_end log stored = record log { logbuf = store log.logbuf stored }

module _ (log : Log) (intent : Code) where
  unfoldable pub log_intent : Log
  unfolding log_begin log_end
  log_intent = log_end (log_begin log 1) (code_of intent ∷ [])

  unfoldable pub log_u48 : ℕ → Log
  unfolding log_begin log_end
  log_u48 v1 = log_end (log_begin log (log_size intent)) (code_of intent ∷ encode48 v1)

  unfoldable pub log_u16_u48 : ℕ → ℕ → Log
  unfolding log_begin log_end
  log_u16_u48 v1 v2 =
      log_end (log_begin log (log_size intent))
        (code_of intent ∷ encode16 (v1 % 2 ^ 16) ++ encode48 v2)

  unfoldable pub log_u32_u48 : ℕ → ℕ → Log
  unfolding log_begin log_end
  log_u32_u48 v1 v2 =
      log_end (log_begin log (log_size intent)) (code_of intent ∷ encode32 v1 ++ encode48 v2)

  unfoldable pub log_u48_u48 : ℕ → ℕ → Log
  unfolding log_begin log_end
  log_u48_u48 v1 v2 =
      log_end (log_begin log (log_size intent)) (code_of intent ∷ encode48 v1 ++ encode48 v2)

  unfoldable pub log_u16_u48_u48 : ℕ → ℕ → ℕ → Log
  unfolding log_begin log_end
  log_u16_u48_u48 v1 v2 v3 =
      log_end (log_begin log (log_size intent))
        (code_of intent ∷ encode16 (v1 % 2 ^ 16) ++ (encode48 v2 ++ encode48 v3))

  unfoldable pub log_u48_u48_u48 : ℕ → ℕ → ℕ → Log
  unfolding log_begin log_end
  log_u48_u48_u48 v1 v2 v3 =
      log_end (log_begin log (log_size intent))
        (code_of intent ∷ encode48 v1 ++ (encode48 v2 ++ encode48 v3))
