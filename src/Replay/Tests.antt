-- ===== src/Replay/Tests.antt =====
-- Replay of a cycle, with handlers that write down the blocks they are called for.
use tux3_fuse.Prelude.{
  true, ℕ, ◌+◌, ◌≡◌, refl, ap, Option, none, List, [], ◌∷◌, ◌++◌, arith, length, length-append,
  replicate, ◌-◌,
}
use tux3_fuse.Log.{LogBlock, log_finish}
use tux3_fuse.Log.Entry.{Entry, stored, length-stored}
use tux3_fuse.Log.Holds.{BlockHolds, bytes_of, empty_log, log_calls}
use tux3_fuse.Log.Tests.{cycle}
use tux3_fuse.Replay.{
  Handlers, done, Found, replay_check_log, replay_log_stage1, replay_logblocks, stage1_acts,
  stage1_case, stage2_acts, stage2_case,
}
use tux3_fuse.Replay.Loop.{AllFit, run_entries}
use tux3_fuse.Replay.Blocks.{blocks_of, replay_logblocks-log_calls}
use tux3_fuse.Replay.Check.{IsNoted, replay_check_log-holds}

abbrev note : ℕ → List ℕ → List ℕ × Option ℕ
note block s = (s ++ block ∷ [], none)

abbrev notes : Handlers (List ℕ)
notes = record {
  bnode_redirect = λ oldblock newblock. note newblock;
  bnode_root = λ root count left right rkey. note root;
  bnode_split = λ src pos dst. note dst;
  bnode_add = λ parent child key. note parent;
  bnode_update = λ parent child key. note parent;
  bnode_merge = λ src dst. note src;
  bnode_del = λ bnode key count. note bnode;
  bnode_adjust = λ bnode from to. note bnode;
  set_freeblocks = λ count s. s ++ count ∷ [];
  update_bitmap = λ start blocks set. note start;
  defer_bfree = λ block count s. s ++ block ∷ [];
  blockput_free_unify = λ block s. s ++ block ∷ [];
  orphan_add = λ version inum. note inum;
  orphan_del = λ version inum. note inum;
}

abbrev cycle-AllFit : AllFit cycle
cycle-AllFit = (
  (omega arith, omega arith),
  (
    (omega arith, omega arith, omega arith, omega arith, omega arith),
    ((omega arith, omega arith), (tt, tt)),
  ),
)

-- a log block at each address from `blocknr` on
abbrev pub placed : ℕ → List LogBlock → List (ℕ × LogBlock)
placed blocknr [] = []
placed blocknr (b ∷ bs) = (blocknr, b) ∷ placed (blocknr + 1) bs

pub blocks_of-placed : (blocknr : ℕ) (bs : List LogBlock) → blocks_of (placed blocknr bs) ≡ bs
blocks_of-placed blocknr [] = refl
blocks_of-placed blocknr (b ∷ bs) =
    ap (λ (t : List LogBlock). b ∷ t) (blocks_of-placed (blocknr + 1) bs)

abbrev cycle_blocks : List (ℕ × LogBlock)
cycle_blocks = placed 40 (log_finish (log_calls (empty_log 26) cycle)).done

-- stage 2 sees the allocation, the new root and the freed block
stage2_notes : run_entries stage2_acts (stage2_case notes) cycle [] ≡ (5 ∷ 9 ∷ 5 ∷ [], done)
unfolding run_entries stage2_case
stage2_notes = refl

replay_logblocks-log_calls_example :
    replay_logblocks
      (replay_log_stage1 notes (record { unify_index = none; unify_pos = 0 }))
      0
      cycle_blocks
      []
    ≡ run_entries stage1_acts (stage1_case notes) cycle []
replay_logblocks-log_calls_example =
    replay_logblocks-log_calls notes 0 26 cycle cycle_blocks [] (omega arith) cycle-AllFit
      (blocks_of-placed 40 _)

abbrev small : List Entry
small = Entry.balloc 5 3 ∷ Entry.unify ∷ []

abbrev small_block : LogBlock
small_block = record {
  bytes = length (bytes_of small);
  body = bytes_of small ++ replicate (26 - length (bytes_of small)) 0;
}

small-BlockHolds : BlockHolds 26 small_block small
small-BlockHolds = record {
  counts = refl;
  leads = refl;
  fits = omega (
    arith,
    length-stored (Entry.balloc 5 3),
    length-append (stored (Entry.balloc 5 3)) (bytes_of (Entry.unify ∷ [])),
  );
}

abbrev not_found : Found
not_found = record { unify_index = none; unify_pos = 0 }

replay_check_log-holds_example :
    (after : Found) × (replay_check_log 26 true 2 small_block not_found ≡ (after, done))
    × IsNoted 2 small not_found after
replay_check_log-holds_example =
    replay_check_log-holds 26 2 small_block small not_found small-BlockHolds
