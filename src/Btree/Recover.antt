-- ===== src/Btree/Recover.antt =====
-- kernel/replay.c with kernel/btree.c: stage 1 of the replay over log blocks, with the replay calls of the
-- btree in its interface.
mod Tests
use tux3_fuse.Prelude.{
  ℕ, zero, suc, ◌≤◌, ◌<◌, ◌≡◌, refl, ap, ◌∙◌, sym, subst, Bool, true, false, Option, none, some,
  List, [], ◌∷◌, length, arith,
}
use tux3_fuse.Log.{log_finish, LogBlock}
use tux3_fuse.Log.Entry.{Entry, code}
use tux3_fuse.Log.Holds.{log_calls, empty_log}
use tux3_fuse.Replay.{
  Handlers, Found, Result, done, replay_log_stage1, replay_logblocks, stage1_acts, stage1_case,
  after_case,
}
use tux3_fuse.Replay.Loop.{AllFit, run_entries}
use tux3_fuse.Replay.Blocks.{blocks_of, replay_logblocks-log_calls}
use tux3_fuse.Btree.{Node}
use tux3_fuse.Btree.Cursor.{Path_}
use tux3_fuse.Btree.Cursor.Order.{Hangs}
use tux3_fuse.Btree.Insert.{
  Insertion, no_block, inserted, insert_leaf, replay_entry, replay_entries, then_replay,
}
use tux3_fuse.Btree.Insert.Fits.{AreApart}
use tux3_fuse.Btree.Insert.Replayed.{IsReplayed, insert_leaf-IsReplayed}

-- What stage 1 changes; `asserted` is a failed assert, which ends the replay.
pub record Volume : Type 0 where
  pub nodes : ℕ → Node
  pub freeblocks : ℕ
  pub asserted : Bool

abbrev pub of_call : Volume → Option ((ℕ → Node) × Option ℕ) → Volume × Option ℕ
of_call v none = (record v { asserted = true }, some 0)
of_call v (some (nodes, e)) = (record v { nodes = nodes }, e)

module _ (fails read_fails : ℕ → Bool) (entries_per_node : ℕ) (stage2 : Handlers Volume) where
  abbrev pub call : Entry → Volume → Volume × Option ℕ
  call e v = of_call v (replay_entry fails read_fails entries_per_node v.nodes e)

  -- The calls of stage 1, beside those of stage 2.
  abbrev pub btree_handlers : Handlers Volume
  btree_handlers = record stage2 {
    bnode_redirect = λ oldblock newblock. call (Entry.bnode_redirect oldblock newblock);
    bnode_root = λ root count left right rkey. call (Entry.bnode_root root count left right rkey);
    bnode_split = λ src pos dst. call (Entry.bnode_split src pos dst);
    bnode_add = λ parent child key. call (Entry.bnode_add parent child key);
    bnode_update = λ parent child key. call (Entry.bnode_update parent child key);
    bnode_merge = λ src dst. call (Entry.bnode_merge src dst);
    bnode_del = λ bnode key count. call (Entry.bnode_del bnode key count);
    bnode_adjust = λ bnode from to. call (Entry.bnode_adjust bnode from to);
    set_freeblocks = λ count v. record v { freeblocks = count };
  }

  abbrev run : List Entry → Volume → Volume × Result
  run = run_entries stage1_acts (stage1_case btree_handlers)

  -- The pass went through, and left these nodes.
  abbrev pub HasNodes : (ℕ → Node) → Volume × Result → Type 0
  HasNodes nodes (v, r) = (v.nodes ≡ nodes) × (r ≡ done)

  call-HasNodes :
      (es : List Entry) (nodes : ℕ → Node) (v : Volume) (r : Option ((ℕ → Node) × Option ℕ))
      → then_replay fails read_fails entries_per_node
          (replay_entries fails read_fails entries_per_node es)
          r
        ≡ some (nodes, none)
      → ((v' : Volume)
          → replay_entries fails read_fails entries_per_node es v'.nodes ≡ some (nodes, none)
          → HasNodes nodes (run es v'))
      → HasNodes nodes (after_case (run es) (of_call v r))
  call-HasNodes es nodes v none h next = absurd (cc h)
  call-HasNodes es nodes v (some (now, some err)) h next = absurd (cc h)
  call-HasNodes es nodes v (some (now, none)) h next = next (record v { nodes = now }) h

  run_entries-HasNodes :
      (es : List Entry) (nodes : ℕ → Node) (v : Volume)
      → replay_entries fails read_fails entries_per_node es v.nodes ≡ some (nodes, none)
      → HasNodes nodes (run es v)
  unfolding run_entries replay_entries stage1_case replay_entry
  run_entries-HasNodes [] nodes v h =
      (ap (λ (r : Option ((ℕ → Node) × Option ℕ)). nodes_or v.nodes r) h, refl)
    where
      nodes_or : (ℕ → Node) → Option ((ℕ → Node) × Option ℕ) → ℕ → Node
      nodes_or other none = other
      nodes_or other (some (now, e)) = now
  run_entries-HasNodes (Entry.bnode_redirect a b ∷ es) nodes v h =
      call-HasNodes es nodes v
        (replay_entry fails read_fails entries_per_node v.nodes (Entry.bnode_redirect a b)) h
        (run_entries-HasNodes es nodes)
  run_entries-HasNodes (Entry.bnode_root a b c d f ∷ es) nodes v h =
      call-HasNodes es nodes v
        (replay_entry fails read_fails entries_per_node v.nodes (Entry.bnode_root a b c d f)) h
        (run_entries-HasNodes es nodes)
  run_entries-HasNodes (Entry.bnode_split a b c ∷ es) nodes v h =
      call-HasNodes es nodes v
        (replay_entry fails read_fails entries_per_node v.nodes (Entry.bnode_split a b c)) h
        (run_entries-HasNodes es nodes)
  run_entries-HasNodes (Entry.bnode_add a b c ∷ es) nodes v h =
      call-HasNodes es nodes v
        (replay_entry fails read_fails entries_per_node v.nodes (Entry.bnode_add a b c)) h
        (run_entries-HasNodes es nodes)
  run_entries-HasNodes (Entry.bnode_update a b c ∷ es) nodes v h =
      call-HasNodes es nodes v
        (replay_entry fails read_fails entries_per_node v.nodes (Entry.bnode_update a b c)) h
        (run_entries-HasNodes es nodes)
  run_entries-HasNodes (Entry.bnode_merge a b ∷ es) nodes v h =
      call-HasNodes es nodes v
        (replay_entry fails read_fails entries_per_node v.nodes (Entry.bnode_merge a b)) h
        (run_entries-HasNodes es nodes)
  run_entries-HasNodes (Entry.bnode_del a b c ∷ es) nodes v h =
      call-HasNodes es nodes v
        (replay_entry fails read_fails entries_per_node v.nodes (Entry.bnode_del a b c)) h
        (run_entries-HasNodes es nodes)
  run_entries-HasNodes (Entry.bnode_adjust a b c ∷ es) nodes v h =
      call-HasNodes es nodes v
        (replay_entry fails read_fails entries_per_node v.nodes (Entry.bnode_adjust a b c)) h
        (run_entries-HasNodes es nodes)
  run_entries-HasNodes (Entry.freeblocks a ∷ es) nodes v h =
      run_entries-HasNodes es nodes (record v { freeblocks = a }) h
  run_entries-HasNodes (Entry.balloc a b ∷ es) nodes v h = run_entries-HasNodes es nodes v h
  run_entries-HasNodes (Entry.bfree a b ∷ es) nodes v h = run_entries-HasNodes es nodes v h
  run_entries-HasNodes (Entry.bfree_on_unify a b ∷ es) nodes v h = run_entries-HasNodes es nodes v h
  run_entries-HasNodes (Entry.bfree_relog a b ∷ es) nodes v h = run_entries-HasNodes es nodes v h
  run_entries-HasNodes (Entry.leaf_redirect a b ∷ es) nodes v h = run_entries-HasNodes es nodes v h
  run_entries-HasNodes (Entry.leaf_free a ∷ es) nodes v h = run_entries-HasNodes es nodes v h
  run_entries-HasNodes (Entry.bnode_free a ∷ es) nodes v h = run_entries-HasNodes es nodes v h
  run_entries-HasNodes (Entry.orphan_add a b ∷ es) nodes v h = run_entries-HasNodes es nodes v h
  run_entries-HasNodes (Entry.orphan_del a b ∷ es) nodes v h = run_entries-HasNodes es nodes v h
  run_entries-HasNodes (Entry.unify ∷ es) nodes v h = run_entries-HasNodes es nodes v h
  run_entries-HasNodes (Entry.delta ∷ es) nodes v h = run_entries-HasNodes es nodes v h

  -- Log calls whose entries lead from nodes to other nodes do so through the log: they are written to log blocks,
  -- and stage 1 reads the blocks back.
  replay_logblocks-HasNodes :
      (unify_pos space : ℕ) (es : List Entry) (blocks : List (ℕ × LogBlock)) (nodes : ℕ → Node)
      (v : Volume)
      → 26 ≤ space
      → AllFit es
      → blocks_of blocks ≡ (log_finish (log_calls (empty_log space) es)).done
      → replay_entries fails read_fails entries_per_node es v.nodes ≡ some (nodes, none)
      → HasNodes nodes (
          replay_logblocks
            (replay_log_stage1 btree_handlers
              (record { unify_index = none; unify_pos = unify_pos }))
            0
            blocks
            v)
  replay_logblocks-HasNodes unify_pos space es blocks nodes v room fit same h =
      subst (HasNodes nodes)
        (sym (replay_logblocks-log_calls btree_handlers unify_pos space es blocks v room fit same))
        (run_entries-HasNodes es nodes v h)

-- the nodes and the log calls that an insertion leaves
abbrev pub nodes_after : Insertion → ℕ → Node
nodes_after (no_block nodes calls) = nodes
nodes_after (inserted nodes root depth path calls) = nodes

abbrev pub calls_of : Insertion → List Entry
calls_of (no_block nodes calls) = calls
calls_of (inserted nodes root depth path calls) = calls

IsReplayed-calls :
    (fails read_fails : ℕ → Bool) (blocks : (b : ℕ) → fails b ≡ false) (entries_per_node : ℕ)
    (nodes : ℕ → Node) (r : Insertion)
    → IsReplayed fails read_fails blocks entries_per_node nodes r
    → replay_entries fails read_fails entries_per_node (calls_of r) nodes
      ≡ some (nodes_after r, none)
IsReplayed-calls fails read_fails blocks entries_per_node nodes (no_block now calls) h = h
IsReplayed-calls fails read_fails blocks entries_per_node nodes (inserted now root depth path calls)
      h =
    h

-- A leaf is inserted, for a key in the range of the leaf of the cursor, into a btree that stands for a map,
-- where the buffers of the path and the new blocks are different and a node has room for an entry. The log
-- calls fill a cycle of log blocks, of 26 bytes or more each, with fields in the range of their encodings.
-- After a crash, stage 1 of the replay over these blocks, with no unify mark, on the nodes as they were before
-- the insertion, goes through and ends with the nodes as the insertion left them, also where the insertion
-- fails for want of a block. The replay gets all its buffers.
pub insert_leaf-HasNodes :
    (fails read_fails : ℕ → Bool) (gets : (b : ℕ) → fails b ≡ false) (stage2 : Handlers Volume)
    (entries_per_node root depth leaf key child lo hi : ℕ) (keep : Bool) (fresh : List ℕ)
    (leaf_at : ℕ → ℕ) (path : Path_) (unify_pos space : ℕ) (blocks : List (ℕ × LogBlock))
    (v : Volume)
    → 0 < entries_per_node
    → Hangs v.nodes leaf_at root 0 path leaf lo hi
    → AreApart path fresh
    → lo ≤ key
    → key < hi
    → 26 ≤ space
    → let r = insert_leaf entries_per_node root depth leaf key child keep fresh v.nodes path in
      AllFit (calls_of r)
      → blocks_of blocks ≡ (log_finish (log_calls (empty_log space) (calls_of r))).done
      → HasNodes fails read_fails entries_per_node stage2 (nodes_after r) (
          replay_logblocks
            (replay_log_stage1
              (btree_handlers fails read_fails entries_per_node stage2)
              (record { unify_index = none; unify_pos = unify_pos }))
            0
            blocks
            v)
insert_leaf-HasNodes fails read_fails gets stage2 entries_per_node root depth leaf key child lo hi
      keep fresh leaf_at path unify_pos space blocks v some_ h apart l u room fit same =
    let r = insert_leaf entries_per_node root depth leaf key child keep fresh v.nodes path in
    replay_logblocks-HasNodes fails read_fails entries_per_node stage2 unify_pos space (calls_of r)
      blocks (nodes_after r) v room fit same
      (IsReplayed-calls fails read_fails gets entries_per_node v.nodes r (
        insert_leaf-IsReplayed fails read_fails gets entries_per_node root depth leaf key child lo
          hi keep fresh v.nodes leaf_at path some_ h apart l u))
