-- ===== src/Btree/Recover/Tests.antt =====
-- The insertion of the tests of Insert, logged in blocks of 26 bytes and replayed.
use tux3_fuse.Prelude.{refl, true, false, none, List, arith}
use tux3_fuse.Log.{LogBlock, log_finish}
use tux3_fuse.Log.Holds.{log_calls, empty_log}
use tux3_fuse.Replay.{Handlers, replay_log_stage1, replay_logblocks}
use tux3_fuse.Replay.Loop.{AllFit}
use tux3_fuse.Replay.Tests.{placed, blocks_of-placed}
use tux3_fuse.Btree.Insert.{Insertion, insert_leaf, insert_up}
use tux3_fuse.Btree.Sample.{tree, leaf_of, path, fresh, path-Hangs}
use tux3_fuse.Btree.Recover.{
  Volume, btree_handlers, HasNodes, nodes_after, calls_of, insert_leaf-HasNodes,
}

abbrev stage2 : Handlers Volume
stage2 = record {
  bnode_redirect = λ oldblock newblock v. (v, none);
  bnode_root = λ root count left right rkey v. (v, none);
  bnode_split = λ src pos dst v. (v, none);
  bnode_add = λ parent child key v. (v, none);
  bnode_update = λ parent child key v. (v, none);
  bnode_merge = λ src dst v. (v, none);
  bnode_del = λ bnode key count v. (v, none);
  bnode_adjust = λ bnode from to v. (v, none);
  set_freeblocks = λ count v. v;
  update_bitmap = λ start blocks set v. (v, none);
  defer_bfree = λ block count v. v;
  blockput_free_unify = λ block v. v;
  orphan_add = λ version inum v. (v, none);
  orphan_del = λ version inum v. (v, none);
}

abbrev volume : Volume
volume = record { nodes = tree; freeblocks = 0; asserted = false }

abbrev insertion : Insertion
insertion = insert_leaf 2 10 2 101 40 200 true fresh tree path

calls-AllFit : AllFit (calls_of insertion)
unfolding insert_leaf insert_up
calls-AllFit = (
  (omega arith, omega arith, omega arith),
  (
    (omega arith, omega arith, omega arith),
    (
      (omega arith, omega arith, omega arith),
      (
        (omega arith, omega arith, omega arith),
        ((omega arith, omega arith, omega arith, omega arith, omega arith), tt),
      ),
    ),
  ),
)

abbrev log_blocks : List LogBlock
log_blocks = (log_finish (log_calls (empty_log 26) (calls_of insertion))).done

insert_leaf-HasNodes_example :
    HasNodes
      (λ b. false)
      (λ b. false)
      2
      stage2
      (nodes_after insertion)
      (replay_logblocks
        (replay_log_stage1
          (btree_handlers (λ b. false) (λ b. false) 2 stage2)
          (record { unify_index = none; unify_pos = 0 }))
        0
        (placed 40 log_blocks)
        volume)
insert_leaf-HasNodes_example =
    insert_leaf-HasNodes (λ b. false) (λ b. false) (λ b. refl) stage2 2 10 2 101 40 200 30 50 true
      fresh leaf_of path 0 26 (placed 40 log_blocks) volume (omega arith) path-Hangs
      (
        refl,
        (refl, tt),
        (refl, tt),
        (refl, (refl, tt)),
        (refl, (refl, tt)),
        (refl, tt, tt, (refl, tt), (refl, tt), tt),
      )
      (omega arith) (omega arith) (omega arith) calls-AllFit (blocks_of-placed 40 log_blocks)
