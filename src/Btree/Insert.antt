-- ===== src/Btree/Insert.antt =====
-- kernel/btree.c: the insertion of a leaf at the cursor, with the log calls that it makes, and the replay of
-- such calls. The new index nodes get the blocks of a list in order, the answers of the allocator to new_node;
-- where the list is used up, the allocator has answered with an error.
pub mod Places
pub mod Fits
pub mod Replayed
pub mod Halves
pub mod Divided
pub mod Writes
pub mod Around
pub mod Parts
pub mod Mapped
mod Tests
use tux3_fuse.Prelude.{
  ℕ, zero, suc, ◌+◌, ◌-◌, ◌/◌, Bool, true, false, not, Option, none, some, List, [], ◌∷◌, ◌++◌, ltb,
  leb, ◌==◌, if◌then◌else◌, length, get_or, take,
}
use tux3_fuse.Log.Entry.{Entry}
use tux3_fuse.Btree.{
  IndexEntry, Node, no_entry, enomem, bnode_add_index, bnode_split, bnode_merge_nodes,
  replay_bnode_add, replay_bnode_update, replay_bnode_del, replay_bnode_adjust,
}
use tux3_fuse.Btree.Cursor.{PathLevel, Path_}

-- a change of one buffer
abbrev pub write_node : (ℕ → Node) → (block : ℕ) → Node → ℕ → Node
write_node nodes block node = λ i. if i == block then node else nodes i

-- A root has one entry or two.
abbrev pub bnode_init_root : (count left right rkey : ℕ) → Node
bnode_init_root count left right rkey =
    take count (record { key = 0; block = left } ∷ record { key = rkey; block = right } ∷ [])

-- The nodes, the root and its depth, the path of the cursor and the log calls; `no_block` is an error of
-- new_node, which leaves what was done so far.
pub data Insertion : Type 0 where
  no_block : (nodes : ℕ → Node) → (calls : List Entry) → Insertion
  inserted : (nodes : ℕ → Node) → (root depth : ℕ) → Path_ → (calls : List Entry) → Insertion

-- what a level adds to what the levels above it do
abbrev pub behind_level : PathLevel → List Entry → Insertion → Insertion
behind_level at calls (no_block nodes calls') = no_block nodes (calls ++ calls')
behind_level at calls (inserted nodes root depth path calls') =
    inserted nodes root depth (at ∷ path) (calls ++ calls')

-- The node that the entry goes to when a full node is split, and the place in it.
abbrev pub split_place : (half new : ℕ) → PathLevel → PathLevel
split_place half new at =
    if leb at.next half then at else record { buffer = new; next = at.next - half }

abbrev pub split_nodes : (ℕ → Node) → (half new block : ℕ) → ℕ → Node
split_nodes nodes half new block =
    let (low, high) = bnode_split (nodes block) half in
    write_node (write_node nodes block low) new high

abbrev pub add_entry : (ℕ → Node) → PathLevel → (child childkey : ℕ) → ℕ → Node
add_entry nodes at child childkey =
    write_node nodes at.buffer (bnode_add_index (nodes at.buffer) at.next child childkey)

-- the cursor stays, or goes on to the new entry
abbrev pub kept : (keep : Bool) → PathLevel → PathLevel
kept keep at = if keep then at else record at { next = at.next + 1 }

module _ (entries_per_node root depth : ℕ) where
  -- The loop over the levels, from the parent of the leaf up. `below` is the buffer of the level beneath.
  unfoldable pub insert_up :
      (keep : Bool) (childkey child below : ℕ) → List ℕ → (ℕ → Node) → Path_ → Insertion
  insert_up keep childkey child below [] nodes [] = no_block nodes []
  insert_up keep childkey child below (new ∷ fresh) nodes [] =
      let left_node = not (below == child) in
      inserted (write_node nodes new (bnode_init_root 2 root child childkey)) new (depth + 1)
        (record { buffer = new; next = 1 + (if left_node then 0 else 1) } ∷ [])
        (Entry.bnode_root new 2 root child childkey ∷ [])
  insert_up keep childkey child below [] nodes (at ∷ path) =
      if ltb (length (nodes at.buffer)) entries_per_node
      then inserted (add_entry nodes at child childkey) root depth (kept keep at ∷ path)
          (Entry.bnode_add at.buffer child childkey ∷ [])
      else no_block nodes []
  insert_up keep childkey child below (new ∷ fresh) nodes (at ∷ path) =
      let half = length (nodes at.buffer) / 2 in
      let newkey = (get_or (nodes at.buffer) half no_entry).key in
      let place = split_place half new at in
      let nodes' = add_entry (split_nodes nodes half new at.buffer) place child childkey in
      let above = insert_up (leb at.next half) newkey new place.buffer fresh nodes' path in
      if ltb (length (nodes at.buffer)) entries_per_node
      then inserted (add_entry nodes at child childkey) root depth (kept keep at ∷ path)
          (Entry.bnode_add at.buffer child childkey ∷ [])
      else behind_level (kept keep place)
          (Entry.bnode_split at.buffer half new ∷ Entry.bnode_add place.buffer child childkey ∷ [])
          above

  -- The leaf of the cursor is `leaf`, the new one `child`.
  unfoldable pub insert_leaf :
      (leaf childkey child : ℕ) (keep : Bool) → List ℕ → (ℕ → Node) → Path_ → Insertion
  insert_leaf leaf childkey child keep fresh nodes path =
      insert_up keep childkey child (if keep then leaf else child) fresh nodes path

module _ (fails read_fails : ℕ → Bool) (entries_per_node : ℕ) (nodes : ℕ → Node) where
  -- the errors of vol_getblk and vol_bread
  unfoldable pub replay_bnode_redirect : (oldblock newblock : ℕ) → Option ((ℕ → Node) × Option ℕ)
  replay_bnode_redirect oldblock newblock =
      if fails newblock
      then some (nodes, some enomem)
      else if read_fails oldblock
      then some (nodes, some 5)
      else some (write_node nodes newblock (nodes oldblock), none)

  unfoldable pub replay_bnode_root :
      (root count left right rkey : ℕ) → Option ((ℕ → Node) × Option ℕ)
  replay_bnode_root root count left right rkey =
      if fails root
      then some (nodes, some enomem)
      else some (write_node nodes root (bnode_init_root count left right rkey), none)

  unfoldable pub replay_bnode_split : (src pos dst : ℕ) → Option ((ℕ → Node) × Option ℕ)
  replay_bnode_split src pos dst =
      if fails src
      then some (nodes, some enomem)
      else if fails dst
      then some (nodes, some enomem)
      else some (split_nodes nodes pos dst src, none)

  -- `none` is the failed assert.
  unfoldable pub replay_bnode_merge : (src dst : ℕ) → Option ((ℕ → Node) × Option ℕ)
  replay_bnode_merge src dst =
      if fails src
      then some (nodes, some enomem)
      else if fails dst
      then some (nodes, some enomem)
      else elim (bnode_merge_nodes entries_per_node (nodes dst) (nodes src)) [
        | none ↦ none
        | some merged ↦ some (write_node nodes dst merged, none)
      ]

  -- What stage 1 of the replay does to index nodes for an entry of the log.
  unfoldable pub replay_entry : Entry → Option ((ℕ → Node) × Option ℕ)
  replay_entry (Entry.bnode_redirect oldblock newblock) = replay_bnode_redirect oldblock newblock
  replay_entry (Entry.bnode_root root count left right rkey) =
      replay_bnode_root root count left right rkey
  replay_entry (Entry.bnode_split src pos dst) = replay_bnode_split src pos dst
  replay_entry (Entry.bnode_add parent child key) = replay_bnode_add fails nodes parent child key
  replay_entry (Entry.bnode_update parent child key) =
      replay_bnode_update fails nodes parent child key
  replay_entry (Entry.bnode_merge src dst) = replay_bnode_merge src dst
  replay_entry (Entry.bnode_del bnode key count) = replay_bnode_del fails nodes bnode key count
  replay_entry (Entry.bnode_adjust bnode from to) = replay_bnode_adjust fails nodes bnode from to
  replay_entry _ = some (nodes, none)

module _ (fails read_fails : ℕ → Bool) (entries_per_node : ℕ) where
  -- Entries are replayed in order, until one fails.
  abbrev pub then_replay :
      ((ℕ → Node) → Option ((ℕ → Node) × Option ℕ))
      → Option ((ℕ → Node) × Option ℕ)
      → Option ((ℕ → Node) × Option ℕ)
  then_replay rest none = none
  then_replay rest (some (nodes, some e)) = some (nodes, some e)
  then_replay rest (some (nodes, none)) = rest nodes

  unfoldable pub replay_entries : List Entry → (ℕ → Node) → Option ((ℕ → Node) × Option ℕ)
  replay_entries [] nodes = some (nodes, none)
  replay_entries (e ∷ es) nodes =
      then_replay (replay_entries es) (replay_entry fails read_fails entries_per_node nodes e)
