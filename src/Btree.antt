-- ===== src/Btree.antt =====
-- kernel/btree.c: the operations on an index node of a btree, and the calls that replay the changes of
-- one. A node is the list of its entries up to `count`; `none` is a failed assert. The buffers of the
-- volume are a function from block numbers to nodes, and `fails` says where `vol_getblk` returns none.
pub mod Route
pub mod Cursor
pub mod Insert
pub mod Redirect
pub mod Recover
pub mod Sample
mod Tests
use tux3_fuse.Prelude.{
  ℕ, zero, suc, ◌+◌, ◌-◌, Bool, true, false, Option, none, some, List, [], ◌∷◌, ◌++◌, ltb, ◌==◌,
  if◌then◌else◌, length, get_or, set, take, drop,
}
use tux3_fuse.Codec.{◌>>=◌}

pub record IndexEntry : Type 0 where
  pub key : ℕ
  pub block : ℕ

abbrev pub Node : Type 0
Node = List IndexEntry

-- an entry of zeros, read where there is none
abbrev pub no_entry : IndexEntry
no_entry = record { key = 0; block = 0 }

-- How many of the entries behind the first one the loop of the lookup passes.
abbrev pub passed : ℕ → Node → ℕ
passed key [] = 0
passed key (next ∷ rest) = let more = passed key rest in if ltb key next.key then 0 else suc more

-- the position of the entry
unfoldable pub bnode_lookup : Node → ℕ → Option ℕ
bnode_lookup [] key = none
bnode_lookup (first ∷ rest) key = some (passed key rest)

-- `p` is the position of the new entry.
unfoldable pub bnode_add_index : Node → (p child childkey : ℕ) → Node
bnode_add_index node p child childkey =
    take p node ++ record { key = childkey; block = child } ∷ drop p node

-- within the entries of the node
unfoldable pub bnode_remove_index : Node → (p count : ℕ) → Node
bnode_remove_index node p count = take p node ++ drop (p + count) node

-- `src` and `dst` after the split
unfoldable pub bnode_split : Node → ℕ → Node × Node
bnode_split src pos = (take pos src, drop pos src)

-- The merged node; `none` is the answer 0, of nodes too large to be merged.
unfoldable pub bnode_merge_nodes : (entries_per_node : ℕ) → (into from : Node) → Option Node
bnode_merge_nodes entries_per_node into from =
    if ltb entries_per_node (length from + length into) then none else some (into ++ from)

unfoldable pub add_func : Node → (child key : ℕ) → Option Node
unfolding bnode_lookup bnode_add_index
add_func bnode child key = do
  at ← bnode_lookup bnode key
  some (bnode_add_index bnode (suc at) child key)

-- the entry whose key is exactly `key`
unfoldable pub lookup_exact : Node → ℕ → Option ℕ
unfolding bnode_lookup
lookup_exact bnode key = do
  at ← bnode_lookup bnode key
  (if (get_or bnode at no_entry).key == key then some at else none)

unfoldable pub update_func : Node → (child key : ℕ) → Option Node
unfolding lookup_exact
update_func bnode child key = do
  at ← lookup_exact bnode key
  some (set bnode at (record { key = (get_or bnode at no_entry).key; block = child }))

unfoldable pub del_func : Node → (key count : ℕ) → Option Node
unfolding lookup_exact bnode_remove_index
del_func bnode key count = do at ← lookup_exact bnode key; some (bnode_remove_index bnode at count)

unfoldable pub adjust_func : Node → (from to : ℕ) → Option Node
unfolding lookup_exact
adjust_func bnode from to = do
  at ← lookup_exact bnode from
  some (set bnode at (record { key = to; block = (get_or bnode at no_entry).block }))

abbrev pub enomem : ℕ
enomem = 12

-- the nodes after the call, and its error
module _ (fails : ℕ → Bool) (nodes : ℕ → Node) where
  unfoldable pub replay_bnode_change :
      (bnodeblock val1 val2 : ℕ) → (Node → ℕ → ℕ → Option Node) → Option ((ℕ → Node) × Option ℕ)
  replay_bnode_change bnodeblock val1 val2 change =
      if fails bnodeblock then some (nodes, some enomem) else do
        bnode ← change (nodes bnodeblock) val1 val2
        some ((λ i. if i == bnodeblock then bnode else nodes i), none)

  unfoldable pub replay_bnode_add : (parent child key : ℕ) → Option ((ℕ → Node) × Option ℕ)
  unfolding replay_bnode_change add_func
  replay_bnode_add parent child key = replay_bnode_change parent child key add_func

  unfoldable pub replay_bnode_update : (parent child key : ℕ) → Option ((ℕ → Node) × Option ℕ)
  unfolding replay_bnode_change update_func
  replay_bnode_update parent child key = replay_bnode_change parent child key update_func

  unfoldable pub replay_bnode_del : (bnode key count : ℕ) → Option ((ℕ → Node) × Option ℕ)
  unfolding replay_bnode_change del_func
  replay_bnode_del bnode key count = replay_bnode_change bnode key count del_func

  unfoldable pub replay_bnode_adjust : (bnode from to : ℕ) → Option ((ℕ → Node) × Option ℕ)
  unfolding replay_bnode_change adjust_func
  replay_bnode_adjust bnode from to = replay_bnode_change bnode from to adjust_func
