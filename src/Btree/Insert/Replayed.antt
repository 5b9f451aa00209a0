-- ===== src/Btree/Insert/Replayed.antt =====
-- kernel/btree.c: the log calls of an insertion, replayed, make the same changes of the index nodes.
use tux3_fuse.Prelude.{
  ℕ, ◌/◌, ◌≤◌, ◌<◌, ◌≡◌, refl, ap, ◌∙◌, Bool, true, false, Bool-cases, inl, inr, Option, none, some,
  List, [], ◌∷◌, length, get_or, ltb, leb, ◌==◌, arith,
}
use tux3_fuse.Log.Entry.{Entry}
use tux3_fuse.Btree.{Node, no_entry, bnode_split, replay_bnode_add, replay_bnode_change}
use tux3_fuse.Btree.Cursor.{PathLevel, Path_}
use tux3_fuse.Btree.Cursor.Order.{Hangs}
use tux3_fuse.Btree.Insert.{
  write_node, Insertion, no_block, inserted, behind_level, split_place, split_nodes, add_entry,
  kept, insert_up, insert_leaf, replay_entry, replay_entries, replay_bnode_split, replay_bnode_root,
  then_replay,
}
use tux3_fuse.Btree.Insert.Places.{
  HasPlace, HasPlace-take, HasPlace-drop, add_func-HasPlace, split_key-bounds,
}
use tux3_fuse.Btree.Insert.Fits.{Fits, AreApart, Fits-place, Fits-frame, Hangs-Fits, split-frame}

module _ (fails read_fails : ℕ → Bool) (blocks : (b : ℕ) → fails b ≡ false)
    (entries_per_node : ℕ) where
  abbrev replays : List Entry → (ℕ → Node) → Option ((ℕ → Node) × Option ℕ)
  replays = replay_entries fails read_fails entries_per_node

  -- The replay of the calls ends with the nodes that the insertion left, whether it succeeded or not.
  abbrev pub IsReplayed : (ℕ → Node) → Insertion → Type 0
  IsReplayed nodes (no_block nodes' calls) = replays calls nodes ≡ some (nodes', none)
  IsReplayed nodes (inserted nodes' root depth path calls) =
      replays calls nodes ≡ some (nodes', none)

  none_replayed : (nodes : ℕ → Node) → replays [] nodes ≡ some (nodes, none)
  unfolding replay_entries
  none_replayed nodes = refl

  add-replayed :
      (nodes : ℕ → Node) (at : PathLevel) (child key : ℕ)
      → HasPlace (nodes at.buffer) at.next key
      → replay_entry fails read_fails entries_per_node nodes (Entry.bnode_add at.buffer child key)
        ≡ some (add_entry nodes at child key, none)
  unfolding replay_entry replay_bnode_add replay_bnode_change
  add-replayed nodes at child key h =
      rw (blocks at.buffer, add_func-HasPlace (nodes at.buffer) at.next key child h) refl

  split-replayed :
      (nodes : ℕ → Node) (src pos dst : ℕ)
      → replay_entry fails read_fails entries_per_node nodes (Entry.bnode_split src pos dst)
        ≡ some (split_nodes nodes pos dst src, none)
  unfolding replay_entry replay_bnode_split
  split-replayed nodes src pos dst = rw (blocks src, blocks dst) refl

  root-replayed :
      (nodes : ℕ → Node) (new left right key : ℕ)
      → replays (Entry.bnode_root new 2 left right key ∷ []) nodes
        ≡ some (
          write_node nodes new
              (record { key = 0; block = left } ∷ record { key = key; block = right } ∷ []),
          none,
        )
  unfolding replay_entries replay_entry replay_bnode_root
  root-replayed nodes new left right key = rw (blocks new) refl

  split-place :
      (nodes : ℕ → Node) (half new key : ℕ) (at : PathLevel)
      → (at.buffer == new) ≡ false
      → HasPlace (nodes at.buffer) at.next key
      → let place = split_place half new at in
        HasPlace (split_nodes nodes half new at.buffer place.buffer) place.next key
  unfolding bnode_split
  split-place nodes half new key at apart h =
      let same : (at.buffer == at.buffer) ≡ true = ground arith in
      let same' : (new == new) ≡ true = ground arith in
      elim (Bool-cases (leb at.next half)) [
        | inl left ↦
            rw (left, apart, same) (HasPlace-take half (nodes at.buffer) at.next key h left)
        | inr right ↦ rw (right, same') (HasPlace-drop half (nodes at.buffer) at.next key h right)
      ]

  -- the calls of a split level, with more calls behind them
  split_calls-replayed :
      (nodes : ℕ → Node) (at : PathLevel) (half new child key : ℕ) (calls : List Entry)
      → (at.buffer == new) ≡ false
      → HasPlace (nodes at.buffer) at.next key
      → let place = split_place half new at in
        replays
          (Entry.bnode_split at.buffer half new ∷ Entry.bnode_add place.buffer child key ∷ calls)
          nodes
        ≡ replays calls (add_entry (split_nodes nodes half new at.buffer) place child key)
  unfolding replay_entries
  split_calls-replayed nodes at half new child key calls apart h =
      let place = split_place half new at in
      ap
        (then_replay fails read_fails entries_per_node
          (replays (Entry.bnode_add place.buffer child key ∷ calls)))
        (split-replayed nodes at.buffer half new)
      ∙ ap (then_replay fails read_fails entries_per_node (replays calls)) (
          add-replayed (split_nodes nodes half new at.buffer) place child key
            (split-place nodes half new key at apart h))

  behind_level-IsReplayed :
      (nodes : ℕ → Node) (at level : PathLevel) (half new child key : ℕ) (rest : Insertion)
      → (at.buffer == new) ≡ false
      → HasPlace (nodes at.buffer) at.next key
      → let place = split_place half new at in
        IsReplayed (add_entry (split_nodes nodes half new at.buffer) place child key) rest
        → IsReplayed nodes (
            behind_level level
              (Entry.bnode_split at.buffer half new ∷ Entry.bnode_add place.buffer child key ∷ [])
              rest)
  behind_level-IsReplayed nodes at level half new child key (no_block nodes' calls) apart h r =
      split_calls-replayed nodes at half new child key calls apart h ∙ r
  behind_level-IsReplayed nodes at level half new child key (inserted nodes' root depth path calls)
        apart h r =
      split_calls-replayed nodes at half new child key calls apart h ∙ r

  add_call-IsReplayed :
      (nodes : ℕ → Node) (at : PathLevel) (root depth child key : ℕ) (path : Path_)
      → HasPlace (nodes at.buffer) at.next key
      → IsReplayed nodes (
          inserted
            (add_entry nodes at child key)
            root
            depth
            path
            (Entry.bnode_add at.buffer child key ∷ []))
  unfolding replay_entries
  add_call-IsReplayed nodes at root depth child key path h =
      ap (then_replay fails read_fails entries_per_node (replays []))
        (add-replayed nodes at child key h)

  insert_up-IsReplayed :
      (root depth : ℕ) (keep : Bool) (key child below lo hi : ℕ) (fresh : List ℕ) (nodes : ℕ → Node)
      (path : Path_)
      → 0 < entries_per_node
      → Fits nodes path lo hi
      → AreApart path fresh
      → lo ≤ key
      → key < hi
      → IsReplayed nodes
          (insert_up entries_per_node root depth keep key child below fresh nodes path)
  unfolding insert_up
  insert_up-IsReplayed root depth keep key child below lo hi [] nodes [] some_ f apart l h =
      none_replayed nodes
  insert_up-IsReplayed root depth keep key child below lo hi (new ∷ fresh) nodes [] some_ f apart l
        h =
      root-replayed nodes new root child key
  insert_up-IsReplayed root depth keep key child below lo hi [] nodes (at ∷ path) some_ f apart l
        h =
      let place = Fits-place nodes at path lo hi key f l h in
      elim (Bool-cases (ltb (length (nodes at.buffer)) entries_per_node)) [
        | inl room ↦
            rw room (add_call-IsReplayed nodes at root depth child key (kept keep at ∷ path) place)
        | inr full ↦ rw full (none_replayed nodes)
      ]
  insert_up-IsReplayed root depth keep key child below lo hi (new ∷ fresh) nodes (at ∷ path) some_ f
        apart l h =
      let (pre, e, post, lo', hi', split, n, el, u, a, low, above) = f in
      let (off, off_b, off_new, not_b, not_new, more) = apart in
      let place = Fits-place nodes at path lo hi key f l h in
      let half = length (nodes at.buffer) / 2 in
      elim (Bool-cases (ltb (length (nodes at.buffer)) entries_per_node)) [
        | inl room ↦
            rw room (add_call-IsReplayed nodes at root depth child key (kept keep at ∷ path) place)
        | inr full ↦
            let longer : entries_per_node ≤ length (nodes at.buffer) = ground (arith, full) in
            let inside : half < length (nodes at.buffer) = omega (arith, longer, some_) in
            let (from, to) = split_key-bounds half (nodes at.buffer) hi' a inside in
            let above' =
              Fits-frame nodes _ at.buffer new path lo' hi'
                (λ i b c. split-frame nodes half new child key at i b c) off_b off_new above in
            rw full (
              behind_level-IsReplayed nodes at (kept keep (split_place half new at)) half new child
                key _ off place
                (insert_up-IsReplayed root depth (leb at.next half)
                  (get_or (nodes at.buffer) half no_entry).key new (split_place half new at).buffer
                  lo' hi' fresh
                  (add_entry (split_nodes nodes half new at.buffer) (split_place half new at) child
                    key)
                  path some_ above' more (omega (arith, low, from)) to))
      ]

-- A leaf is inserted, for a key in the range of the leaf of the cursor, into a btree that stands for a map,
-- where the buffers of the path and the new blocks are different and a node has room for an entry. Then the
-- replay of the log calls of the insertion, on the nodes as they were before, ends with the nodes as the
-- insertion left them, also where the insertion fails for want of a block. The replay gets all its buffers.
pub insert_leaf-IsReplayed :
    (fails read_fails : ℕ → Bool) (blocks : (b : ℕ) → fails b ≡ false)
    (entries_per_node root depth leaf key child lo hi : ℕ) (keep : Bool) (fresh : List ℕ)
    (nodes : ℕ → Node) (leaf_at : ℕ → ℕ) (path : Path_)
    → 0 < entries_per_node
    → Hangs nodes leaf_at root 0 path leaf lo hi
    → AreApart path fresh
    → lo ≤ key
    → key < hi
    → IsReplayed fails read_fails blocks entries_per_node nodes
        (insert_leaf entries_per_node root depth leaf key child keep fresh nodes path)
unfolding insert_leaf
insert_leaf-IsReplayed fails read_fails blocks entries_per_node root depth leaf key child lo hi keep
      fresh nodes leaf_at path some_ h apart l u =
    insert_up-IsReplayed fails read_fails blocks entries_per_node root depth keep key child _ lo hi
      fresh nodes path some_ (Hangs-Fits nodes leaf_at root 0 path leaf lo hi h) apart l u
