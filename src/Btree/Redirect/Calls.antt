-- ===== src/Btree/Redirect/Calls.antt =====
-- kernel/btree.c: the replay of the log calls of a redirect, level by level.
use tux3_fuse.Prelude.{
  ℕ, suc, ◌-◌, ◌≡◌, refl, ap, ◌∙◌, subst, Bool, true, false, Option, none, some, List, [], ◌∷◌,
  ◌++◌, length, get_or, set, ◌==◌, arith,
}
use tux3_fuse.Log.Entry.{Entry}
use tux3_fuse.Btree.{
  IndexEntry, Node, no_entry, passed, bnode_lookup, lookup_exact, update_func, replay_bnode_update,
  replay_bnode_change,
}
use tux3_fuse.Btree.Cursor.{PathLevel}
use tux3_fuse.Btree.Cursor.Order.{get_or-middle}
use tux3_fuse.Btree.Insert.{
  write_node, replay_entry, replay_entries, then_replay, replay_bnode_redirect,
}
use tux3_fuse.Btree.Insert.Places.{Ascends, passed-pre, IsBehind}
use tux3_fuse.Btree.Redirect.{parent_entry, update_parent}

passed-first :
    (post : Node) (e : IndexEntry) (hi : ℕ) → Ascends (e ∷ post) hi → passed e.key post ≡ 0
passed-first [] e hi a = refl
passed-first (n ∷ post) e hi a = ground (arith, a.0)

IsBehind-self :
    (pre post : Node) (e : IndexEntry) (hi : ℕ)
    → Ascends (pre ++ e ∷ post) hi
    → IsBehind e post e.key
IsBehind-self [] [] e hi a = omega arith
IsBehind-self [] (n ∷ post) e hi a = (omega arith, a.0)
IsBehind-self (x ∷ pre) post e hi a = IsBehind-self pre post e hi a.1

-- The lookup of the key of an entry finds its place.
passed-exact :
    (pre post : Node) (e : IndexEntry) (hi : ℕ)
    → Ascends (pre ++ e ∷ post) hi
    → lookup_exact (pre ++ e ∷ post) e.key ≡ some (length pre)
unfolding lookup_exact bnode_lookup
passed-exact [] post e hi a =
    let first : passed e.key post ≡ 0 = passed-first post e hi a in
    let same : (e.key == e.key) ≡ true = ground arith in rw (first, same) refl
passed-exact (x ∷ pre) post e hi a =
    let place = passed-pre pre post e e.key hi a.1 (IsBehind-self pre post e hi a.1) in
    let same : (e.key == e.key) ≡ true = ground arith in
    rw (place, get_or-middle pre post e, same) refl

module _ (fails read_fails : ℕ → Bool) (blocks : (b : ℕ) → fails b ≡ false)
    (reads : (b : ℕ) → read_fails b ≡ false) (entries_per_node : ℕ) where
  abbrev pub replays : List Entry → (ℕ → Node) → Option ((ℕ → Node) × Option ℕ)
  replays = replay_entries fails read_fails entries_per_node

  -- calls that are replayed one after the other
  pub replays-append :
      (calls calls' : List Entry) (nodes now : ℕ → Node)
      → replays calls nodes ≡ some (now, none)
      → replays (calls ++ calls') nodes ≡ replays calls' now
  unfolding replay_entries
  replays-append [] calls' nodes now h =
      ap
        (λ (r : Option ((ℕ → Node) × Option ℕ)).
          then_replay fails read_fails entries_per_node (replays calls') r)
        h
  replays-append (e ∷ calls) calls' nodes now h =
      go (replay_entry fails read_fails entries_per_node nodes e) h
        (λ n h'. replays-append calls calls' n now h')
    where
      go :
          (r : Option ((ℕ → Node) × Option ℕ))
          → then_replay fails read_fails entries_per_node (replays calls) r ≡ some (now, none)
          → ((n : ℕ → Node)
              → replays calls n ≡ some (now, none)
              → replays (calls ++ calls') n ≡ replays calls' now)
          → then_replay fails read_fails entries_per_node (replays (calls ++ calls')) r
            ≡ replays calls' now
      go none h' next = absurd (cc h')
      go (some (n, some err)) h' next = absurd (cc h')
      go (some (n, none)) h' next = next n h'

  redirect-replayed :
      (nodes : ℕ → Node) (old new : ℕ)
      → replay_entry fails read_fails entries_per_node nodes (Entry.bnode_redirect old new)
        ≡ some (write_node nodes new (nodes old), none)
  unfolding replay_entry replay_bnode_redirect
  redirect-replayed nodes old new = rw (blocks new, reads old) refl

  -- the place of the cursor in a parent, which leads to a block
  abbrev pub IsParent : (ℕ → Node) → PathLevel → Type 0
  IsParent nodes at =
      (pre : Node) × (e : IndexEntry) × (post : Node) × (hi : ℕ) × (nodes at.buffer
        ≡ pre ++ e ∷ post)
      × (at.next ≡ suc (length pre))
      × Ascends (nodes at.buffer) hi

  update-replayed :
      (nodes : ℕ → Node) (at : PathLevel) (child : ℕ)
      → IsParent nodes at
      → replay_entry fails read_fails entries_per_node nodes
          (Entry.bnode_update at.buffer child (parent_entry nodes at).key)
        ≡ some (update_parent nodes at child, none)
  unfolding replay_entry replay_bnode_update replay_bnode_change update_func
  update-replayed nodes at child h =
      let (pre, e, post, hi, split, n, a) = h in
      let place : at.next - 1 ≡ length pre = omega (arith, n) in
      let found =
        ap (λ (l : Node). lookup_exact l e.key) split
        ∙ passed-exact pre post e hi (subst (λ (l : Node). Ascends l hi) split a) in
      let key : (get_or (nodes at.buffer) (length pre) no_entry) ≡ e =
        ap (λ (l : Node). get_or l (length pre) no_entry) split ∙ get_or-middle pre post e in
      rw (blocks at.buffer, place, ap (λ (y : IndexEntry). y.key) key, found)
        (ap
          (λ (y : IndexEntry). some (
            write_node nodes at.buffer
                (set (nodes at.buffer) (length pre) (record { key = y.key; block = child })),
            none,
          ))
          key)

  -- the calls of a level with a parent, and of a leaf with one
  pub level_calls-replayed :
      (now : ℕ → Node) (up : PathLevel) (old new : ℕ)
      → let now' = write_node now new (now old) in
        IsParent now' up
        → replays
            (Entry.bnode_redirect old new
              ∷ Entry.bnode_update up.buffer new (parent_entry now' up).key
              ∷ [])
            now
          ≡ some (update_parent now' up new, none)
  unfolding replay_entries
  level_calls-replayed now up old new h =
      let now' = write_node now new (now old) in
      ap
        (then_replay fails read_fails entries_per_node
          (replays (Entry.bnode_update up.buffer new (parent_entry now' up).key ∷ [])))
        (redirect-replayed now old new)
      ∙ ap (then_replay fails read_fails entries_per_node (replays []))
          (update-replayed now' up new h)

  pub leaf_calls-replayed :
      (now : ℕ → Node) (up : PathLevel) (old new : ℕ)
      → IsParent now up
      → replays
          (Entry.leaf_redirect old new
            ∷ Entry.bnode_update up.buffer new (parent_entry now up).key
            ∷ [])
          now
        ≡ some (update_parent now up new, none)
  unfolding replay_entries replay_entry
  leaf_calls-replayed now up old new h =
      ap (then_replay fails read_fails entries_per_node (replays [])) (update-replayed now up new h)

  pub root_call-replayed :
      (now : ℕ → Node) (old new : ℕ)
      → replays (Entry.bnode_redirect old new ∷ []) now ≡ some (write_node now new (now old), none)
  unfolding replay_entries
  root_call-replayed now old new =
      ap (then_replay fails read_fails entries_per_node (replays []))
        (redirect-replayed now old new)

  pub leaf_call-replayed :
      (now : ℕ → Node) (old new : ℕ)
      → replays (Entry.leaf_redirect old new ∷ []) now ≡ some (now, none)
  unfolding replay_entries replay_entry
  leaf_call-replayed now old new = refl
