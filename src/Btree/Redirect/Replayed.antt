-- ===== src/Btree/Redirect/Replayed.antt =====
-- kernel/btree.c: the log calls of a redirect, replayed, make the same changes of the index nodes.
use tux3_fuse.Prelude.{
  ℕ, suc, ◌<◌, ◌≡◌, refl, ◌∙◌, sym, subst, Bool, true, false, Bool-cases, inl, inr, none, some,
  List, [], ◌∷◌, ◌==◌, arith,
}
use tux3_fuse.Log.Entry.{Entry}
use tux3_fuse.Btree.{Node}
use tux3_fuse.Btree.Cursor.{PathLevel, Path_}
use tux3_fuse.Btree.Cursor.Order.{Hangs}
use tux3_fuse.Btree.Insert.{write_node, replay_entries}
use tux3_fuse.Btree.Insert.Places.{Ascends}
use tux3_fuse.Btree.Insert.Around.{AreClear, Hangs-Around}
use tux3_fuse.Btree.Redirect.{
  Redirection, unrooted, no_block, redirected, redirect_level, next_level, redirect_path, Redirect,
  assert_failed, stopped, moved, redirect_leaf, cursor_redirect,
}
use tux3_fuse.Btree.Redirect.Parents.{AreApart, AreApart-new, write_node-else}
use tux3_fuse.Btree.Redirect.Levels.{
  AreReady, IsPathTouched, IsRedirected, redirect_path-IsRedirected,
}
use tux3_fuse.Btree.Redirect.Hung.{Hung}
use tux3_fuse.Btree.Redirect.Calls.{
  replays, IsParent, replays-append, level_calls-replayed, leaf_calls-replayed, root_call-replayed,
  leaf_call-replayed,
}

module _ (fails read_fails : ℕ → Bool) (blocks : (b : ℕ) → fails b ≡ false)
    (reads : (b : ℕ) → read_fails b ≡ false) (entries_per_node : ℕ) where
  module _ (nodes : ℕ → Node) (leaf_at : ℕ → ℕ) (touched : ℕ → Bool) (new_leaf key limit : ℕ)
      (need leaf_need : ℕ → Bool) where
    -- the replay of the calls of some levels
    abbrev HasCalls : Redirection → Type 0
    HasCalls unrooted = Unit {0}
    HasCalls (no_block now root path calls deunify) =
        replays fails read_fails blocks reads entries_per_node calls nodes ≡ some (now, none)
    HasCalls (redirected now root path fresh calls deunify) =
        replays fails read_fails blocks reads entries_per_node calls nodes ≡ some (now, none)

    Hung-IsParent :
        (root levels : ℕ) (now : ℕ → Node) (at : PathLevel) (path : Path_) (block lo hi : ℕ)
        → Hung nodes leaf_at touched new_leaf key limit root levels now (at ∷ path) block lo hi
        → IsParent fails read_fails blocks reads entries_per_node now at
    Hung-IsParent root levels now at path block lo hi h =
        let (pre, post, lo', hi', split, n, up, first, a, beside, above) = h in
        (pre, record { key = lo; block = block }, post, hi', split, n, a)

    IsParent-frame :
        (now now' : ℕ → Node) (at : PathLevel)
        → now at.buffer ≡ now' at.buffer
        → IsParent fails read_fails blocks reads entries_per_node now at
        → IsParent fails read_fails blocks reads entries_per_node now' at
    IsParent-frame now now' at same h =
        let (pre, e, post, hi, split, n, a) = h in
        (pre, e, post, hi, sym same ∙ split, n, subst (λ (es : Node). Ascends es hi) same a)

    redirect_level-HasCalls :
        (at : PathLevel) (new : ℕ) (fresh fresh' : List ℕ) (path : Path_) (levels block lo hi : ℕ)
        (now : ℕ → Node) (root : ℕ) (path' : Path_) (calls : List Entry) (deunify : List ℕ)
        → IsRedirected nodes leaf_at touched new_leaf key limit need leaf_need fresh path levels
            block lo hi
            (redirected now root path' (new ∷ fresh') calls deunify)
        → replays fails read_fails blocks reads entries_per_node calls nodes ≡ some (now, none)
        → HasCalls (redirect_level at new fresh' now root path' calls deunify)
    unfolding redirect_level
    redirect_level-HasCalls at new fresh fresh' path levels block lo hi now root [] calls deunify r
          h =
        elim (Bool-cases (at.buffer == root)) [
          | inl e ↦ rw e (
              replays-append fails read_fails blocks reads entries_per_node calls _ nodes now h
              ∙ root_call-replayed fails read_fails blocks reads entries_per_node now at.buffer new)
          | inr e ↦ rw e tt
        ]
    redirect_level-HasCalls at new fresh fresh' path levels block lo hi now root (up ∷ path') calls
          deunify r h =
        let (off_new, not_new, apart) = AreApart-new (up ∷ path') new fresh' r.4 in
        let parent =
          IsParent-frame now (write_node now new (now at.buffer)) up
            (write_node-else now new (now at.buffer) up.buffer off_new.0)
            (Hung-IsParent root levels now up path' block lo hi r.0) in
        replays-append fails read_fails blocks reads entries_per_node calls _ nodes now h
        ∙ level_calls-replayed fails read_fails blocks reads entries_per_node now up at.buffer new
            parent

    next_level-HasCalls :
        (at : PathLevel) (fresh : List ℕ) (path : Path_) (levels block lo hi : ℕ) (r : Redirection)
        → IsRedirected nodes leaf_at touched new_leaf key limit need leaf_need fresh path levels
            block lo hi r
        → HasCalls r
        → HasCalls (next_level need at r)
    unfolding next_level
    next_level-HasCalls at fresh path levels block lo hi unrooted r h = tt
    next_level-HasCalls at fresh path levels block lo hi (no_block now root path' calls deunify) r
          h =
        h
    next_level-HasCalls at fresh path levels block lo hi
          (redirected now root path' [] calls deunify) r h =
        elim (Bool-cases (need at.buffer)) [ inl n ↦ rw n h | inr n ↦ rw n h ]
    next_level-HasCalls at fresh path levels block lo hi
          (redirected now root path' (new ∷ fresh') calls deunify) r h =
        elim (Bool-cases (need at.buffer)) [
          | inl n ↦ rw n (
              redirect_level-HasCalls at new fresh fresh' path levels block lo hi now root path'
                calls deunify r h)
          | inr n ↦ rw n h
        ]

    redirect_path-HasCalls :
        (path : Path_) (fresh : List ℕ) (root levels block lo hi : ℕ)
        → Hung nodes leaf_at touched new_leaf key limit root levels nodes path block lo hi
        → AreApart path fresh
        → IsPathTouched nodes leaf_at touched new_leaf key limit need leaf_need path
        → AreReady nodes leaf_at touched new_leaf key limit need leaf_need fresh
        → HasCalls (redirect_path need fresh nodes root path)
    unfolding redirect_path replay_entries
    redirect_path-HasCalls [] fresh root levels block lo hi h apart t ready = refl
    redirect_path-HasCalls (at ∷ path) fresh root levels block lo hi h apart t ready =
        next_level-HasCalls at fresh path (suc levels) at.buffer h.2 h.3
          (redirect_path need fresh nodes root path)
          (redirect_path-IsRedirected nodes leaf_at touched new_leaf key limit need leaf_need path
            fresh root (suc levels) at.buffer h.2 h.3 h.10 apart.2 t.1 ready)
          (redirect_path-HasCalls path fresh root (suc levels) at.buffer h.2 h.3 h.10 apart.2 t.1
            ready)

module _ (fails read_fails : ℕ → Bool) (blocks : (b : ℕ) → fails b ≡ false)
    (reads : (b : ℕ) → read_fails b ≡ false) (entries_per_node : ℕ) (need leaf_need : ℕ → Bool)
    {L : Type 0} (contents : ℕ → L) (leaf : ℕ) where
  -- The replay of the calls ends with the nodes that the redirect left, whether it succeeded or not.
  abbrev pub IsReplayed : (ℕ → Node) → Redirect L → Type 0
  IsReplayed nodes assert_failed = ⊥
  IsReplayed nodes (stopped now root path leaf' contents' calls deunify defree) =
      replay_entries fails read_fails entries_per_node calls nodes ≡ some (now, none)
  IsReplayed nodes (moved now root path leaf' contents' calls deunify defree) =
      replay_entries fails read_fails entries_per_node calls nodes ≡ some (now, none)

  redirect_leaf-IsReplayed :
      (nodes : ℕ → Node) (leaf_at : ℕ → ℕ) (touched : ℕ → Bool) (fresh : List ℕ) (path : Path_)
      (lo hi : ℕ) (r : Redirection)
      → IsRedirected nodes leaf_at touched leaf lo hi need leaf_need fresh path 0 leaf lo hi r
      → HasCalls fails read_fails blocks reads entries_per_node nodes leaf_at touched leaf lo hi
          need leaf_need r
      → IsReplayed nodes (redirect_leaf need leaf_need contents leaf r)
  unfolding redirect_leaf
  redirect_leaf-IsReplayed nodes leaf_at touched fresh path lo hi unrooted r h = elim r [ ]
  redirect_leaf-IsReplayed nodes leaf_at touched fresh path lo hi
        (no_block now root path' calls deunify) r h =
      h
  redirect_leaf-IsReplayed nodes leaf_at touched fresh path lo hi
        (redirected now root path' [] calls deunify) r h =
      elim (Bool-cases (leaf_need leaf)) [ inl n ↦ rw n h | inr n ↦ rw n h ]
  redirect_leaf-IsReplayed nodes leaf_at touched fresh path lo hi
        (redirected now root [] (new ∷ fresh') calls deunify) r h =
      let same : (leaf == root) ≡ true = ground (arith, r.0.0) in
      elim (Bool-cases (leaf_need leaf)) [
        | inl n ↦
            rw (n, same)
              (replays-append fails read_fails blocks reads entries_per_node calls _ nodes now h
                ∙ leaf_call-replayed fails read_fails blocks reads entries_per_node now leaf new)
        | inr n ↦ rw n h
      ]
  redirect_leaf-IsReplayed nodes leaf_at touched fresh path lo hi
        (redirected now root (up ∷ path') (new ∷ fresh') calls deunify) r h =
      elim (Bool-cases (leaf_need leaf)) [
        | inl n ↦ rw n (
            replays-append fails read_fails blocks reads entries_per_node calls _ nodes now h
            ∙ leaf_calls-replayed fails read_fails blocks reads entries_per_node now up leaf new (
                Hung-IsParent fails read_fails blocks reads entries_per_node nodes leaf_at touched
                  leaf lo hi need leaf_need root 0 now up path' leaf lo hi r.0))
        | inr n ↦ rw n h
      ]

  -- The path of a cursor to a leaf with a range of keys that is not empty is redirected, in a btree that stands
  -- for a map. The buffers of the path and the new blocks are different, no other part of the btree lies in
  -- them, and a new block, once marked dirty, needs no redirect; `touched` is true of the blocks that may be
  -- written. Then the replay of the log calls of the redirect, on the nodes as they were before, ends with the
  -- nodes as the redirect left them, also where it stops for want of a block. The replay gets and reads all
  -- its buffers.
  pub cursor_redirect-IsReplayed :
      (nodes : ℕ → Node) (leaf_at : ℕ → ℕ) (touched : ℕ → Bool) (root lo hi : ℕ) (fresh : List ℕ)
      (path : Path_)
      → lo < hi
      → Hangs nodes leaf_at root 0 path leaf lo hi
      → AreClear nodes leaf_at touched leaf lo hi 0 path
      → AreApart path fresh
      → IsPathTouched nodes leaf_at touched leaf lo hi need leaf_need path
      → AreReady nodes leaf_at touched leaf lo hi need leaf_need fresh
      → IsReplayed nodes (cursor_redirect need leaf_need contents leaf fresh nodes root path)
  unfolding cursor_redirect
  cursor_redirect-IsReplayed nodes leaf_at touched root lo hi fresh path some_ h clear apart t
        ready =
      let hung =
        Hangs-Around nodes leaf_at touched leaf lo hi root 0 path leaf lo hi (omega arith)
          (omega arith) clear h in
      redirect_leaf-IsReplayed nodes leaf_at touched fresh path lo hi
        (redirect_path need fresh nodes root path)
        (redirect_path-IsRedirected nodes leaf_at touched leaf lo hi need leaf_need path fresh root
          0 leaf lo hi hung apart t ready)
        (redirect_path-HasCalls fails read_fails blocks reads entries_per_node nodes leaf_at touched
          leaf lo hi need leaf_need path fresh root 0 leaf lo hi hung apart t ready)
