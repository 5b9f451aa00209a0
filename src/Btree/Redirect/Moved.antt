-- ===== src/Btree/Redirect/Moved.antt =====
-- kernel/btree.c: the redirected path leads to the same leaf, or its copy, in a btree with the same map else.
use tux3_fuse.Prelude.{
  ℕ, ◌≤◌, ◌<◌, ◌≡◌, refl, Bool, true, false, Bool-cases, inl, inr, List, [], ◌∷◌, ◌++◌, length,
  ◌==◌, arith,
}
use tux3_fuse.Log.Entry.{Entry}
use tux3_fuse.Btree.{Node}
use tux3_fuse.Btree.Cursor.{PathLevel, Path_}
use tux3_fuse.Btree.Cursor.Order.{IsMapped, Hangs}
use tux3_fuse.Btree.Insert.Around.{inserted_at, AreClear, Hangs-Around}
use tux3_fuse.Btree.Insert.Writes.{IsStable-write}
use tux3_fuse.Btree.Redirect.{
  Redirection, unrooted, no_block, redirected, parent_entry, update_parent, redirect_path, Redirect,
  assert_failed, stopped, moved, copied_leaf, redirect_leaf, cursor_redirect,
}
use tux3_fuse.Btree.Redirect.Parents.{AreApart, update_parent-else}
use tux3_fuse.Btree.Redirect.Levels.{
  ArePathReady, AreReady, IsPathTouched, IsRedirected, redirect_path-IsRedirected,
}
use tux3_fuse.Btree.Redirect.Hung.{update_parent-Hung, Hung-Hangs}

module _ (nodes : ℕ → Node) (leaf_at : ℕ → ℕ) (touched need leaf_need : ℕ → Bool) {L : Type 0}
    (contents : ℕ → L) (leaf lo hi : ℕ) where
  -- the map with the keys of the leaf led to its copy
  abbrev pub moved_at : (leaf' : ℕ) → ℕ → ℕ
  moved_at leaf' = inserted_at nodes leaf_at touched leaf' lo hi

  -- After an error the path leads to the leaf as before, in a btree with the same map; there is an error only
  -- where no more blocks are left than there are levels of nodes. After a success it leads to a leaf of the same
  -- contents, and no buffer on it needs a redirect.
  abbrev pub IsMoved : (blocks levels : ℕ) → Redirect L → Type 0
  IsMoved blocks levels assert_failed = ⊥
  IsMoved blocks levels (stopped now root path leaf' contents' calls deunify defree) =
      Hangs now (moved_at leaf) root 0 path leaf lo hi × (leaf' ≡ leaf) × (blocks ≤ levels)
  IsMoved blocks levels (moved now root path leaf' contents' calls deunify defree) =
      Hangs now (moved_at leaf') root 0 path leaf' lo hi
      × (contents' leaf' ≡ contents leaf)
      × ArePathReady nodes leaf_at touched leaf' lo hi need leaf_need path
      × (leaf_need leaf' ≡ false)

  leaf_part : (now : ℕ → Node) (leaf' : ℕ) → lo < hi → IsMapped now (moved_at leaf') 0 leaf' lo hi
  leaf_part now leaf' some_ = (some_, λ k a b. ground (arith, a, b))

  module _ (some_ : lo < hi) (fresh : List ℕ) (path : Path_) where
    abbrev Above : (new_leaf : ℕ) → Redirection → Type 0
    Above new_leaf =
        IsRedirected nodes leaf_at touched new_leaf lo hi need leaf_need fresh path 0 leaf lo hi

    -- a leaf that stays
    stay-IsMoved :
        (now : ℕ → Node) (root : ℕ) (path' : Path_) (fresh' : List ℕ) (calls : List Entry)
        (deunify : List ℕ)
        → Above leaf (redirected now root path' fresh' calls deunify)
        → leaf_need leaf ≡ false
        → IsMoved (length fresh) (length path) (moved now root path' leaf contents calls deunify [])
    stay-IsMoved now root path' fresh' calls deunify r n =
        let (hung, stable, frame, off, apart, ready, new_ready, enough) = r in
        (
          Hung-Hangs nodes leaf_at touched leaf lo hi root 0 now path' leaf lo hi stable hung
              (leaf_part now leaf some_),
          refl,
          ready,
          n,
        )

    copy_here : (new : ℕ) → copied_leaf need leaf_need contents leaf new new ≡ contents leaf
    copy_here new = let same : (new == new) ≡ true = ground arith in rw same refl

    -- a leaf that is copied, below a node
    copy-IsMoved :
        (now : ℕ → Node) (root : ℕ) (up : PathLevel) (path' : Path_) (new : ℕ) (fresh' : List ℕ)
        (calls calls' : List Entry) (deunify defree : List ℕ)
        → Above new (redirected now root (up ∷ path') (new ∷ fresh') calls deunify)
        → IsMoved (length fresh) (length path) (
            moved
              (update_parent now up new)
              root
              (up ∷ path')
              new
              (copied_leaf need leaf_need contents leaf new)
              calls'
              deunify
              defree)
    copy-IsMoved now root up path' new fresh' calls calls' deunify defree r =
        let (hung, stable, frame, off, apart, ready, new_ready, enough) = r in
        let now' = update_parent now up new in
        let stable' =
          IsStable-write nodes leaf_at touched new lo hi now now' up.buffer up.buffer
            (λ i b c. update_parent-else now up new i b) ready.1 ready.1 stable in
        (
          Hung-Hangs nodes leaf_at touched new lo hi root 0 now' (up ∷ path') new lo hi stable'
              (update_parent-Hung nodes leaf_at touched new lo hi root 0 now up path' leaf new lo hi
                apart.0 hung)
              (leaf_part now' new some_),
          copy_here new,
          ready,
          new_ready.2,
        )

    redirect_leaf-IsMoved :
        (r : Redirection)
        → ((new_leaf : ℕ) → Above new_leaf r)
        → IsMoved (length fresh) (length path) (redirect_leaf need leaf_need contents leaf r)
    unfolding redirect_leaf
    redirect_leaf-IsMoved unrooted r = elim (r 0) [ ]
    redirect_leaf-IsMoved (no_block now root path' calls deunify) r =
        let (hung, stable, frame, few) = r leaf in
        (
          Hung-Hangs nodes leaf_at touched leaf lo hi root 0 now path' leaf lo hi stable hung
              (leaf_part now leaf some_),
          refl,
          omega (arith, few),
        )
    redirect_leaf-IsMoved (redirected now root path' [] calls deunify) r =
        elim (Bool-cases (leaf_need leaf)) [
          | inl n ↦
              let (hung, stable, frame, off, apart, ready, new_ready, enough) = r leaf in
              rw n (
                Hung-Hangs nodes leaf_at touched leaf lo hi root 0 now path' leaf lo hi stable hung
                    (leaf_part now leaf some_),
                refl,
                omega (arith, enough),
              )
          | inr n ↦ rw n (stay-IsMoved now root path' [] calls deunify (r leaf) n)
        ]
    redirect_leaf-IsMoved (redirected now root [] (new ∷ fresh') calls deunify) r =
        elim (Bool-cases (leaf_need leaf)) [
          | inl n ↦
              let h = (r new).0 in
              let same : (leaf == root) ≡ true = ground (arith, h.0) in
              rw (n, same) ((refl, h.1, h.2), copy_here new, tt, (r new).6.2)
          | inr n ↦ rw n (stay-IsMoved now root [] (new ∷ fresh') calls deunify (r leaf) n)
        ]
    redirect_leaf-IsMoved (redirected now root (up ∷ path') (new ∷ fresh') calls deunify) r =
        elim (Bool-cases (leaf_need leaf)) [
          | inl n ↦ rw n (
              copy-IsMoved now root up path' new fresh' calls
                (calls
                  ++ Entry.leaf_redirect leaf new
                    ∷ Entry.bnode_update up.buffer new (parent_entry now up).key
                    ∷ [])
                deunify (leaf ∷ []) (r new))
          | inr n ↦
              rw n (stay-IsMoved now root (up ∷ path') (new ∷ fresh') calls deunify (r leaf) n)
        ]

  -- The path of a cursor to a leaf with a range of keys that is not empty is redirected, in a btree that stands
  -- for a map. The buffers of the path and the new blocks are different, no other part of the btree lies in
  -- them, and a new block, once marked dirty, needs no redirect; `touched` is true of the blocks that may be
  -- written. No assert fails. After a success the path leads to a leaf with the same contents, the leaf itself
  -- or its copy, no buffer on the path needs a redirect, and the btree leads the keys of the leaf there and all
  -- others where it did. An error occurs only with no more new blocks than levels of nodes, and then the path
  -- and the btree lead the keys of the leaf to it as before, and all others where they did.
  pub cursor_redirect-IsMoved :
      (root : ℕ) (fresh : List ℕ) (path : Path_)
      → lo < hi
      → Hangs nodes leaf_at root 0 path leaf lo hi
      → AreClear nodes leaf_at touched leaf lo hi 0 path
      → AreApart path fresh
      → IsPathTouched nodes leaf_at touched leaf lo hi need leaf_need path
      → AreReady nodes leaf_at touched leaf lo hi need leaf_need fresh
      → IsMoved
          (length fresh)
          (length path)
          (cursor_redirect need leaf_need contents leaf fresh nodes root path)
  unfolding cursor_redirect
  cursor_redirect-IsMoved root fresh path some_ h clear apart t ready =
      redirect_leaf-IsMoved some_ fresh path (redirect_path need fresh nodes root path) (λ new.
        redirect_path-IsRedirected nodes leaf_at touched new lo hi need leaf_need path fresh root 0
          leaf lo hi
          (Hangs-Around nodes leaf_at touched new lo hi root 0 path leaf lo hi (omega arith)
            (omega arith) clear h)
          apart t ready)
