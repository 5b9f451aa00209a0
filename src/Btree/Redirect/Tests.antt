-- ===== src/Btree/Redirect/Tests.antt =====
-- The buffers 10 and 20 and the leaf 101 of the sample are copied.
use tux3_fuse.Prelude.{ℕ, ◌≡◌, refl, Bool, false, ◌||◌, List, [], ◌∷◌, ◌==◌, arith}
use tux3_fuse.Log.Entry.{Entry}
use tux3_fuse.Btree.Redirect.{
  Redirect, assert_failed, stopped, moved, cursor_redirect, redirect_path, redirect_leaf,
  redirect_level, next_level,
}
use tux3_fuse.Btree.Redirect.Moved.{IsMoved, cursor_redirect-IsMoved}
use tux3_fuse.Btree.Redirect.Replayed.{IsReplayed, cursor_redirect-IsReplayed}
use tux3_fuse.Btree.Sample.{tree, leaf_of, path, fresh, written, path-Hangs}

abbrev need : ℕ → Bool
need block = block == 10 || block == 20

abbrev leaf_need : ℕ → Bool
leaf_need block = block == 101

-- the contents of a leaf block, here its number
abbrev bytes : ℕ → ℕ
bytes block = block

calls_of : Redirect ℕ → List Entry
calls_of assert_failed = []
calls_of (stopped nodes root at leaf contents calls deunify defree) = calls
calls_of (moved nodes root at leaf contents calls deunify defree) = calls

redirect_runs :
    calls_of (cursor_redirect need leaf_need bytes 101 fresh tree 10 path)
    ≡ Entry.bnode_redirect 10 30
      ∷ Entry.bnode_redirect 20 31
      ∷ Entry.bnode_update 30 31 0
      ∷ Entry.leaf_redirect 101 32
      ∷ Entry.bnode_update 31 32 30
      ∷ []
unfolding cursor_redirect redirect_path redirect_leaf redirect_level next_level calls_of
redirect_runs = refl

cursor_redirect-IsMoved_example :
    IsMoved tree leaf_of written need leaf_need bytes 101 30 50 3 2
      (cursor_redirect need leaf_need bytes 101 fresh tree 10 path)
cursor_redirect-IsMoved_example =
    cursor_redirect-IsMoved tree leaf_of written need leaf_need bytes 101 30 50 10 fresh path
      (omega arith) path-Hangs ((tt, tt), tt, (tt, ((refl, (tt, (tt, tt))), tt), tt))
      (
        (refl, tt),
        (refl, (refl, (refl, tt))),
        (tt, (refl, (refl, (refl, tt))), ((refl, (refl, tt)), ((refl, tt), (tt, tt)))),
      )
      (refl, (refl, tt)) (refl, refl, refl, (refl, refl, refl, (refl, refl, refl, tt)))

cursor_redirect-IsReplayed_example :
    IsReplayed
      (λ b. false)
      (λ b. false)
      (λ b. refl)
      (λ b. refl)
      2
      need
      leaf_need
      bytes
      101
      tree
      (cursor_redirect need leaf_need bytes 101 fresh tree 10 path)
cursor_redirect-IsReplayed_example =
    cursor_redirect-IsReplayed (λ b. false) (λ b. false) (λ b. refl) (λ b. refl) 2 need leaf_need
      bytes 101 tree leaf_of written 10 30 50 fresh path (omega arith) path-Hangs
      ((tt, tt), tt, (tt, ((refl, (tt, (tt, tt))), tt), tt))
      (
        (refl, tt),
        (refl, (refl, (refl, tt))),
        (tt, (refl, (refl, (refl, tt))), ((refl, (refl, tt)), ((refl, tt), (tt, tt)))),
      )
      (refl, (refl, tt)) (refl, refl, refl, (refl, refl, refl, (refl, refl, refl, tt)))
