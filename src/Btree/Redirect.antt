-- ===== src/Btree/Redirect.antt =====
-- kernel/btree.c: the copy of the buffers on the path of a cursor that may not be written in place. The levels
-- are worked from the root down to the leaf; the new blocks are a list, the answers of the allocator to
-- new_block, and where it is used up the answer was an error. `need` says which buffers are not dirty yet.
pub mod Parents
pub mod Hung
pub mod Levels
pub mod Moved
pub mod Calls
pub mod Replayed
mod Tests
use tux3_fuse.Prelude.{ℕ, ◌-◌, Bool, List, [], ◌∷◌, ◌++◌, ◌==◌, if◌then◌else◌, get_or, set}
use tux3_fuse.Log.Entry.{Entry}
use tux3_fuse.Btree.{IndexEntry, Node, no_entry}
use tux3_fuse.Btree.Cursor.{PathLevel, Path_}
use tux3_fuse.Btree.Insert.{write_node}

-- The nodes, the root, the path of index nodes and the log calls, with the blocks given to sb->deunify:
-- at an error of new_block, and after all of the levels. `unrooted` is the failed assert on the root.
pub data Redirection : Type 0 where
  unrooted : Redirection
  no_block :
      (nodes : ℕ → Node)
      → (root : ℕ) → Path_
      → (calls : List Entry) → (deunify : List ℕ) → Redirection
  redirected :
      (nodes : ℕ → Node)
      → (root : ℕ) → Path_
      → (fresh : List ℕ) → (calls : List Entry) → (deunify : List ℕ) → Redirection

-- the entry of the parent that the cursor has just passed
abbrev pub parent_entry : (ℕ → Node) → PathLevel → IndexEntry
parent_entry nodes at = get_or (nodes at.buffer) (at.next - 1) no_entry

abbrev pub update_parent : (ℕ → Node) → PathLevel → (child : ℕ) → ℕ → Node
update_parent nodes at child = write_node nodes at.buffer (
    set (nodes at.buffer) (at.next - 1)
      (record { key = (parent_entry nodes at).key; block = child }))

-- The level copied to the block `new`, below the levels of the path.
unfoldable pub redirect_level :
    (at : PathLevel) (new : ℕ) (fresh : List ℕ) (nodes : ℕ → Node) (root : ℕ)
    → Path_
    → (calls : List Entry) → (deunify : List ℕ) → Redirection
redirect_level at new fresh nodes root [] calls deunify =
    if at.buffer == root
    then redirected (write_node nodes new (nodes at.buffer)) new (record at { buffer = new } ∷ [])
        fresh (calls ++ Entry.bnode_redirect at.buffer new ∷ []) (deunify ++ at.buffer ∷ [])
    else unrooted
redirect_level at new fresh nodes root (up ∷ path) calls deunify =
    let nodes' = write_node nodes new (nodes at.buffer) in
    redirected (update_parent nodes' up new) root (record at { buffer = new } ∷ up ∷ path) fresh
      (calls
        ++ Entry.bnode_redirect at.buffer new
          ∷ Entry.bnode_update up.buffer new (parent_entry nodes' up).key
          ∷ [])
      (deunify ++ at.buffer ∷ [])

module _ (need : ℕ → Bool) where
  -- a level, after those above it
  unfoldable pub next_level : PathLevel → Redirection → Redirection
  next_level at unrooted = unrooted
  next_level at (no_block nodes root path calls deunify) =
      no_block nodes root (at ∷ path) calls deunify
  next_level at (redirected nodes root path [] calls deunify) =
      if need at.buffer
      then no_block nodes root (at ∷ path) calls deunify
      else redirected nodes root (at ∷ path) [] calls deunify
  next_level at (redirected nodes root path (new ∷ fresh) calls deunify) =
      if need at.buffer
      then redirect_level at new fresh nodes root path calls deunify
      else redirected nodes root (at ∷ path) (new ∷ fresh) calls deunify

  unfoldable pub redirect_path :
      (fresh : List ℕ) (nodes : ℕ → Node) (root : ℕ) → Path_ → Redirection
  redirect_path fresh nodes root [] = redirected nodes root [] fresh [] []
  redirect_path fresh nodes root (at ∷ path) = next_level at (redirect_path fresh nodes root path)

-- The result with the leaf level, the contents of the leaf blocks being of any type.
pub data Redirect (L : Type 0) : Type 0 where
  assert_failed : Redirect L
  stopped moved :
      (nodes : ℕ → Node)
      → (root : ℕ) → Path_
      → (leaf : ℕ) → (contents : ℕ → L) → (calls : List Entry) → (deunify defree : List ℕ)
      → Redirect L

module _ (need leaf_need : ℕ → Bool) {L : Type 0} (contents : ℕ → L) (leaf : ℕ) where
  abbrev pub copied_leaf : (new : ℕ) → ℕ → L
  copied_leaf new = λ i. if i == new then contents leaf else contents i

  unfoldable pub redirect_leaf : Redirection → Redirect L
  redirect_leaf unrooted = assert_failed
  redirect_leaf (no_block nodes root path calls deunify) =
      stopped nodes root path leaf contents calls deunify []
  redirect_leaf (redirected nodes root path [] calls deunify) =
      if leaf_need leaf
      then stopped nodes root path leaf contents calls deunify []
      else moved nodes root path leaf contents calls deunify []
  redirect_leaf (redirected nodes root [] (new ∷ fresh) calls deunify) =
      if leaf_need leaf
      then (if leaf == root
          then moved nodes new [] new (copied_leaf new) (calls ++ Entry.leaf_redirect leaf new ∷ [])
              deunify (leaf ∷ [])
          else assert_failed)
      else moved nodes root [] leaf contents calls deunify []
  redirect_leaf (redirected nodes root (up ∷ path) (new ∷ fresh) calls deunify) =
      if leaf_need leaf
      then moved (update_parent nodes up new) root (up ∷ path) new (copied_leaf new)
          (calls
            ++ Entry.leaf_redirect leaf new
              ∷ Entry.bnode_update up.buffer new (parent_entry nodes up).key
              ∷ [])
          deunify (leaf ∷ [])
      else moved nodes root (up ∷ path) leaf contents calls deunify []

  unfoldable pub cursor_redirect :
      (fresh : List ℕ) (nodes : ℕ → Node) (root : ℕ) → Path_ → Redirect L
  cursor_redirect fresh nodes root path = redirect_leaf (redirect_path need fresh nodes root path)
