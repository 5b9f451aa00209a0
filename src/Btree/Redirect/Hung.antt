-- ===== src/Btree/Redirect/Hung.antt =====
-- kernel/btree.c: a path that hangs in a btree, with a parent changed or a level copied.
use tux3_fuse.Prelude.{ℕ, suc, ◌≡◌, refl, ◌∙◌, sym, subst, Bool, [], ◌∷◌, ◌++◌}
use tux3_fuse.Btree.{IndexEntry, Node}
use tux3_fuse.Btree.Cursor.{PathLevel, Path_}
use tux3_fuse.Btree.Cursor.Order.{Chain-append, IsMapped, Hangs}
use tux3_fuse.Btree.Insert.Places.{Ascends}
use tux3_fuse.Btree.Insert.Fits.{IsOff}
use tux3_fuse.Btree.Insert.Around.{
  inserted_at, IsStable, Around, Around-frame, IsMapped-node, nonempty,
}
use tux3_fuse.Btree.Insert.Writes.{Agree-frame}
use tux3_fuse.Btree.Redirect.{update_parent}
use tux3_fuse.Btree.Redirect.Parents.{
  update_parent-here, update_parent-else, upper-middle, Ascends-middle,
}

module _ (nodes : ℕ → Node) (leaf_at : ℕ → ℕ) (touched : ℕ → Bool) (new_leaf key limit : ℕ) where
  abbrev pub Hung : (root levels : ℕ) → (ℕ → Node) → Path_ → (block lo hi : ℕ) → Type 0
  Hung = Around nodes leaf_at touched new_leaf key limit

  -- A parent leads to another block in place of the old one.
  pub update_parent-Hung :
      (root levels : ℕ) (now : ℕ → Node) (at : PathLevel) (path : Path_) (old child lo hi : ℕ)
      → IsOff at.buffer path
      → Hung root levels now (at ∷ path) old lo hi
      → Hung root levels (update_parent now at child) (at ∷ path) child lo hi
  update_parent-Hung root levels now at path old child lo hi off h =
      let (pre, post, lo', hi', split, n, up, first, a, beside, above) = h in
      let e : IndexEntry = record { key = lo; block = old } in
      let x : IndexEntry = record { key = lo; block = child } in
      let here = update_parent-here now at pre post lo old child split n in
      (
        pre,
        post,
        lo',
        hi',
        here,
        n,
        up,
        upper-middle pre post x e hi' refl ∙ first,
        subst (λ (es : Node). Ascends es hi') (sym here)
            (Ascends-middle pre post e x hi' refl (subst (λ (es : Node). Ascends es hi') split a)),
        beside,
        Around-frame nodes leaf_at touched new_leaf key limit root (suc levels) now
            (update_parent now at child) path at.buffer lo' hi'
            (Agree-frame nodes leaf_at touched new_leaf key limit now (update_parent now at child)
              at.buffer at.buffer path (λ i b c. update_parent-else now at child i b) off off)
            above,
      )

  -- A level, or its copy, below other levels.
  pub Hung-level :
      (root root' levels : ℕ) (was now : ℕ → Node) (at : PathLevel) (path path' : Path_)
      (buffer block lo hi : ℕ) (h : Hung root levels was (at ∷ path) block lo hi)
      → now buffer ≡ was at.buffer
      → Hung root' (suc levels) now path' buffer h.2 h.3
      → Hung root' levels now (record at { buffer = buffer } ∷ path') block lo hi
  Hung-level root root' levels was now at path path' buffer block lo hi h same above' =
      let (pre, post, lo', hi', split, n, up, first, a, beside, above) = h in
      (
        pre,
        post,
        lo',
        hi',
        same ∙ split,
        n,
        up,
        first,
        subst (λ (es : Node). Ascends es hi') (sym same) a,
        beside,
        above',
      )

  abbrev pub Stable : (ℕ → Node) → Type 0
  Stable = IsStable nodes leaf_at touched new_leaf key limit

  -- The path of a cursor in a btree with the new map, where its block has its part of the map.
  pub Hung-Hangs :
      (root levels : ℕ) (now : ℕ → Node) (path : Path_) (block lo hi : ℕ)
      → Stable now
      → Hung root levels now path block lo hi
      → IsMapped now (inserted_at nodes leaf_at touched new_leaf key limit) levels block lo hi
      → Hangs now
          (inserted_at nodes leaf_at touched new_leaf key limit)
          root
          levels
          path
          block
          lo
          hi
  Hung-Hangs root levels now [] block lo hi stable h m = h
  Hung-Hangs root levels now (at ∷ path) block lo hi stable h m =
      let (pre, post, lo', hi', split, n, up, first, a, beside, above) = h in
      let e : IndexEntry = record { key = lo; block = block } in
      let map = inserted_at nodes leaf_at touched new_leaf key limit in
      let (left, right) = beside now stable in
      let chain =
        Chain-append (IsMapped now map levels) pre (e ∷ post) hi' left
          (subst (λ (x : ℕ). IsMapped now map levels block lo x) (sym up) m, right) in
      let node =
        IsMapped-node nodes leaf_at touched new_leaf key limit now levels at.buffer lo' hi'
          (pre ++ e ∷ post) split (nonempty pre post e) first chain in
      (
        pre,
        post,
        lo',
        hi',
        split,
        n,
        up,
        node,
        Hung-Hangs root (suc levels) now path at.buffer lo' hi' stable above node,
      )
