-- ===== src/Btree/Cursor/Hanging.antt =====
-- kernel/btree.c: the descent of the cursor in a btree whose keys are in order.
use tux3_fuse.Prelude.{
  ℕ, zero, suc, ◌+◌, ◌≡◌, refl, ap, ap₂, ◌∙◌, sym, subst, Bool, Bool-cases, inl, inr, [], ◌∷◌, ◌++◌,
  length, length-append, get_or, arith,
}
use tux3_fuse.Btree.{IndexEntry, Node, no_entry}
use tux3_fuse.Btree.Cursor.{PathLevel, Path_, next_entry, Descent, eio, failed, at_leaf, descend}
use tux3_fuse.Btree.Cursor.Checked.{cursor_check-Hangs}
use tux3_fuse.Btree.Cursor.Leaves.{IsTree, IsPath, AllEntries}
use tux3_fuse.Btree.Cursor.Order.{upper, Chain, Chain-split, get_or-middle, IsMapped, Hangs}

module _ (read_fails : ℕ → Bool) (nodes : ℕ → Node) (leaf_at : ℕ → ℕ) (root : ℕ) where
  Chain-AllEntries :
      (levels : ℕ) (es : Node) (hi : ℕ)
      → ((block lo hi : ℕ) → IsMapped nodes leaf_at levels block lo hi → IsTree nodes levels block)
      → Chain (IsMapped nodes leaf_at levels) es hi
      → AllEntries nodes (IsTree nodes levels) es
  Chain-AllEntries levels [] hi below h = tt
  Chain-AllEntries levels (e ∷ es) hi below h =
      (below e.block e.key (upper es hi) h.0, Chain-AllEntries levels es hi below h.1)

  IsMapped-IsTree :
      (levels block lo hi : ℕ)
      → IsMapped nodes leaf_at levels block lo hi
      → IsTree nodes levels block
  IsMapped-IsTree zero block lo hi h = tt
  IsMapped-IsTree (suc levels) block lo hi h =
      let (some_entry, first, chain) = h in
      (some_entry, Chain-AllEntries levels (nodes block) hi (IsMapped-IsTree levels) chain)

  pub Hangs-IsPath :
      (levels : ℕ) (path : Path_) (block lo hi : ℕ)
      → Hangs nodes leaf_at root levels path block lo hi
      → IsPath nodes levels path
  Hangs-IsPath levels [] block lo hi h = tt
  Hangs-IsPath levels (at ∷ path) block lo hi h =
      let (pre, post, lo', hi', split, place, bound, mapped, above) = h in
      (
        omega (
          arith,
          place,
          ap length split,
          length-append pre (record { key = lo; block = block } ∷ post),
        ),
        IsMapped-IsTree (suc levels) at.buffer lo' hi' mapped,
        Hangs-IsPath (suc levels) path at.buffer lo' hi' above,
      )

  -- a place before an entry of a node, in a btree
  abbrev pub IsAt : (levels : ℕ) → PathLevel → Path_ → (from : ℕ) → Type 0
  IsAt levels at path from =
      (pre : Node) × (e : IndexEntry) × (post : Node) × (lo : ℕ) × (hi : ℕ) × (nodes at.buffer
        ≡ pre ++ e ∷ post)
      × (at.next ≡ length pre)
      × (e.key ≡ from)
      × IsMapped nodes leaf_at (suc levels) at.buffer lo hi
      × Hangs nodes leaf_at root (suc levels) path at.buffer lo hi

  -- a path to a leaf that has the keys from `from` on
  abbrev pub IsBelow : (from : ℕ) → Descent → Type 0
  IsBelow from eio = Unit {0}
  IsBelow from failed = ⊥
  IsBelow from (at_leaf leaf path) = (hi : ℕ) × Hangs nodes leaf_at root 0 path leaf from hi

  -- the step past the entry
  IsAt-Hangs :
      (levels : ℕ) (at : PathLevel) (path : Path_) (from : ℕ)
      → IsAt levels at path from
      → (hi : ℕ) × Hangs nodes leaf_at root levels
          (record at { next = at.next + 1 } ∷ path)
          (next_entry nodes at).block
          from
          hi
        × IsMapped nodes leaf_at levels (next_entry nodes at).block from hi
  IsAt-Hangs levels at path from h =
      let (pre, e, post, lo, hi, split, place, key, mapped, above) = h in
      let here : next_entry nodes at ≡ e =
        ap₂ (λ (es : Node) (i : ℕ). get_or es i no_entry) split place ∙ get_or-middle pre post e in
      let (front, back) =
        Chain-split (IsMapped nodes leaf_at levels) pre (e ∷ post) hi
          (subst (λ (es : Node). Chain (IsMapped nodes leaf_at levels) es hi) split mapped.2) in
      let entry : e ≡ record { key = from; block = e.block } =
        ap (λ (k : ℕ). record { key = k; block = e.block }) key in
      subst
        (λ (c : ℕ).
          (hi : ℕ) × Hangs nodes leaf_at root levels (record at { next = at.next + 1 } ∷ path) c
            from hi
          × IsMapped nodes leaf_at levels c from hi)
        (sym (ap (λ (x : IndexEntry). x.block) here))
        (
          upper post hi,
          (
            pre,
            post,
            lo,
            hi,
            split ∙ ap (λ (x : IndexEntry). pre ++ x ∷ post) entry,
            omega (arith, place),
            refl,
            mapped,
            above,
          ),
          subst (λ (k : ℕ). IsMapped nodes leaf_at levels e.block k (upper post hi)) key back.0,
        )

  IsMapped-IsAt :
      (levels block : ℕ) (path : Path_) (from hi : ℕ)
      → IsMapped nodes leaf_at (suc levels) block from hi
      → Hangs nodes leaf_at root (suc levels) path block from hi
      → IsAt levels (record { buffer = block; next = 0 }) path from
  IsMapped-IsAt levels block path from hi mapped above = go (nodes block) refl
    where
      go :
          (es : Node)
          → nodes block ≡ es
          → IsAt levels (record { buffer = block; next = 0 }) path from
      go [] none_there = absurd (omega (arith, mapped.0, ap length none_there))
      go (e ∷ es) split = (
        [],
        e,
        es,
        from,
        hi,
        split,
        refl,
        ap (λ (t : Node). upper t hi) (sym split) ∙ mapped.1,
        mapped,
        above,
      )

  -- The descent from a place before an entry leads to a leaf whose keys begin with the one of the entry, or stops
  -- at a block that cannot be read.
  pub descend-IsBelow :
      (levels : ℕ) (at : PathLevel) (path : Path_) (from : ℕ)
      → IsAt levels at path from
      → IsBelow from (descend read_fails nodes root levels at path)
  unfolding descend
  descend-IsBelow zero at path from h =
      let (hi, hangs, mapped) = IsAt-Hangs zero at path from h in
      let checked =
        cursor_check-Hangs nodes leaf_at root zero (record at { next = at.next + 1 } ∷ path)
          (next_entry nodes at).block from hi hangs in
      elim (Bool-cases (read_fails (next_entry nodes at).block)) [
        | inl e ↦ rw e tt
        | inr e ↦ rw (e, checked) (hi, hangs)
      ]
  descend-IsBelow (suc levels) at path from h =
      let (hi, hangs, mapped) = IsAt-Hangs (suc levels) at path from h in
      let child = (next_entry nodes at).block in
      let path' : Path_ = record at { next = at.next + 1 } ∷ path in
      let checked = cursor_check-Hangs nodes leaf_at root (suc levels) path' child from hi hangs in
      elim (Bool-cases (read_fails child)) [
        | inl e ↦ rw e tt
        | inr e ↦
            rw (e, checked)
              (descend-IsBelow levels (record { buffer = child; next = 0 }) path' from
                (IsMapped-IsAt levels child path' from hi mapped hangs))
      ]
