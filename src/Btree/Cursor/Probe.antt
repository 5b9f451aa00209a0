-- ===== src/Btree/Cursor/Probe.antt =====
-- kernel/btree.c: the probe for a key sets the cursor to the leaf of the key.
use tux3_fuse.Prelude.{
  ℕ, zero, suc, ◌+◌, ◌-◌, ◌≤◌, ◌<◌, ◌≡◌, refl, ap, ◌∙◌, sym, subst, Bool, true, false, Bool-cases,
  inl, inr, Option, none, some, [], ◌∷◌, ◌++◌, length, length-append, get_or, ◌==◌, if◌then◌else◌,
  arith,
}
use tux3_fuse.Prelude.Slices.{get_or-append-right}
use tux3_fuse.Btree.{IndexEntry, Node, no_entry, passed, bnode_lookup}
use tux3_fuse.Btree.Cursor.{
  PathLevel, Path_, tuxkey_limit, cursor_next_key, cursor_this_key, Descent, eio, failed, at_leaf,
  pushed, descend, probe_down, btree_probe,
}
use tux3_fuse.Btree.Cursor.Checked.{cursor_check-Hangs}
use tux3_fuse.Btree.Cursor.Order.{
  upper, Chain, Chain-split, get_or-middle, passed-place, IsMapped, Hangs,
}

-- the next key in a node, where the cursor is at the place of an entry
next_key-upper :
    (es pre post : Node) (e : IndexEntry) (next above hi : ℕ)
    → es ≡ pre ++ e ∷ post
    → next ≡ suc (length pre)
    → above ≡ hi
    → (if next == length es then above else (get_or es next no_entry).key) ≡ upper post hi
next_key-upper es pre [] e next above hi split n a =
    let size : length es ≡ length pre + 1 =
      ap (λ (l : Node). length l) split ∙ length-append pre (e ∷ []) in
    let last : (next == length es) ≡ true = ground (arith, size, n) in rw last a
next_key-upper es pre (x ∷ post) e next above hi split n a =
    let size : length es ≡ length pre + suc (suc (length post)) =
      ap (λ (l : Node). length l) split ∙ length-append pre (e ∷ x ∷ post) in
    let more : (next == length es) ≡ false = ground (arith, size, n) in
    rw more (
      ap (λ (l : Node). (get_or l next no_entry).key) split
      ∙ ap (λ (y : IndexEntry). y.key)
          (get_or-append-right pre (e ∷ x ∷ post) next 1 no_entry (omega (arith, n))))

module _ (nodes : ℕ → Node) (leaf_at : ℕ → ℕ) (root : ℕ) where
  -- the bounds of the keys of a leaf, as the cursor finds them
  pub cursor_next_key-Hangs :
      (levels : ℕ) (path : Path_) (block lo hi : ℕ)
      → Hangs nodes leaf_at root levels path block lo hi
      → cursor_next_key nodes path ≡ hi
  unfolding cursor_next_key
  cursor_next_key-Hangs levels [] block lo hi h = sym h.2
  cursor_next_key-Hangs levels (at ∷ path) block lo hi h =
      let (pre, post, lo', hi', es, n, u, o, above) = h in
      next_key-upper (nodes at.buffer) pre post (record { key = lo; block = block }) at.next
        (cursor_next_key nodes path) hi' es n
        (cursor_next_key-Hangs (suc levels) path at.buffer lo' hi' above)
      ∙ u

  pub cursor_this_key-Hangs :
      (levels : ℕ) (at : PathLevel) (path : Path_) (block lo hi : ℕ)
      → Hangs nodes leaf_at root levels (at ∷ path) block lo hi
      → cursor_this_key nodes (at ∷ path) ≡ lo
  unfolding cursor_this_key
  cursor_this_key-Hangs levels at path block lo hi h =
      let (pre, post, lo', hi', es, n, u, o, above) = h in
      let e : IndexEntry = record { key = lo; block = block } in
      let at_pre : at.next - 1 ≡ length pre = omega (arith, n) in
      ap (λ (l : Node). (get_or l (at.next - 1) no_entry).key) es
      ∙ ap (λ (i : ℕ). (get_or (pre ++ e ∷ post) i no_entry).key) at_pre
      ∙ ap (λ (x : IndexEntry). x.key) (get_or-middle pre post e)

  -- What a lookup in a node of a btree finds: the child for the key with its bounds, and the place of its entry.
  abbrev IsChild : (levels : ℕ) → Node → (key hi at : ℕ) → Type 0
  IsChild levels es key hi at =
      (pre : Node) × (post : Node) × (low : ℕ) × (child : ℕ) × (es
        ≡ pre ++ record { key = low; block = child } ∷ post)
      × (at ≡ length pre)
      × (low ≤ key)
      × (key < upper post hi)
      × IsMapped nodes leaf_at levels child low (upper post hi)

  bnode_lookup-IsChild :
      (levels key lo hi : ℕ) (es : Node)
      → (0 < length es) × (upper es hi ≡ lo) × Chain (IsMapped nodes leaf_at levels) es hi
      → lo ≤ key
      → key < hi
      → (at : ℕ) × (bnode_lookup es key ≡ some at) × IsChild levels es key hi at
  unfolding bnode_lookup
  bnode_lookup-IsChild levels key lo hi [] o low high = absurd (omega (arith, o.0))
  bnode_lookup-IsChild levels key lo hi (first ∷ rest) o low high =
      let (pre, e, post, split, p, l, h) =
        passed-place first rest key hi (omega (arith, o.1, low)) high in
      let chain =
        Chain-split (IsMapped nodes leaf_at levels) pre (e ∷ post) hi
          (subst (λ (es : Node). Chain (IsMapped nodes leaf_at levels) es hi) split o.2) in
      (passed key rest, refl, (pre, post, e.key, e.block, split, p, l, h, chain.1.0))

  place :
      (es pre post : Node) (low child at : ℕ)
      → es ≡ pre ++ record { key = low; block = child } ∷ post
      → at ≡ length pre
      → (get_or es at no_entry).block ≡ child
  place es pre post low child at split n =
      ap (λ (l : Node). (get_or l at no_entry).block) split
      ∙ ap
          (λ (i : ℕ). (get_or (pre ++ record { key = low; block = child } ∷ post) i no_entry).block)
          n
      ∙ ap (λ (x : IndexEntry). x.block)
          (get_or-middle pre post (record { key = low; block = child }))

  -- where the probe for a key ends
  abbrev pub IsProbed : (read_fails : ℕ → Bool) → (depth leaf_ key : ℕ) → Descent → Type 0
  IsProbed read_fails depth leaf_ key eio = (b : ℕ) × (read_fails b ≡ true)
  IsProbed read_fails depth leaf_ key failed = ⊥
  IsProbed read_fails depth leaf_ key (at_leaf leaf path) =
      (leaf ≡ leaf_)
      × (length path ≡ depth)
      × (lo : ℕ) × (hi : ℕ) × (lo ≤ key)
      × (key < hi)
      × (cursor_this_key nodes path ≡ lo)
      × (cursor_next_key nodes path ≡ hi)
      × Hangs nodes leaf_at root 0 path leaf lo hi

  -- a step down to a block that hangs below the path, and what follows when it can be read
  IsProbed-pushed :
      (read_fails : ℕ → Bool) (depth leaf_ block : ℕ) (d : Descent) (key levels : ℕ) (path : Path_)
      (lo hi : ℕ)
      → Hangs nodes leaf_at root levels path block lo hi
      → IsProbed read_fails depth leaf_ key d
      → IsProbed read_fails depth leaf_ key (pushed read_fails nodes root block path d)
  IsProbed-pushed read_fails depth leaf_ block d key levels path lo hi hung h =
      let checked = cursor_check-Hangs nodes leaf_at root levels path block lo hi hung in
      elim (Bool-cases (read_fails block)) [ inl f ↦ rw f (block, f) | inr f ↦ rw (f, checked) h ]

  -- a read of a block, and what follows when it succeeds
  IsProbed-read :
      (read_fails : ℕ → Bool) (depth leaf_ block : ℕ) (d : Descent) (key : ℕ)
      → (read_fails block ≡ false → IsProbed read_fails depth leaf_ key d)
      → IsProbed read_fails depth leaf_ key (if read_fails block then eio else d)
  IsProbed-read read_fails depth leaf_ block d key h = elim (Bool-cases (read_fails block)) [
    | inl f ↦
        subst (λ (b : Bool). IsProbed read_fails depth leaf_ key (if b then eio else d)) (sym f)
          (block, f)
    | inr f ↦
        subst (λ (b : Bool). IsProbed read_fails depth leaf_ key (if b then eio else d)) (sym f)
          (h f)
  ]

  module _ (read_fails : ℕ → Bool) (key : ℕ) where
    probe_down-IsProbed :
        (levels block lo hi : ℕ) (path : Path_)
        → IsMapped nodes leaf_at (suc levels) block lo hi
        → lo ≤ key
        → key < hi
        → Hangs nodes leaf_at root (suc levels) path block lo hi
        → IsProbed read_fails
            (suc levels + length path)
            (leaf_at key)
            key
            (probe_down read_fails nodes root key levels block path)
    unfolding probe_down descend
    probe_down-IsProbed zero block lo hi path o low high h =
        let (at, e, found) = bnode_lookup-IsChild 0 key lo hi (nodes block) o low high in
        let (pre, post, low', child, es, n, l, u, sub) = found in
        let here = place (nodes block) pre post low' child at es n in
        let hung : Hangs nodes leaf_at root 0 (record { buffer = block; next = at + 1 } ∷ path)
            child low' (upper post hi) =
          (pre, post, lo, hi, es, omega (arith, n), refl, o, h) in
        let this =
          cursor_this_key-Hangs 0 (record { buffer = block; next = at + 1 }) path child low'
            (upper post hi) hung in
        let next =
          cursor_next_key-Hangs 0 (record { buffer = block; next = at + 1 } ∷ path) child low'
            (upper post hi) hung in
        let path' : Path_ = record { buffer = block; next = at + 1 } ∷ path in
        let stepped =
          ap
            (λ (o : Option ℕ). elim o as (λ _. Descent) [
              | none ↦ failed
              | some next ↦
                  descend read_fails nodes root zero (record { buffer = block; next = next }) path
            ])
            e
          ∙ ap (λ (c : ℕ). pushed read_fails nodes root c path' (at_leaf c path')) here in
        subst (IsProbed read_fails (1 + length path) (leaf_at key) key) (sym stepped) (
          IsProbed-pushed read_fails (1 + length path) (leaf_at key) child (at_leaf child path') key
            0 path' low' (upper post hi) hung
            (sym (sub.1 key l u), omega arith, low', upper post hi, l, u, this, next, hung))
    probe_down-IsProbed (suc levels) block lo hi path o low high h =
        let (at, e, found) = bnode_lookup-IsChild (suc levels) key lo hi (nodes block) o low high in
        let (pre, post, low', child, es, n, l, u, sub) = found in
        let here = place (nodes block) pre post low' child at es n in
        let hung : Hangs nodes leaf_at root (suc levels)
            (record { buffer = block; next = at + 1 } ∷ path) child low' (upper post hi) =
          (pre, post, lo, hi, es, omega (arith, n), refl, o, h) in
        let path' : Path_ = record { buffer = block; next = at + 1 } ∷ path in
        let below = probe_down-IsProbed levels child low' (upper post hi) path' sub l u hung in
        let depth : suc levels + suc (length path) ≡ suc (suc levels) + length path = omega arith in
        let stepped =
          ap
            (λ (o : Option ℕ). elim o as (λ _. Descent) [
              | none ↦ failed
              | some next ↦
                  pushed read_fails nodes root (get_or (nodes block) next no_entry).block
                    (record { buffer = block; next = next + 1 } ∷ path)
                    (probe_down read_fails nodes root key levels
                      (get_or (nodes block) next no_entry).block
                      (record { buffer = block; next = next + 1 } ∷ path))
            ])
            e
          ∙ ap
              (λ (c : ℕ).
                pushed read_fails nodes root c path'
                  (probe_down read_fails nodes root key levels c path'))
              here in
        subst (IsProbed read_fails (suc (suc levels) + length path) (leaf_at key) key) (sym stepped)
          (IsProbed-pushed read_fails (suc (suc levels) + length path) (leaf_at key) child
            (probe_down read_fails nodes root key levels child path') key (suc levels) path' low'
            (upper post hi) hung
            (subst
              (λ (d : ℕ).
                IsProbed read_fails d (leaf_at key) key
                  (probe_down read_fails nodes root key levels child path'))
              depth below))

    -- In a btree with at least one level that stands for a map from keys to leaves, the probe for a key stops
    -- at a block that cannot be read, or ends at the leaf that the map has for the key: the path of the cursor
    -- has the depth of the btree and leads to that leaf, whose keys from `lo` up to `hi` include the key,
    -- and these are the bounds that cursor_this_key and cursor_next_key give. No assert fails.
    pub btree_probe-IsProbed :
        (levels : ℕ)
        → IsMapped nodes leaf_at (suc levels) root 0 tuxkey_limit
        → key < tuxkey_limit
        → IsProbed read_fails
            (suc levels)
            (leaf_at key)
            key
            (btree_probe read_fails nodes root (suc levels) key)
    unfolding btree_probe
    btree_probe-IsProbed levels o small =
        let found =
          probe_down-IsProbed levels root 0 tuxkey_limit [] o (omega arith) small
            (refl, refl, refl) in
        let depth : suc levels + 0 ≡ suc levels = omega arith in
        IsProbed-read read_fails (suc levels) (leaf_at key) root
          (probe_down read_fails nodes root key levels root []) key
          (λ f.
            subst
              (λ (d : ℕ).
                IsProbed read_fails d (leaf_at key) key
                  (probe_down read_fails nodes root key levels root []))
              depth found)
