-- ===== src/Btree/Insert/Mapped.antt =====
-- kernel/btree.c: an insertion gives the keys of a range a new leaf.
use tux3_fuse.Prelude.{
  ℕ, suc, ◌+◌, ◌/◌, ◌≤◌, ◌<◌, ◌≡◌, refl, ◌∙◌, subst, Bool, false, Bool-cases, inl, inr, List, [],
  ◌∷◌, length, get_or, leb, ltb, ◌==◌, arith,
}
use tux3_fuse.Log.Entry.{Entry}
use tux3_fuse.Btree.{Node, no_entry}
use tux3_fuse.Btree.Cursor.{PathLevel, Path_, tuxkey_limit}
use tux3_fuse.Btree.Cursor.Order.{Chain, Chain-split, IsMapped, Hangs}
use tux3_fuse.Btree.Insert.{
  Insertion, no_block, inserted, behind_level, split_place, split_nodes, add_entry, kept, insert_up,
  insert_leaf,
}
use tux3_fuse.Btree.Insert.Fits.{AreApart, split-frame}
use tux3_fuse.Btree.Insert.Around.{AreClear, Around, Around-frame, Hangs-Around}
use tux3_fuse.Btree.Insert.Writes.{Agree-frame, IsStable-write}
use tux3_fuse.Btree.Insert.Parts.{
  AreTouched, Maps, Stable, AreParts, room-IsMapped, split-AreParts, root-IsMapped,
}

module _ (nodes : ℕ → Node) (leaf_at : ℕ → ℕ) (touched : ℕ → Bool)
    (new_leaf key₀ limit entries_per_node root depth : ℕ) where
  -- A success leaves a btree with the new map, and there is no failure with more new blocks than levels.
  abbrev pub IsInserted : (blocks levels : ℕ) → Insertion → Type 0
  IsInserted blocks levels (no_block now calls) = blocks ≤ levels
  IsInserted blocks levels (inserted now root' depth' path calls) =
      Maps nodes leaf_at touched new_leaf key₀ limit entries_per_node root depth now depth' root' 0
        tuxkey_limit

  IsInserted-behind :
      (blocks levels : ℕ) (at : PathLevel) (calls : List Entry) (r : Insertion)
      → IsInserted blocks levels r
      → IsInserted (suc blocks) (suc levels) (behind_level at calls r)
  IsInserted-behind blocks levels at calls (no_block now calls') h = omega (arith, h)
  IsInserted-behind blocks levels at calls (inserted now root' depth' path calls') h = h

  insert_up-IsInserted :
      (keep : Bool) (key child below levels block lo hi : ℕ) (fresh : List ℕ) (now : ℕ → Node)
      (path : Path_)
      → 1 < entries_per_node
      → levels + length path ≡ depth
      → Stable nodes leaf_at touched new_leaf key₀ limit entries_per_node root depth now
      → AreTouched touched path fresh
      → AreApart path fresh
      → Around nodes leaf_at touched new_leaf key₀ limit root levels now path block lo hi
      → AreParts nodes leaf_at touched new_leaf key₀ limit entries_per_node root depth now path
          fresh levels block child lo key hi
      → IsInserted
          (length fresh)
          (length path)
          (insert_up entries_per_node root depth keep key child below fresh now path)
  unfolding insert_up
  insert_up-IsInserted keep key child below levels block lo hi [] now [] two d stable t apart h
        parts =
      omega arith
  insert_up-IsInserted keep key child below levels block lo hi (new ∷ fresh) now [] two d stable t
        apart h parts =
      root-IsMapped nodes leaf_at touched new_leaf key₀ limit entries_per_node root depth key child
        levels block lo hi new fresh now d stable t.1.0 h parts
  insert_up-IsInserted keep key child below levels block lo hi [] now (at ∷ path) two d stable t
        apart h parts =
      elim (Bool-cases (ltb (length (now at.buffer)) entries_per_node)) [
        | inl room ↦ rw room (
            room-IsMapped nodes leaf_at touched new_leaf key₀ limit entries_per_node root depth now
              at path [] levels block child lo key hi d stable t.0.0 apart h parts)
        | inr full ↦ rw full (omega arith)
      ]
  insert_up-IsInserted keep key child below levels block lo hi (new ∷ fresh) now (at ∷ path) two d
        stable t apart h parts =
      let half = length (now at.buffer) / 2 in
      let place = split_place half new at in
      let now' = add_entry (split_nodes now half new at.buffer) place child key in
      let frame : (i : ℕ) → (i == at.buffer) ≡ false → (i == new) ≡ false → now i ≡ now' i =
        λ i b c. split-frame now half new child key at i b c in
      elim (Bool-cases (ltb (length (now at.buffer)) entries_per_node)) [
        | inl room ↦ rw room (
            room-IsMapped nodes leaf_at touched new_leaf key₀ limit entries_per_node root depth now
              at path (new ∷ fresh) levels block child lo key hi d stable t.0.0 apart.1 h parts)
        | inr full ↦ rw full (
            IsInserted-behind (length fresh) (length path) (kept keep place)
              (Entry.bnode_split at.buffer half new ∷ Entry.bnode_add place.buffer child key ∷ []) _
              (insert_up-IsInserted (leb at.next half) (get_or (now at.buffer) half no_entry).key
                new place.buffer (suc levels) at.buffer h.2 h.3 fresh now' path two
                (omega (arith, d))
                (IsStable-write nodes leaf_at touched new_leaf key₀ limit now now' at.buffer new
                  frame t.0.0 t.1.0 stable)
                (t.0.1, t.1.1) apart.5
                (Around-frame nodes leaf_at touched new_leaf key₀ limit root (suc levels) now now'
                  path at.buffer h.2 h.3
                  (Agree-frame nodes leaf_at touched new_leaf key₀ limit now now' at.buffer new path
                    frame apart.1 apart.2)
                  h.10)
                (split-AreParts nodes leaf_at touched new_leaf key₀ limit entries_per_node root
                  depth now at path new fresh levels block child lo key hi h apart
                  (ground (arith, two, full)) parts)))
      ]

-- the keys of the leaf of a path
Hangs-leaf :
    (nodes : ℕ → Node) (leaf_at : ℕ → ℕ) (root : ℕ) (path : Path_) (leaf lo hi : ℕ)
    → 0 < length path
    → Hangs nodes leaf_at root 0 path leaf lo hi
    → (k : ℕ) → lo ≤ k
    → k < hi
    → leaf_at k ≡ leaf
Hangs-leaf nodes leaf_at root [] leaf lo hi some_ h k l u = absurd (omega (arith, some_))
Hangs-leaf nodes leaf_at root (at ∷ path) leaf lo hi some_ h k l u =
    let (pre, post, lo', hi', split, n, up, m, above) = h in
    let chain = subst (λ (es : Node). Chain (IsMapped nodes leaf_at 0) es hi') split m.2 in
    let (left, right) =
      Chain-split (IsMapped nodes leaf_at 0) pre (record { key = lo; block = leaf } ∷ post) hi'
        chain in
    right.0.1 k l (omega (arith, u, up))

-- A leaf is inserted at a key inside the range of the leaf of the cursor, in a btree that stands for a map.
-- The btree is one level deep or more, the buffers of the path and the new blocks are different, no other part of the btree lies in
-- them, and a node has room for two entries or more. Then an insertion that succeeds leaves a btree, with its keys in order, that leads the keys from
-- the new one up to the end of the range to the new leaf, and all others to the leaf that they had; and it does
-- succeed where there are more new blocks than levels. `touched` is true of the blocks that the insertion may write.
pub insert_leaf-IsInserted :
    (nodes : ℕ → Node) (leaf_at : ℕ → ℕ) (touched : ℕ → Bool)
    (entries_per_node root depth leaf key child lo hi : ℕ) (keep : Bool) (fresh : List ℕ)
    (path : Path_)
    → 1 < entries_per_node
    → 0 < depth
    → length path ≡ depth
    → Hangs nodes leaf_at root 0 path leaf lo hi
    → AreClear nodes leaf_at touched child key hi 0 path
    → AreTouched touched path fresh
    → AreApart path fresh
    → lo < key
    → key < hi
    → IsInserted nodes leaf_at touched child key hi entries_per_node root depth
        (length fresh)
        depth
        (insert_leaf entries_per_node root depth leaf key child keep fresh nodes path)
unfolding insert_leaf
insert_leaf-IsInserted nodes leaf_at touched entries_per_node root depth leaf key child lo hi keep
      fresh path two some_ d h clear t apart l u =
    subst
      (λ (n : ℕ).
        IsInserted nodes leaf_at touched child key hi entries_per_node root depth (length fresh) n
          (insert_leaf entries_per_node root depth leaf key child keep fresh nodes path))
      d
      (insert_up-IsInserted nodes leaf_at touched child key hi entries_per_node root depth keep key
        child _ 0 leaf lo hi fresh nodes path two (omega (arith, d)) (λ i e. refl) t apart
        (Hangs-Around nodes leaf_at touched child key hi root 0 path leaf lo hi (omega (arith, l))
          (omega arith) clear h)
        (λ later stable same. (
          (
            l,
            λ k a b.
                ground (arith, b)
                ∙ Hangs-leaf nodes leaf_at root path leaf lo hi (omega (arith, some_, d)) h k a
                    (omega (arith, b, u)),
          ),
          (u, λ k a b. ground (arith, a, b)),
        )))
