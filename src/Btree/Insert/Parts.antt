-- ===== src/Btree/Insert/Parts.antt =====
-- kernel/btree.c: the parts of the new map that the two blocks of a level have.
use tux3_fuse.Prelude.{
  ℕ, suc, ◌+◌, ◌/◌, ◌<◌, ◌≡◌, refl, ap, ◌∙◌, sym, subst, Bool, true, false, List, [], ◌∷◌, ◌++◌,
  length, length-take, get_or, take, drop, take-append-drop, ◌==◌, arith,
}
use tux3_fuse.Btree.{IndexEntry, Node, no_entry}
use tux3_fuse.Btree.Cursor.{PathLevel, Path_, tuxkey_limit}
use tux3_fuse.Btree.Cursor.Order.{upper, Chain, Chain-append, Chain-split, IsMapped}
use tux3_fuse.Btree.Insert.{write_node, split_place, split_nodes, add_entry, bnode_init_root}
use tux3_fuse.Btree.Insert.Fits.{IsOff, IsNot, AreApart, split-frame}
use tux3_fuse.Btree.Insert.Halves.{with_entry, upper-take}
use tux3_fuse.Btree.Insert.Around.{
  inserted_at, IsStable, Around, IsMapped-node, nonempty, Around-IsMapped,
}
use tux3_fuse.Btree.Insert.Writes.{Agree-frame, IsStable-write}
use tux3_fuse.Btree.Insert.Divided.{
  with_entry-place, upper-place, place-bound, here, elsewhere, apart_sym, split-AreHalves,
}

abbrev pub BuffersTouched : (ℕ → Bool) → Path_ → Type 0
BuffersTouched touched [] = Unit {0}
BuffersTouched touched (at ∷ path) = (touched at.buffer ≡ true) × BuffersTouched touched path

abbrev pub BlocksTouched : (ℕ → Bool) → List ℕ → Type 0
BlocksTouched touched [] = Unit {0}
BlocksTouched touched (new ∷ fresh) = (touched new ≡ true) × BlocksTouched touched fresh

-- Every buffer of a path, and every new block, may be written.
abbrev pub AreTouched : (ℕ → Bool) → Path_ → List ℕ → Type 0
AreTouched touched path fresh = BuffersTouched touched path × BlocksTouched touched fresh

-- Nodes that differ only in what the levels of a path, and the new blocks, still write.
abbrev pub IsLater : (ℕ → Node) → Path_ → List ℕ → (ℕ → Node) → Type 0
IsLater now path fresh later = (i : ℕ) → IsOff i path → IsNot i fresh → later i ≡ now i

module _ (nodes : ℕ → Node) (leaf_at : ℕ → ℕ) (touched : ℕ → Bool)
    (new_leaf key₀ limit entries_per_node root depth : ℕ) where
  abbrev pub Maps : (ℕ → Node) → (levels block lo hi : ℕ) → Type 0
  Maps later = IsMapped later (inserted_at nodes leaf_at touched new_leaf key₀ limit)

  abbrev pub Stable : (ℕ → Node) → Type 0
  Stable = IsStable nodes leaf_at touched new_leaf key₀ limit

  -- the two blocks, with `key` between them, have their parts of the new map in all later nodes
  abbrev pub AreParts : (ℕ → Node) → Path_ → List ℕ → (levels block child lo key hi : ℕ) → Type 0
  AreParts now path fresh levels block child lo key hi =
      (later : ℕ → Node)
      → Stable later
      → IsLater now path fresh later
      → Maps later levels block lo key × Maps later levels child key hi

  -- the chain of a node with the new entry
  whole-Chain :
      (later : ℕ → Node) (levels block child lo key hi hi' : ℕ) (pre post : Node)
      → Maps later levels block lo key
      → Maps later levels child key hi
      → upper post hi' ≡ hi
      → Chain (Maps later levels) pre lo
      → Chain (Maps later levels) post hi'
      → Chain
          (Maps later levels)
          (pre ++ record { key = lo; block = block } ∷ record { key = key; block = child } ∷ post)
          hi'
  whole-Chain later levels block child lo key hi hi' pre post low high up left right =
      Chain-append (Maps later levels) pre _ hi' left
        (low, (subst (λ (x : ℕ). Maps later levels child key x) (sym up) high, right))

  -- an entry with room for it
  pub room-IsMapped :
      (now : ℕ → Node) (at : PathLevel) (path : Path_) (fresh : List ℕ)
      (levels block child lo key hi : ℕ)
      → levels + suc (length path) ≡ depth
      → Stable now
      → touched at.buffer ≡ true
      → IsOff at.buffer path
      → Around nodes leaf_at touched new_leaf key₀ limit root levels now (at ∷ path) block lo hi
      → AreParts now (at ∷ path) fresh levels block child lo key hi
      → Maps (add_entry now at child key) depth root 0 tuxkey_limit
  room-IsMapped now at path fresh levels block child lo key hi d was t off h parts =
      let now' = add_entry now at child key in
      let stable =
        IsStable-write nodes leaf_at touched new_leaf key₀ limit now now' at.buffer at.buffer
          (λ i b c. elsewhere now at child key i b) t t was in
      let (low, high) =
        parts now' stable
          (λ i o k. sym (elsewhere now at child key i (apart_sym at.buffer i o.0))) in
      let (pre, post, lo', hi', split, n, up, first, a, beside, above) = h in
      let e : IndexEntry = record { key = lo; block = block } in
      let x : IndexEntry = record { key = key; block = child } in
      let (left, right) = beside now' stable in
      let node =
        IsMapped-node nodes leaf_at touched new_leaf key₀ limit now' levels at.buffer lo' hi'
          (pre ++ e ∷ x ∷ post)
          (here now at child key ∙ with_entry-place pre post e x (now at.buffer) at.next split n)
          (nonempty pre (x ∷ post) e) (upper-place pre post e x hi' ∙ first)
          (whole-Chain now' levels block child lo key hi hi' pre post low high up left right) in
      subst (λ (d : ℕ). Maps now' d root 0 tuxkey_limit) (omega (arith, d))
        (Around-IsMapped nodes leaf_at touched new_leaf key₀ limit root (suc levels) now now' path
          at.buffer lo' hi' stable
          (Agree-frame nodes leaf_at touched new_leaf key₀ limit now now' at.buffer at.buffer path
            (λ i b c. elsewhere now at child key i b) off off)
          above node)

  -- the two nodes of a full one have their parts of the new map
  pub split-AreParts :
      (now : ℕ → Node) (at : PathLevel) (path : Path_) (new : ℕ) (fresh : List ℕ)
      (levels block child lo key hi : ℕ)
      (h : Around nodes leaf_at touched new_leaf key₀ limit root levels now (at ∷ path) block lo hi)
      → AreApart (at ∷ path) (new ∷ fresh)
      → 1 < length (now at.buffer)
      → AreParts now (at ∷ path) (new ∷ fresh) levels block child lo key hi
      → let half = length (now at.buffer) / 2 in
        AreParts
          (add_entry (split_nodes now half new at.buffer) (split_place half new at) child key)
          path
          fresh
          (suc levels)
          at.buffer
          new
          h.2
          (get_or (now at.buffer) half no_entry).key
          h.3
  split-AreParts now at path new fresh levels block child lo key hi h apart longer parts later
        stable same =
      let (pre, post, lo', hi', split, n, up, first, a, beside, above) = h in
      let (off, off_b, off_new, not_b, not_new, more) = apart in
      let half = length (now at.buffer) / 2 in
      let e : IndexEntry = record { key = lo; block = block } in
      let x : IndexEntry = record { key = key; block = child } in
      let w = with_entry (now at.buffer) at.next x in
      let whole = with_entry-place pre post e x (now at.buffer) at.next split n in
      let (m, is_low, is_high, p, q, newkey) =
        split-AreHalves now at half new child key hi' off (omega (arith, longer))
          (omega (arith, longer)) (place-bound pre post e (now at.buffer) at.next split n) in
      let is_low' = same at.buffer off_b not_b ∙ is_low in
      let is_high' = same new off_new not_new ∙ is_high in
      let (low, high) = parts later stable (λ i o k.
        same i o.1 k.1
        ∙ sym (
            split-frame now half new child key at i (apart_sym at.buffer i o.0)
              (apart_sym new i k.0))) in
      let (left, right) = beside later stable in
      let chain =
        subst (λ (es : Node). Chain (Maps later levels) es hi')
          (sym whole ∙ sym (take-append-drop m w))
          (whole-Chain later levels block child lo key hi hi' pre post low high up left right) in
      let (chain_low, chain_high) =
        Chain-split (Maps later levels) (take m w) (drop m w) hi' chain in
      let newkey' = ap (λ (es : Node). upper es hi') (sym is_high) ∙ newkey in
      let some_ = subst (λ (es : Node). 0 < length es) (sym whole) (nonempty pre (x ∷ post) e) in
      let lowest =
        upper-take w m (get_or (now at.buffer) half no_entry).key hi' p some_
        ∙ ap (λ (es : Node). upper es hi') whole
        ∙ upper-place pre post e x hi'
        ∙ first in
      (
        IsMapped-node nodes leaf_at touched new_leaf key₀ limit later levels at.buffer lo' _
            (take m w) is_low' (omega (arith, p, some_, length-take m w)) lowest
            (subst (λ (y : ℕ). Chain (Maps later levels) (take m w) y) newkey' chain_low),
        IsMapped-node nodes leaf_at touched new_leaf key₀ limit later levels new _ hi' (drop m w)
            is_high' (subst (λ (es : Node). 0 < length es) is_high q) newkey' chain_high,
      )

  -- a new root above the two blocks
  pub root-IsMapped :
      (key child levels block lo hi new : ℕ) (fresh : List ℕ) (now : ℕ → Node)
      → levels + 0 ≡ depth
      → Stable now
      → touched new ≡ true
      → (block ≡ root) × (lo ≡ 0) × (hi ≡ tuxkey_limit)
      → AreParts now [] (new ∷ fresh) levels block child lo key hi
      → Maps (write_node now new (bnode_init_root 2 root child key)) (depth + 1) new 0 tuxkey_limit
  root-IsMapped key child levels block lo hi new fresh now d was t h parts =
      let es = bnode_init_root 2 root child key in
      let now' = write_node now new es in
      let same : (i : ℕ) → (i == new) ≡ false → now i ≡ now' i = λ i b. rw b refl in
      let stable =
        IsStable-write nodes leaf_at touched new_leaf key₀ limit now now' new new
          (λ i b c. same i b) t t was in
      let (low, high) = parts now' stable (λ i o k. sym (same i (apart_sym new i k.0))) in
      let low' =
        subst (λ (b : ℕ). Maps now' levels b 0 key) h.0
          (subst (λ (l : ℕ). Maps now' levels block l key) h.1 low) in
      let high' = subst (λ (u : ℕ). Maps now' levels child key u) h.2 high in
      let first : upper es tuxkey_limit ≡ 0 = refl in
      let levels' : suc levels ≡ depth + 1 = omega (arith, d) in
      subst (λ (n : ℕ). Maps now' n new 0 tuxkey_limit) levels'
        (IsMapped-node nodes leaf_at touched new_leaf key₀ limit now' levels new 0 tuxkey_limit es
          (let this : (new == new) ≡ true = ground arith in rw this refl) (omega arith) first
          (low', (high', tt)))
