-- ===== src/Btree/Insert/Divided.antt =====
-- kernel/btree.c: the nodes that an entry is added to, as the place of the cursor divides them.
use tux3_fuse.Prelude.{
  ℕ, suc, ◌+◌, ◌≤◌, ◌<◌, ◌≡◌, refl, ap, ◌∙◌, true, false, Bool-cases, inl, inr, [], ◌∷◌, ◌++◌,
  length, length-append, get_or, leb, ◌==◌, arith,
}
use mathlib.Core.List.{append_assoc}
use tux3_fuse.Prelude.Slices.{take-past, drop-past}
use tux3_fuse.Btree.{IndexEntry, Node, no_entry, bnode_add_index, bnode_split}
use tux3_fuse.Btree.Cursor.{PathLevel}
use tux3_fuse.Btree.Cursor.Order.{upper}
use tux3_fuse.Btree.Insert.{split_place, split_nodes, add_entry}
use tux3_fuse.Btree.Insert.Halves.{with_entry, AreHalves, left-AreHalves, right-AreHalves}

pub with_entry-place :
    (pre post : Node) (e x : IndexEntry) (es : Node) (next : ℕ)
    → es ≡ pre ++ e ∷ post
    → next ≡ suc (length pre)
    → with_entry es next x ≡ pre ++ e ∷ x ∷ post
with_entry-place pre post e x es next split n =
    let n' : next ≡ length pre + 1 = omega (arith, n) in
    ap (λ (l : Node). with_entry l next x) split
    ∙ rw (take-past pre (e ∷ post) next 1 n', drop-past pre (e ∷ post) next 1 n')
        (append_assoc pre (e ∷ []) (x ∷ post))

pub upper-place :
    (pre post : Node) (e x : IndexEntry) (hi : ℕ)
    → upper (pre ++ e ∷ x ∷ post) hi ≡ upper (pre ++ e ∷ post) hi
upper-place [] post e x hi = refl
upper-place (p ∷ pre) post e x hi = refl

pub place-bound :
    (pre post : Node) (e : IndexEntry) (es : Node) (next : ℕ)
    → es ≡ pre ++ e ∷ post
    → next ≡ suc (length pre)
    → next ≤ length es
place-bound pre post e es next split n =
    omega (arith, n, ap (λ (l : Node). length l) split, length-append pre (e ∷ post))

pub here :
    (now : ℕ → Node) (at : PathLevel) (child key : ℕ)
    → add_entry now at child key at.buffer
      ≡ with_entry (now at.buffer) at.next (record { key = key; block = child })
unfolding bnode_add_index
here now at child key = let same : (at.buffer == at.buffer) ≡ true = ground arith in rw same refl

pub elsewhere :
    (now : ℕ → Node) (at : PathLevel) (child key i : ℕ)
    → (i == at.buffer) ≡ false
    → now i ≡ add_entry now at child key i
elsewhere now at child key i b = rw b refl

pub apart_sym : (i j : ℕ) → (i == j) ≡ false → (j == i) ≡ false
apart_sym i j h = ground (arith, h)

-- the two nodes of a full one, after the split and the new entry
pub split-AreHalves :
    (now : ℕ → Node) (at : PathLevel) (half new child key hi : ℕ)
    → (at.buffer == new) ≡ false
    → 0 < half
    → half < length (now at.buffer)
    → at.next ≤ length (now at.buffer)
    → let now' =
        add_entry (split_nodes now half new at.buffer) (split_place half new at) child key in
      AreHalves
        (with_entry (now at.buffer) at.next (record { key = key; block = child }))
        (now' at.buffer)
        (now' new)
        (get_or (now at.buffer) half no_entry).key
        hi
unfolding bnode_split bnode_add_index
split-AreHalves now at half new child key hi apart p b n =
    let x : IndexEntry = record { key = key; block = child } in
    let same : (at.buffer == at.buffer) ≡ true = ground arith in
    let same' : (new == new) ≡ true = ground arith in
    let apart' = apart_sym at.buffer new apart in
    elim (Bool-cases (leb at.next half)) [
      | inl left ↦
          rw (left, same, same', apart)
            (rw apart' (left-AreHalves (now at.buffer) at.next half hi x (ground (arith, left)) b))
      | inr right ↦
          rw (right, same, same', apart)
            (right-AreHalves (now at.buffer) at.next half hi x (ground (arith, right)) n p)
    ]
