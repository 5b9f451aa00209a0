-- ===== src/Btree/Cursor/Leaves.antt =====
-- kernel/btree.c: the leaves of a btree from left to right, the reference for the walks of the cursor.
use tux3_fuse.Prelude.{
  ℕ, zero, suc, ◌+◌, ◌≤◌, ◌<◌, ◌≡◌, refl, ap, ◌∙◌, List, [], ◌∷◌, ◌++◌, length, get_or, drop, arith,
}
use tux3_fuse.Btree.{Node, no_entry}
use tux3_fuse.Btree.Cursor.{Path_}

-- those below the entries of a node, where `below` has those of a block
unfoldable pub flat : (ℕ → List ℕ) → Node → List ℕ
flat below [] = []
flat below (e ∷ es) = below e.block ++ flat below es

module _ (nodes : ℕ → Node) where
  -- the leaves below a block with this many levels of index nodes
  unfoldable pub leaves : (levels block : ℕ) → List ℕ
  leaves zero block = block ∷ []
  leaves (suc levels) block = flat (leaves levels) (nodes block)

  -- Every index node below the block has an entry.
  abbrev pub AllEntries : (ℕ → Type 0) → Node → Type 0
  AllEntries P [] = Unit {0}
  AllEntries P (e ∷ es) = P e.block × AllEntries P es

  abbrev pub IsTree : (levels block : ℕ) → Type 0
  IsTree zero block = Unit {0}
  IsTree (suc levels) block = (0 < length (nodes block)) × AllEntries (IsTree levels) (nodes block)

  -- The leaves right of a path; the level at its head is `levels` above them.
  unfoldable pub rest_leaves : (levels : ℕ) → Path_ → List ℕ
  rest_leaves levels [] = []
  rest_leaves levels (at ∷ path) =
      flat (leaves levels) (drop at.next (nodes at.buffer)) ++ rest_leaves (suc levels) path

  -- Each level of a path is at a place in its node, or behind the last one, and has proper nodes below it.
  abbrev pub IsPath : (levels : ℕ) → Path_ → Type 0
  IsPath levels [] = Unit {0}
  IsPath levels (at ∷ path) =
      (at.next ≤ length (nodes at.buffer))
      × IsTree (suc levels) at.buffer
      × IsPath (suc levels) path

  pub AllEntries-at :
      (P : ℕ → Type 0) (es : Node) (i : ℕ)
      → AllEntries P es
      → i < length es
      → P (get_or es i no_entry).block
  AllEntries-at P [] i h b = absurd (omega arith)
  AllEntries-at P (e ∷ es) zero h b = h.0
  AllEntries-at P (e ∷ es) (suc i) h b = AllEntries-at P es i h.1 (omega arith)

  -- the entries from a place on, the first one apart
  pub drop-cons :
      (es : Node) (i : ℕ) → i < length es → drop i es ≡ get_or es i no_entry ∷ drop (i + 1) es
  drop-cons [] i b = absurd (omega arith)
  drop-cons (e ∷ es) zero b = refl
  drop-cons (e ∷ es) (suc i) b =
      drop-cons es i (omega arith) ∙ ap (λ (n : ℕ). get_or es i no_entry ∷ drop n (e ∷ es)) (next i)
    where
      next : (i : ℕ) → suc (i + 1) ≡ suc i + 1
      next i = omega arith

  pub flat-drop :
      (below : ℕ → List ℕ) (es : Node) (i : ℕ)
      → i < length es
      → flat below (drop i es) ≡ below (get_or es i no_entry).block ++ flat below (drop (i + 1) es)
  unfolding flat
  flat-drop below es i b = ap (flat below) (drop-cons es i b)

  pub drop-past_end : (es : Node) (i : ℕ) → i ≡ length es → drop i es ≡ []
  drop-past_end [] zero e = refl
  drop-past_end [] (suc i) e = refl
  drop-past_end (x ∷ es) zero e = absurd (omega arith)
  drop-past_end (x ∷ es) (suc i) e = drop-past_end es i (omega arith)
