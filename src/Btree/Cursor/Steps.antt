-- ===== src/Btree/Cursor/Steps.antt =====
-- kernel/btree.c: an advance of the cursor visits the next leaf from left to right.
use tux3_fuse.Prelude.{
  ℕ, zero, suc, ◌+◌, ◌-◌, ◌<◌, ◌≡◌, refl, ap, ◌∙◌, sym, subst, Bool, true, Bool-cases, inl, inr,
  List, [], ◌∷◌, ◌++◌, length, arith,
}
use mathlib.Core.List.{append_assoc}
use tux3_fuse.Btree.{Node}
use tux3_fuse.Btree.Cursor.{
  cursor_check, pushed, PathLevel, Path_, level_finished, next_entry, Descent, eio, failed, at_leaf,
  Advance, finished, descended, descend, climb, go_down, cursor_advance,
}
use tux3_fuse.Btree.Cursor.Leaves.{
  flat, leaves, rest_leaves, IsTree, IsPath, AllEntries-at, flat-drop, drop-past_end,
}

module _ (read_fails : ℕ → Bool) (nodes : ℕ → Node) (root : ℕ) where
  -- A descent from places in nodes: a leaf whose path has the leaves behind it that were left before.
  abbrev pub IsNext : (depth : ℕ) → List ℕ → Descent → Type 0
  IsNext depth left eio = (b : ℕ) × (read_fails b ≡ true)
  IsNext depth left failed = Unit {0}
  IsNext depth left (at_leaf leaf path) =
      (left ≡ leaf ∷ rest_leaves nodes 0 path) × IsPath nodes 0 path × (length path ≡ depth)

  IsNext-pushed :
      (depth : ℕ) (left : List ℕ) (child : ℕ) (path : Path_) (d : Descent)
      → IsNext depth left d
      → IsNext depth left (pushed read_fails nodes root child path d)
  IsNext-pushed depth left child path d h = elim (Bool-cases (read_fails child)) [
    | inl e ↦ rw e (child, e)
    | inr e ↦ elim (Bool-cases (cursor_check nodes root child path)) [
      | inl passes ↦ rw (e, passes) h
      | inr fails ↦ rw (e, fails) tt
    ]
  ]

  abbrev IsUnfinished : Path_ → Type 0
  IsUnfinished [] = Unit {0}
  IsUnfinished (at ∷ path) = at.next < length (nodes at.buffer)

  pub descend-IsNext :
      (levels : ℕ) (at : PathLevel) (path : Path_)
      → at.next < length (nodes at.buffer)
      → IsPath nodes levels (at ∷ path)
      → IsNext
          (levels + suc (length path))
          (rest_leaves nodes levels (at ∷ path))
          (descend read_fails nodes root levels at path)
  unfolding descend rest_leaves leaves
  descend-IsNext zero at path b h =
      let (inside, tree, above) = h in
      let child = (next_entry nodes at).block in
      let here = flat-drop nodes (leaves nodes 0) (nodes at.buffer) at.next b in
      IsNext-pushed _ _ child (record at { next = at.next + 1 } ∷ path)
        (at_leaf child (record at { next = at.next + 1 } ∷ path))
        (
          ap (λ (l : List ℕ). l ++ rest_leaves nodes 1 path) here,
          (omega (arith, b), tree, above),
          omega arith,
        )
  descend-IsNext (suc levels) at path b h =
      let (inside, tree, above) = h in
      let child = (next_entry nodes at).block in
      let path' : Path_ = record at { next = at.next + 1 } ∷ path in
      let below : IsTree nodes (suc levels) child =
        AllEntries-at nodes (IsTree nodes (suc levels)) (nodes at.buffer) at.next tree.1 b in
      let deeper =
        descend-IsNext levels (record { buffer = child; next = 0 }) path' below.0
          (omega arith, below, (omega (arith, b), tree, above)) in
      let depth : levels + suc (length path') ≡ suc levels + suc (length path) = omega arith in
      let left : rest_leaves nodes levels (record { buffer = child; next = 0 } ∷ path')
          ≡ rest_leaves nodes (suc levels) (at ∷ path) =
        sym (
          ap (λ (l : List ℕ). l ++ rest_leaves nodes (suc (suc levels)) path)
            (flat-drop nodes (leaves nodes (suc levels)) (nodes at.buffer) at.next b)
          ∙ append_assoc (leaves nodes (suc levels) child) _ _) in
      IsNext-pushed _ _ child path'
        (descend read_fails nodes root levels (record { buffer = child; next = 0 }) path')
        (subst
          (λ (n : ℕ).
            IsNext n (rest_leaves nodes (suc levels) (at ∷ path))
              (descend read_fails nodes root levels (record { buffer = child; next = 0 }) path'))
          depth
          (subst
            (λ (l : List ℕ).
              IsNext (levels + suc (length path')) l
                (descend read_fails nodes root levels (record { buffer = child; next = 0 }) path'))
            left deeper))

  -- The climb drops levels with no leaves left, up to one that has some.
  climb-rest_leaves :
      (levels : ℕ) (path : Path_)
      → IsPath nodes levels path
      → let path' = climb read_fails nodes root path in
        (top : ℕ) × IsPath nodes top path'
        × IsUnfinished path'
        × (rest_leaves nodes levels path ≡ rest_leaves nodes top path')
        × (levels + length path ≡ top + length path')
  unfolding climb rest_leaves flat
  climb-rest_leaves levels [] h = (levels, tt, tt, refl, refl)
  climb-rest_leaves levels (at ∷ path) h =
      let (inside, tree, above) = h in
      elim (Bool-cases (level_finished nodes at)) [
        | inl e ↦
            let (top, p, unfinished, r, l) = climb-rest_leaves (suc levels) path above in
            let over = drop-past_end nodes (nodes at.buffer) at.next (ground (arith, e)) in
            rw e (
              top,
              p,
              unfinished,
              ap
                    (λ (es : Node).
                      flat (leaves nodes levels) es ++ rest_leaves nodes (suc levels) path)
                    over
                  ∙ r,
              omega (arith, l),
            )
        | inr e ↦ rw e (levels, h, ground (arith, e, inside), refl, refl)
      ]

  -- what an advance does, where the leaves `left` are right of the cursor
  abbrev pub IsAdvanced : (depth : ℕ) → List ℕ → Advance → Type 0
  IsAdvanced depth left finished = left ≡ []
  IsAdvanced depth left (descended d) = IsNext depth left d

  go_down-IsAdvanced :
      (depth top : ℕ) (path : Path_)
      → IsPath nodes top path
      → IsUnfinished path
      → depth ≡ top + length path
      → IsAdvanced depth (rest_leaves nodes top path) (go_down read_fails nodes root depth path)
  unfolding rest_leaves
  go_down-IsAdvanced depth top [] h u e = refl
  go_down-IsAdvanced depth top (at ∷ path) h u e =
      let level : depth - 1 - length path ≡ top = omega (arith, e) in
      rw (level, e) (descend-IsNext top at path u h)

  -- From a path of a btree whose index nodes have entries, whose leaves to the right are `left`, an advance
  -- ends the walk exactly when there is no such leaf. Otherwise it stops at a block that cannot be read, at an
  -- assert, or at the first of these leaves, with a path of the btree that has the others to the right.
  pub cursor_advance-IsAdvanced :
      (path : Path_)
      → IsPath nodes 0 path
      → IsAdvanced
          (length path)
          (rest_leaves nodes 0 path)
          (cursor_advance read_fails nodes root (length path) path)
  unfolding cursor_advance
  cursor_advance-IsAdvanced path h =
      let (top, p, u, r, l) = climb-rest_leaves 0 path h in
      subst
        (λ (left : List ℕ).
          IsAdvanced (length path) left
            (go_down read_fails nodes root (length path) (climb read_fails nodes root path)))
        (sym r)
        (go_down-IsAdvanced (length path) top (climb read_fails nodes root path) p u
          (omega (arith, l)))
