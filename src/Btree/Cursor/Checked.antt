-- ===== src/Btree/Cursor/Checked.antt =====
-- kernel/btree.c: the asserts of cursor_check hold on a path of a btree whose keys are in order.
use tux3_fuse.Prelude.{
  ℕ, zero, suc, ◌-◌, ◌≤◌, ◌<◌, ◌≡◌, refl, ap, ap₂, ◌∙◌, sym, subst, Bool, true, false, Option, none,
  some, [], ◌∷◌, ◌++◌, length, length-append, get_or, ltb, leb, ◌==◌, if◌then◌else◌, arith,
}
use tux3_fuse.Btree.{Node, no_entry}
use tux3_fuse.Btree.Cursor.{Path_, this_entry, check_levels, cursor_check}
use tux3_fuse.Btree.Cursor.Order.{upper, Chain, Chain-split, get_or-middle, IsMapped, Hangs}

-- the keys of children that are in order rise
Chain-rises :
    (R : ℕ → ℕ → ℕ → Type 0) (es : Node) (hi : ℕ)
    → ((block lo hi : ℕ) → R block lo hi → lo < hi)
    → Chain R es hi
    → (upper es hi ≤ hi) × (0 < length es → upper es hi < hi)
Chain-rises R [] hi rising h = (omega arith, λ more. absurd (omega (arith, more)))
Chain-rises R (e ∷ es) hi rising h =
    let (rest, strict) = Chain-rises R es hi rising h.1 in
    let here = rising e.block e.key (upper es hi) h.0 in
    (omega (arith, rest, here), λ more. omega (arith, rest, here))

key-raised : (n lo lo' : ℕ) → lo' < lo → (if suc (suc n) == 1 then lo == lo' else ltb lo' lo) ≡ true
key-raised n lo lo' h =
    let above : (suc (suc n) == 1) ≡ false = ground arith in
    let rise : ltb lo' lo ≡ true = ground arith in rw (above, rise) refl

module _ (nodes : ℕ → Node) (leaf_at : ℕ → ℕ) (root : ℕ) where
  IsMapped-rises : (levels block lo hi : ℕ) → IsMapped nodes leaf_at levels block lo hi → lo < hi
  IsMapped-rises zero block lo hi h = h.0
  IsMapped-rises (suc levels) block lo hi h =
      let (some_entry, first, chain) = h in
      let rise =
        Chain-rises (IsMapped nodes leaf_at levels) (nodes block) hi (IsMapped-rises levels)
          chain in
      omega (arith, first, rise.1 some_entry)

  -- the key of the entry behind `pre`, against the key above
  level-key :
      (levels block lo lo' hi : ℕ) (pre post : Node) (child : ℕ)
      → nodes block ≡ pre ++ record { key = lo; block = child } ∷ post
      → IsMapped nodes leaf_at (suc levels) block lo' hi
      → (if suc (length pre) == 1 then lo == lo' else ltb lo' lo) ≡ true
  level-key levels block lo lo' hi [] post child split h =
      let first : lo ≡ lo' = ap (λ (t : Node). upper t hi) (sym split) ∙ h.1 in
      ground (arith, first)
  level-key levels block lo lo' hi (x ∷ pre) post child split h =
      let first : x.key ≡ lo' = ap (λ (t : Node). upper t hi) (sym split) ∙ h.1 in
      let (front, back) =
        Chain-split (IsMapped nodes leaf_at levels) (x ∷ pre)
          (record { key = lo; block = child } ∷ post) hi
          (subst (λ (es : Node). Chain (IsMapped nodes leaf_at levels) es hi) split h.2) in
      let (weak, strict) =
        Chain-rises (IsMapped nodes leaf_at levels) (x ∷ pre) lo (IsMapped-rises levels) front in
      let rise : x.key < lo = strict (omega arith) in
      key-raised (length pre) lo lo' (omega (arith, first, rise))

  check_levels-Hangs :
      (levels : ℕ) (path : Path_) (block lo hi : ℕ)
      → Hangs nodes leaf_at root levels path block lo hi
      → check_levels nodes root path ≡ some (block, lo)
  unfolding check_levels
  check_levels-Hangs levels [] block lo hi h = ap₂ (λ (b k : ℕ). some (b, k)) (sym h.0) (sym h.1)
  check_levels-Hangs levels (at ∷ path) block lo hi h =
      let (pre, post, lo', hi', split, place, bound, mapped, above) = h in
      let up = check_levels-Hangs (suc levels) path at.buffer lo' hi' above in
      let index : at.next - 1 ≡ length pre = omega (arith, place) in
      let entry : this_entry nodes root at ≡ record { key = lo; block = block } =
        ap₂ (λ (es : Node) (i : ℕ). get_or es i no_entry) split index
        ∙ get_or-middle pre post (record { key = lo; block = block }) in
      let same : (at.buffer == at.buffer) ≡ true = ground arith in
      let low : leb 1 at.next ≡ true = ground (arith, place) in
      let inside : leb at.next (length (nodes at.buffer)) ≡ true = ground (
        arith,
        place,
        ap length split,
        length-append pre (record { key = lo; block = block } ∷ post),
      ) in
      let key : (if at.next == 1 then lo == lo' else ltb lo' lo) ≡ true =
        subst (λ (n : ℕ). (if n == 1 then lo == lo' else ltb lo' lo) ≡ true) (sym place)
          (level-key levels at.buffer lo lo' hi' pre post block split mapped) in
      rw (up, entry, same, low, inside, key) refl

  -- On a path that leads to a block, from the root of a btree, no assert of cursor_check fails.
  pub cursor_check-Hangs :
      (levels : ℕ) (path : Path_) (block lo hi : ℕ)
      → Hangs nodes leaf_at root levels path block lo hi
      → cursor_check nodes root block path ≡ true
  unfolding cursor_check
  cursor_check-Hangs levels path block lo hi h =
      let same : (block == block) ≡ true = ground arith in
      ap
        (λ (o : Option (ℕ × ℕ)). elim o as (λ _. Bool) [
          | none ↦ false
          | some (found, key) ↦ block == found
        ])
        (check_levels-Hangs levels path block lo hi h)
      ∙ same
