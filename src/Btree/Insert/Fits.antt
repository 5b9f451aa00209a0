-- ===== src/Btree/Insert/Fits.antt =====
-- kernel/btree.c: what an insertion needs of the path of the cursor.
use tux3_fuse.Prelude.{
  ℕ, zero, suc, ◌≤◌, ◌<◌, ◌≡◌, refl, ◌∙◌, sym, subst, false, Bool-cases, inl, inr, List, [], ◌∷◌,
  ◌++◌, length, leb, ◌==◌, arith,
}
use tux3_fuse.Btree.{IndexEntry, Node, bnode_split}
use tux3_fuse.Btree.Cursor.{PathLevel, Path_}
use tux3_fuse.Btree.Cursor.Order.{upper, Chain, IsMapped, Hangs}
use tux3_fuse.Btree.Insert.{split_place, split_nodes, add_entry}
use tux3_fuse.Btree.Insert.Places.{Ascends, Ascends-upper, Chain-Ascends, IsBehind-upper, HasPlace}

-- At each level of a path the keys from `lo` up to `hi` have their place where the cursor is, and the node has
-- the keys that its own place in the level above has.
abbrev pub Fits : (ℕ → Node) → Path_ → (lo hi : ℕ) → Type 0
Fits nodes [] lo hi = Unit {0}
Fits nodes (at ∷ path) lo hi =
    (pre : Node) × (e : IndexEntry) × (post : Node) × (lo' : ℕ) × (hi' : ℕ) × (nodes at.buffer
      ≡ pre ++ e ∷ post)
    × (at.next ≡ suc (length pre))
    × (e.key ≤ lo)
    × (hi ≤ upper post hi')
    × Ascends (nodes at.buffer) hi'
    × (lo' ≤ upper (nodes at.buffer) hi')
    × Fits nodes path lo' hi'

-- A block that is no buffer of a path.
abbrev pub IsOff : (block : ℕ) → Path_ → Type 0
IsOff block [] = Unit {0}
IsOff block (at ∷ path) = ((at.buffer == block) ≡ false) × IsOff block path

-- A block that is none of these.
abbrev pub IsNot : (block : ℕ) → List ℕ → Type 0
IsNot block [] = Unit {0}
IsNot block (x ∷ xs) = ((x == block) ≡ false) × IsNot block xs

-- The buffers of a path and the new blocks are all different, as far as the levels take new blocks.
abbrev pub AreApart : Path_ → List ℕ → Type 0
AreApart [] fresh = Unit {0}
AreApart (at ∷ path) [] = IsOff at.buffer path
AreApart (at ∷ path) (new ∷ fresh) =
    ((at.buffer == new) ≡ false)
    × IsOff at.buffer path
    × IsOff new path
    × IsNot at.buffer fresh
    × IsNot new fresh
    × AreApart path fresh

pub Fits-place :
    (nodes : ℕ → Node) (at : PathLevel) (path : Path_) (lo hi key : ℕ)
    → Fits nodes (at ∷ path) lo hi
    → lo ≤ key
    → key < hi
    → HasPlace (nodes at.buffer) at.next key
Fits-place nodes at path lo hi key f l h =
    let (pre, e, post, lo', hi', split, n, el, u, a, b, above) = f in
    (
      pre,
      e,
      post,
      hi',
      split,
      n,
      IsBehind-upper e post key hi' (omega (arith, el, l)) (omega (arith, u, h)),
      a,
    )

-- The levels of a path do not change with other nodes.
pub Fits-frame :
    (nodes nodes' : ℕ → Node) (b new : ℕ) (path : Path_) (lo hi : ℕ)
    → ((i : ℕ) → (i == b) ≡ false → (i == new) ≡ false → nodes i ≡ nodes' i)
    → IsOff b path
    → IsOff new path
    → Fits nodes path lo hi
    → Fits nodes' path lo hi
Fits-frame nodes nodes' b new [] lo hi same o o' f = tt
Fits-frame nodes nodes' b new (at ∷ path) lo hi same o o' f =
    let (pre, e, post, lo', hi', split, n, el, u, a, low, above) = f in
    let here = same at.buffer o.0 o'.0 in
    (
      pre,
      e,
      post,
      lo',
      hi',
      sym here ∙ split,
      n,
      el,
      u,
      subst (λ (l : Node). Ascends l hi') here a,
      subst (λ (l : Node). lo' ≤ upper l hi') here low,
      Fits-frame nodes nodes' b new path lo' hi' same o.1 o'.1 above,
    )

Chain-lt :
    (R : ℕ → ℕ → ℕ → Type 0) (es : Node) (lo hi : ℕ)
    → ((block lo up : ℕ) → R block lo up → lo < up)
    → (0 < length es) × (upper es hi ≡ lo) × Chain R es hi
    → lo < hi
Chain-lt R [] lo hi f o = absurd (omega (arith, o.0))
Chain-lt R (e ∷ es) lo hi f o =
    let a = Chain-Ascends R (e ∷ es) hi f o.2 in omega (arith, o.1, a.0, Ascends-upper es hi a.1)

pub IsMapped-lt :
    (nodes : ℕ → Node) (leaf_at : ℕ → ℕ) (levels block lo hi : ℕ)
    → IsMapped nodes leaf_at levels block lo hi
    → lo < hi
IsMapped-lt nodes leaf_at zero block lo hi o = o.0
IsMapped-lt nodes leaf_at (suc levels) block lo hi o =
    Chain-lt (IsMapped nodes leaf_at levels) (nodes block) lo hi (IsMapped-lt nodes leaf_at levels)
      o

pub Hangs-Fits :
    (nodes : ℕ → Node) (leaf_at : ℕ → ℕ) (root levels : ℕ) (path : Path_) (block lo hi : ℕ)
    → Hangs nodes leaf_at root levels path block lo hi
    → Fits nodes path lo hi
Hangs-Fits nodes leaf_at root levels [] block lo hi h = tt
Hangs-Fits nodes leaf_at root levels (at ∷ path) block lo hi h =
    let (pre, post, lo', hi', split, n, u, o, above) = h in
    (
      pre,
      record { key = lo; block = block },
      post,
      lo',
      hi',
      split,
      n,
      omega arith,
      omega (arith, u),
      Chain-Ascends (IsMapped nodes leaf_at levels) (nodes at.buffer) hi'
          (IsMapped-lt nodes leaf_at levels) o.2,
      omega (arith, o.1),
      Hangs-Fits nodes leaf_at root (suc levels) path at.buffer lo' hi' above,
    )

-- a split changes two nodes
pub split-frame :
    (nodes : ℕ → Node) (half new child key : ℕ) (at : PathLevel) (i : ℕ)
    → (i == at.buffer) ≡ false
    → (i == new) ≡ false
    → nodes i
      ≡ add_entry (split_nodes nodes half new at.buffer) (split_place half new at) child key i
unfolding bnode_split
split-frame nodes half new child key at i b n = elim (Bool-cases (leb at.next half)) [
  | inl left ↦ rw (left, b, n) refl
  | inr right ↦ rw (right, b, n) refl
]
