-- ===== src/Btree/Insert/Around.antt =====
-- kernel/btree.c: what stands around the path of the cursor while an insertion goes up, and stays.
use tux3_fuse.Prelude.{
  ℕ, zero, suc, ◌+◌, ◌-◌, ◌≤◌, ◌<◌, ◌≡◌, ap, ◌∙◌, sym, subst, Bool, false, ◌&&◌, [], ◌∷◌, ◌++◌,
  length, take, drop, leb, ltb, if◌then◌else◌, arith,
}
use tux3_fuse.Prelude.Slices.{take-exact, drop-past}
use tux3_fuse.Btree.{IndexEntry, Node}
use tux3_fuse.Btree.Cursor.{Path_, tuxkey_limit}
use tux3_fuse.Btree.Cursor.Order.{upper, Chain, Chain-append, Chain-split, IsMapped, Hangs}
use tux3_fuse.Btree.Insert.Places.{Ascends, Ascends-upper, Ascends-first, Chain-Ascends}
use tux3_fuse.Btree.Insert.Fits.{IsMapped-lt}

-- A property of the blocks of entries.
abbrev pub AllBlocks : (ℕ → Type 0) → Node → Type 0
AllBlocks P [] = Unit {0}
AllBlocks P (e ∷ es) = P e.block × AllBlocks P es

-- The chain of children with another property, which each child has in bounds inside those of the node.
Chain-map :
    (R R' : ℕ → ℕ → ℕ → Type 0) (P : ℕ → Type 0) (es : Node) (lo hi : ℕ)
    → ((block x y : ℕ) → R block x y → x < y)
    → ((block x y : ℕ) → lo ≤ x → y ≤ hi → P block → R block x y → R' block x y)
    → lo ≤ upper es hi
    → AllBlocks P es
    → Chain R es hi
    → Chain R' es hi
Chain-map R R' P [] lo hi lt f l p c = tt
Chain-map R R' P (e ∷ es) lo hi lt f l p c =
    let a = Chain-Ascends R (e ∷ es) hi lt c in
    (
      f e.block e.key (upper es hi) l (Ascends-upper es hi a.1) p.0 c.0,
      Chain-map R R' P es lo hi lt f (omega (arith, l, a.0)) p.1 c.1,
    )

Ascends-behind :
    (pre post : Node) (e : IndexEntry) (hi : ℕ) → Ascends (pre ++ e ∷ post) hi → Ascends post hi
Ascends-behind [] post e hi a = a.1
Ascends-behind (x ∷ pre) post e hi a = Ascends-behind pre post e hi a.1

pub nonempty : (pre post : Node) (e : IndexEntry) → 0 < length (pre ++ e ∷ post)
nonempty [] post e = omega arith
nonempty (x ∷ pre) post e = omega arith

lowest :
    (pre post : Node) (e : IndexEntry) (lo hi : ℕ)
    → upper (pre ++ e ∷ post) hi ≡ lo
    → Ascends (pre ++ e ∷ post) hi
    → lo ≤ e.key
lowest [] post e lo hi h a = omega (arith, h)
lowest (x ∷ pre) post e lo hi h a = omega (arith, h, Ascends-first x pre (e ∷ post) hi a)

-- `nodes` are those before the insertion, and `touched` says which blocks it may write.
module _ (nodes : ℕ → Node) (leaf_at : ℕ → ℕ) (touched : ℕ → Bool) (new_leaf key limit : ℕ) where
  -- the map after the insertion
  abbrev pub inserted_at : ℕ → ℕ
  inserted_at k = if leb key k && ltb k limit then new_leaf else leaf_at k

  -- nodes that differ from those before in blocks that may be written
  abbrev pub IsStable : (ℕ → Node) → Type 0
  IsStable later = (i : ℕ) → touched i ≡ false → later i ≡ nodes i

  -- no node below a block may be written
  abbrev pub IsClear : (levels block : ℕ) → Type 0
  IsClear zero block = Unit {0}
  IsClear (suc levels) block = (touched block ≡ false) × AllBlocks (IsClear levels) (nodes block)

  -- A subtree with no such node keeps its part of the map, outside of the range of the insertion.
  IsMapped-stable :
      (later : ℕ → Node) (levels block lo hi : ℕ)
      → IsStable later
      → ((k : ℕ) → lo ≤ k → k < hi → inserted_at k ≡ leaf_at k)
      → IsClear levels block
      → IsMapped nodes leaf_at levels block lo hi
      → IsMapped later inserted_at levels block lo hi
  IsMapped-stable later zero block lo hi stable same clear m =
      (m.0, λ k l h. same k l h ∙ m.1 k l h)
  IsMapped-stable later (suc levels) block lo hi stable same clear m =
      let (some_, first, chain) = m in
      subst
        (λ (es : Node).
          (0 < length es) × (upper es hi ≡ lo) × Chain (IsMapped later inserted_at levels) es hi)
        (sym (stable block clear.0))
        (
          some_,
          first,
          Chain-map (IsMapped nodes leaf_at levels) (IsMapped later inserted_at levels)
              (IsClear levels) (nodes block) lo hi (IsMapped-lt nodes leaf_at levels)
              (λ b x y lx yh c r.
                IsMapped-stable later levels b x y stable
                  (λ k l h. same k (omega (arith, l, lx)) (omega (arith, h, yh))) c r)
              (omega (arith, first)) clear.1 chain,
        )

  -- Beside each place of a path only nodes that are not written.
  abbrev pub AreClear : (levels : ℕ) → Path_ → Type 0
  AreClear levels [] = Unit {0}
  AreClear levels (at ∷ path) =
      AllBlocks (IsClear levels) (take (at.next - 1) (nodes at.buffer))
      × AllBlocks (IsClear levels) (drop at.next (nodes at.buffer))
      × AreClear (suc levels) path

  -- What is around a path in nodes `now`: at each level the place of the subtree below, with children to both
  -- sides that have their part of the new map in all later nodes.
  abbrev pub Around : (root levels : ℕ) → (ℕ → Node) → Path_ → (block lo hi : ℕ) → Type 0
  Around root levels now [] block lo hi = (block ≡ root) × (lo ≡ 0) × (hi ≡ tuxkey_limit)
  Around root levels now (at ∷ path) block lo hi =
      (pre : Node) × (post : Node) × (lo' : ℕ) × (hi' : ℕ) × (now at.buffer
        ≡ pre ++ record { key = lo; block = block } ∷ post)
      × (at.next ≡ suc (length pre))
      × (upper post hi' ≡ hi)
      × (upper (pre ++ record { key = lo; block = block } ∷ post) hi' ≡ lo')
      × Ascends (now at.buffer) hi'
      × ((later : ℕ → Node)
          → IsStable later
          → Chain (IsMapped later inserted_at levels) pre lo
            × Chain (IsMapped later inserted_at levels) post hi')
      × Around root (suc levels) now path at.buffer lo' hi'

  -- two states of the nodes of a path
  abbrev pub Agree : (ℕ → Node) → (ℕ → Node) → Path_ → Type 0
  Agree now now' [] = Unit {0}
  Agree now now' (at ∷ path) = (now at.buffer ≡ now' at.buffer) × Agree now now' path

  pub Around-frame :
      (root levels : ℕ) (now now' : ℕ → Node) (path : Path_) (block lo hi : ℕ)
      → Agree now now' path
      → Around root levels now path block lo hi
      → Around root levels now' path block lo hi
  Around-frame root levels now now' [] block lo hi same h = h
  Around-frame root levels now now' (at ∷ path) block lo hi same h =
      let (pre, post, lo', hi', split, n, u, first, a, beside, above) = h in
      (
        pre,
        post,
        lo',
        hi',
        sym same.0 ∙ split,
        n,
        u,
        first,
        subst (λ (es : Node). Ascends es hi') same.0 a,
        beside,
        Around-frame root (suc levels) now now' path at.buffer lo' hi' same.1 above,
      )

  before_place :
      (pre rest : Node) (next : ℕ) → next ≡ suc (length pre) → take (next - 1) (pre ++ rest) ≡ pre
  before_place pre rest next n =
      ap (λ (i : ℕ). take i (pre ++ rest)) (omega (arith, n)) ∙ take-exact pre rest

  behind_place :
      (pre post : Node) (e : IndexEntry) (next : ℕ)
      → next ≡ suc (length pre)
      → drop next (pre ++ e ∷ post) ≡ post
  behind_place pre post e next n = drop-past pre (e ∷ post) next 1 (omega (arith, n))

  -- The path of a cursor has what is around it, where the insertion is in the range of the leaf.
  pub Hangs-Around :
      (root levels : ℕ) (path : Path_) (block lo hi : ℕ)
      → lo ≤ key
      → limit ≤ hi
      → AreClear levels path
      → Hangs nodes leaf_at root levels path block lo hi
      → Around root levels nodes path block lo hi
  Hangs-Around root levels [] block lo hi l u clear h = h
  Hangs-Around root levels (at ∷ path) block lo hi l u clear h =
      let (pre, post, lo', hi', split, n, up, m, above) = h in
      let e : IndexEntry = record { key = lo; block = block } in
      let chain = subst (λ (es : Node). Chain (IsMapped nodes leaf_at levels) es hi') split m.2 in
      let ascends =
        subst (λ (es : Node). Ascends es hi') split
          (Chain-Ascends (IsMapped nodes leaf_at levels) (nodes at.buffer) hi'
            (IsMapped-lt nodes leaf_at levels) m.2) in
      let (left, right) = Chain-split (IsMapped nodes leaf_at levels) pre (e ∷ post) hi' chain in
      let clear_pre =
        subst (AllBlocks (IsClear levels))
          (ap (take (at.next - 1)) split ∙ before_place pre (e ∷ post) at.next n) clear.0 in
      let clear_post =
        subst (AllBlocks (IsClear levels))
          (ap (drop at.next) split ∙ behind_place pre post e at.next n) clear.1 in
      let first : lo' ≤ lo =
        lowest pre post e lo' hi' (ap (λ (es : Node). upper es hi') (sym split) ∙ m.1) ascends in
      let last : hi ≤ hi' =
        omega (arith, up, Ascends-upper post hi' (Ascends-behind pre post e hi' ascends)) in
      (
        pre,
        post,
        lo',
        hi',
        split,
        n,
        up,
        ap (λ (es : Node). upper es hi') (sym split) ∙ m.1,
        subst (λ (es : Node). Ascends es hi') (sym split) ascends,
        λ later stable. (
          Chain-map (IsMapped nodes leaf_at levels) (IsMapped later inserted_at levels)
              (IsClear levels) pre 0 lo (IsMapped-lt nodes leaf_at levels)
              (λ b x y lx yh c r.
                IsMapped-stable later levels b x y stable
                  (λ k a z. below k (omega (arith, z, yh, l))) c r)
              (omega arith) clear_pre left,
          Chain-map (IsMapped nodes leaf_at levels) (IsMapped later inserted_at levels)
              (IsClear levels) post hi hi' (IsMapped-lt nodes leaf_at levels)
              (λ b x y lx yh c r.
                IsMapped-stable later levels b x y stable
                  (λ k a z. above_ k (omega (arith, a, lx, u))) c r)
              (omega (arith, up)) clear_post right.1,
        ),
        Hangs-Around root (suc levels) path at.buffer lo' hi' (omega (arith, first, l))
            (omega (arith, last, u)) clear.2 above,
      )
    where
      below : (k : ℕ) → k < key → inserted_at k ≡ leaf_at k
      below k h = ground (arith, h)

      above_ : (k : ℕ) → limit ≤ k → inserted_at k ≡ leaf_at k
      above_ k h = ground (arith, h)

  pub IsMapped-node :
      (later : ℕ → Node) (levels block lo hi : ℕ) (es : Node)
      → later block ≡ es
      → 0 < length es
      → upper es hi ≡ lo
      → Chain (IsMapped later inserted_at levels) es hi
      → IsMapped later inserted_at (suc levels) block lo hi
  IsMapped-node later levels block lo hi es e some_ first chain =
      subst
        (λ (l : Node).
          (0 < length l) × (upper l hi ≡ lo) × Chain (IsMapped later inserted_at levels) l hi)
        (sym e) (some_, first, chain)

  -- A block with its part of the new map, hung where the path leads, makes a btree with the new map.
  pub Around-IsMapped :
      (root levels : ℕ) (now later : ℕ → Node) (path : Path_) (block lo hi : ℕ)
      → IsStable later
      → Agree now later path
      → Around root levels now path block lo hi
      → IsMapped later inserted_at levels block lo hi
      → IsMapped later inserted_at (levels + length path) root 0 tuxkey_limit
  Around-IsMapped root levels now later [] block lo hi stable same h m =
      let (b, l, u) = h in
      let depth : levels ≡ levels + 0 = omega arith in
      subst (λ (n : ℕ). IsMapped later inserted_at n root 0 tuxkey_limit) depth
        (subst (λ (x : ℕ). IsMapped later inserted_at levels x 0 tuxkey_limit) b
          (subst (λ (x : ℕ). IsMapped later inserted_at levels block x tuxkey_limit) l
            (subst (λ (x : ℕ). IsMapped later inserted_at levels block lo x) u m)))
  Around-IsMapped root levels now later (at ∷ path) block lo hi stable same h m =
      let (pre, post, lo', hi', split, n, up, first, a, beside, above) = h in
      let e : IndexEntry = record { key = lo; block = block } in
      let (left, right) = beside later stable in
      let depth : suc levels + length path ≡ levels + suc (length path) = omega arith in
      let chain =
        Chain-append (IsMapped later inserted_at levels) pre (e ∷ post) hi' left
          (subst (λ (x : ℕ). IsMapped later inserted_at levels block lo x) (sym up) m, right) in
      let node =
        IsMapped-node later levels at.buffer lo' hi' (pre ++ e ∷ post) (sym same.0 ∙ split)
          (nonempty pre post e) first chain in
      subst (λ (n : ℕ). IsMapped later inserted_at n root 0 tuxkey_limit) depth
        (Around-IsMapped root (suc levels) now later path at.buffer lo' hi' stable same.1 above
          node)
