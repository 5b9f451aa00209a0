-- ===== src/Btree/Insert/Places.antt =====
-- kernel/btree.c: the place of a new entry in a node, whole or split.
use tux3_fuse.Prelude.{
  ℕ, zero, suc, ◌-◌, ◌≤◌, ◌<◌, ◌≡◌, refl, ap, ◌∙◌, sym, subst, true, false, some, [], ◌∷◌, ◌++◌,
  length, get_or, take, drop, take-append-drop, length-drop, leb, arith,
}
use tux3_fuse.Btree.{IndexEntry, Node, no_entry, passed, bnode_lookup, bnode_add_index, add_func}
use tux3_fuse.Btree.Cursor.Order.{upper, Chain}

-- The keys of a node rise, up to the bound behind them.
abbrev pub Ascends : Node → (hi : ℕ) → Type 0
Ascends [] hi = Unit {0}
Ascends (e ∷ es) hi = (e.key < upper es hi) × Ascends es hi

pub Chain-Ascends :
    (R : ℕ → ℕ → ℕ → Type 0) (es : Node) (hi : ℕ)
    → ((block lo up : ℕ) → R block lo up → lo < up)
    → Chain R es hi
    → Ascends es hi
Chain-Ascends R [] hi f c = tt
Chain-Ascends R (e ∷ es) hi f c = (f e.block e.key (upper es hi) c.0, Chain-Ascends R es hi f c.1)

pub Ascends-upper : (es : Node) (hi : ℕ) → Ascends es hi → upper es hi ≤ hi
Ascends-upper [] hi a = omega arith
Ascends-upper (e ∷ es) hi a = omega (arith, a.0, Ascends-upper es hi a.1)

pub Ascends-split :
    (xs ys : Node) (hi : ℕ) → Ascends (xs ++ ys) hi → Ascends xs (upper ys hi) × Ascends ys hi
Ascends-split [] ys hi a = (tt, a)
Ascends-split (x ∷ []) ys hi a = ((a.0, tt), a.1)
Ascends-split (x ∷ x' ∷ xs) ys hi a =
    let (first, second) = Ascends-split (x' ∷ xs) ys hi a.1 in ((a.0, first), second)

-- the first key is not above the ones behind it
pub Ascends-first :
    (x : IndexEntry) (xs ys : Node) (hi : ℕ) → Ascends (x ∷ xs ++ ys) hi → x.key ≤ upper ys hi
Ascends-first x [] ys hi a = omega (arith, a.0)
Ascends-first x (x' ∷ xs) ys hi a = omega (arith, a.0, Ascends-first x' xs ys hi a.1)

-- `key` belongs behind `e`: it is not below its key, and below the next one
abbrev pub IsBehind : (e : IndexEntry) → Node → (key : ℕ) → Type 0
IsBehind e [] key = e.key ≤ key
IsBehind e (n ∷ post) key = (e.key ≤ key) × (key < n.key)

pub IsBehind-upper :
    (e : IndexEntry) (post : Node) (key hi : ℕ)
    → e.key ≤ key
    → key < upper post hi
    → IsBehind e post key
IsBehind-upper e [] key hi l u = l
IsBehind-upper e (n ∷ post) key hi l u = (l, u)

-- The lookup of a key passes the entries before its place.
pub passed-pre :
    (pre post : Node) (e : IndexEntry) (key hi : ℕ)
    → Ascends (pre ++ e ∷ post) hi
    → IsBehind e post key
    → passed key (pre ++ e ∷ post) ≡ suc (length pre)
passed-pre [] [] e key hi a b = ground (arith, b)
passed-pre [] (n ∷ post) e key hi a b = ground (arith, b)
passed-pre (x ∷ pre) post e key hi a b =
    let below = Ascends-first x pre (e ∷ post) hi a in
    let low : e.key ≤ key =
      elim post as (λ p. IsBehind e p key → e.key ≤ key) [ [] ↦ λ h. h | ◌∷◌ n r ↦ λ h. h.0 ] b in
    ground (arith, below, low, passed-pre pre post e key hi a.1 b)

-- so the replay of an added entry puts it at its place
pub add_func-place :
    (pre post : Node) (e : IndexEntry) (key child hi : ℕ)
    → Ascends (pre ++ e ∷ post) hi
    → IsBehind e post key
    → add_func (pre ++ e ∷ post) child key
      ≡ some (bnode_add_index (pre ++ e ∷ post) (suc (length pre)) child key)
unfolding add_func bnode_lookup
add_func-place [] post e key child hi a b =
    elim post
        as (λ p.
          IsBehind e p key
          → add_func (e ∷ p) child key ≡ some (bnode_add_index (e ∷ p) 1 child key)) [
            | [] ↦ λ h. refl
            | ◌∷◌ n r ↦ λ h.
                let here : passed key (n ∷ r) ≡ 0 = ground (arith, h) in
                ap (λ (i : ℕ). some (bnode_add_index (e ∷ n ∷ r) (suc i) child key)) here
          ]
      b
add_func-place (x ∷ pre) post e key child hi a b =
    ap (λ (i : ℕ). some (bnode_add_index (x ∷ pre ++ e ∷ post) (suc i) child key))
      (passed-pre pre post e key hi a.1 b)

-- Of a split node, the half with the place of an entry.
take-middle :
    (half : ℕ) (pre post : Node) (e : IndexEntry)
    → suc (length pre) ≤ half
    → take half (pre ++ e ∷ post) ≡ pre ++ e ∷ take (half - suc (length pre)) post
take-middle zero pre post e h = absurd (omega (arith, h))
take-middle (suc half) [] post e h = ap (λ (n : ℕ). e ∷ take n post) (omega arith)
take-middle (suc half) (x ∷ pre) post e h =
    ap (λ (l : Node). x ∷ l) (take-middle half pre post e (omega (arith, h)))
    ∙ ap (λ (n : ℕ). x ∷ pre ++ e ∷ take n post) (omega arith)

drop-middle :
    (half : ℕ) (pre post : Node) (e : IndexEntry)
    → half ≤ length pre
    → drop half (pre ++ e ∷ post) ≡ drop half pre ++ e ∷ post
drop-middle zero pre post e h = refl
drop-middle (suc half) [] post e h = absurd (omega (arith, h))
drop-middle (suc half) (x ∷ pre) post e h = drop-middle half pre post e (omega (arith, h))

IsBehind-take :
    (n : ℕ) (e : IndexEntry) (post : Node) (key : ℕ)
    → IsBehind e post key
    → IsBehind e (take n post) key
IsBehind-take zero e [] key h = h
IsBehind-take zero e (x ∷ post) key h = h.0
IsBehind-take (suc n) e [] key h = h
IsBehind-take (suc n) e (x ∷ post) key h = h

-- A node with the place of a key in it, where the place is `next`.
abbrev pub HasPlace : Node → (next key : ℕ) → Type 0
HasPlace es next key =
    (pre : Node) × (e : IndexEntry) × (post : Node) × (hi : ℕ) × (es ≡ pre ++ e ∷ post)
    × (next ≡ suc (length pre))
    × IsBehind e post key
    × Ascends es hi

pub HasPlace-take :
    (half : ℕ) (es : Node) (next key : ℕ)
    → HasPlace es next key
    → leb next half ≡ true
    → HasPlace (take half es) next key
HasPlace-take half es next key h left =
    let (pre, e, post, hi, split, n, b, a) = h in
    let halves =
      Ascends-split (take half es) (drop half es) hi
        (subst (λ (l : Node). Ascends l hi) (sym (take-append-drop half es)) a) in
    (
      pre,
      e,
      take (half - suc (length pre)) post,
      upper (drop half es) hi,
      ap (take half) split ∙ take-middle half pre post e (ground (arith, left, n)),
      n,
      IsBehind-take (half - suc (length pre)) e post key b,
      halves.0,
    )

pub HasPlace-drop :
    (half : ℕ) (es : Node) (next key : ℕ)
    → HasPlace es next key
    → leb next half ≡ false
    → HasPlace (drop half es) (next - half) key
HasPlace-drop half es next key h right =
    let (pre, e, post, hi, split, n, b, a) = h in
    let halves =
      Ascends-split (take half es) (drop half es) hi
        (subst (λ (l : Node). Ascends l hi) (sym (take-append-drop half es)) a) in
    (
      drop half pre,
      e,
      post,
      hi,
      ap (drop half) split ∙ drop-middle half pre post e (ground (arith, right, n)),
      ground (arith, n, right, length-drop half pre),
      b,
      halves.1,
    )

pub add_func-HasPlace :
    (es : Node) (next key child : ℕ)
    → HasPlace es next key
    → add_func es child key ≡ some (bnode_add_index es next child key)
add_func-HasPlace es next key child h =
    let (pre, e, post, hi, split, n, b, a) = h in
    ap (λ (l : Node). add_func l child key) split
    ∙ add_func-place pre post e key child hi (subst (λ (l : Node). Ascends l hi) split a) b
    ∙ ap (λ (l : Node). some (bnode_add_index l (suc (length pre)) child key)) (sym split)
    ∙ ap (λ (i : ℕ). some (bnode_add_index es i child key)) (sym n)

-- The key at the split lies in the bounds of the node.
pub split_key-bounds :
    (half : ℕ) (es : Node) (hi : ℕ)
    → Ascends es hi
    → half < length es
    → (upper es hi ≤ (get_or es half no_entry).key) × ((get_or es half no_entry).key < hi)
split_key-bounds half [] hi a h = absurd (omega (arith, h))
split_key-bounds zero (e ∷ es) hi a h = (omega arith, omega (arith, a.0, Ascends-upper es hi a.1))
split_key-bounds (suc half) (e ∷ es) hi a h =
    let (l, u) = split_key-bounds half es hi a.1 (omega (arith, h)) in (omega (arith, a.0, l), u)
