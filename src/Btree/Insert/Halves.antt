-- ===== src/Btree/Insert/Halves.antt =====
-- kernel/btree.c: a full node with a new entry, divided between two blocks.
use tux3_fuse.Prelude.{
  ℕ, zero, suc, ◌-◌, ◌≤◌, ◌<◌, ◌≡◌, refl, ap, ◌∙◌, [], ◌∷◌, ◌++◌, length, length-drop, get_or, take,
  drop, arith,
}
use tux3_fuse.Btree.{IndexEntry, Node, no_entry}
use tux3_fuse.Btree.Cursor.Order.{upper}

-- the entry `x` at a place of a node
abbrev pub with_entry : Node → (next : ℕ) → IndexEntry → Node
with_entry es next x = take next es ++ x ∷ drop next es

-- The node is divided into two, of which neither is empty; the second begins with `newkey`.
abbrev pub AreHalves : (whole low high : Node) (newkey hi : ℕ) → Type 0
AreHalves whole low high newkey hi =
    (m : ℕ) × (low ≡ take m whole)
    × (high ≡ drop m whole)
    × (0 < m)
    × (0 < length high)
    × (upper high hi ≡ newkey)

take-with_entry :
    (es : Node) (next half : ℕ) (x : IndexEntry)
    → next ≤ half
    → with_entry (take half es) next x ≡ take (suc half) (with_entry es next x)
take-with_entry es zero half x h = refl
take-with_entry [] (suc next) half x h = one half
  where
    one : (half : ℕ) → with_entry (take half []) (suc next) x ≡ take (suc half) (x ∷ [])
    one zero = refl
    one (suc half) = refl
take-with_entry (e ∷ es) (suc next) zero x h = absurd (omega (arith, h))
take-with_entry (e ∷ es) (suc next) (suc half) x h =
    ap (λ (l : Node). e ∷ l) (take-with_entry es next half x (omega (arith, h)))

drop-with_entry_left :
    (es : Node) (next half : ℕ) (x : IndexEntry)
    → next ≤ half
    → next ≤ length es
    → drop half es ≡ drop (suc half) (with_entry es next x)
drop-with_entry_left es zero half x h b = refl
drop-with_entry_left [] (suc next) half x h b = absurd (omega (arith, b))
drop-with_entry_left (e ∷ es) (suc next) zero x h b = absurd (omega (arith, h))
drop-with_entry_left (e ∷ es) (suc next) (suc half) x h b =
    drop-with_entry_left es next half x (omega (arith, h)) (omega (arith, b))

take-with_entry_right :
    (es : Node) (next half : ℕ) (x : IndexEntry)
    → half ≤ next
    → next ≤ length es
    → take half es ≡ take half (with_entry es next x)
take-with_entry_right es next zero x h b = refl
take-with_entry_right es zero (suc half) x h b = absurd (omega (arith, h))
take-with_entry_right [] (suc next) (suc half) x h b = absurd (omega (arith, b))
take-with_entry_right (e ∷ es) (suc next) (suc half) x h b =
    ap (λ (l : Node). e ∷ l)
      (take-with_entry_right es next half x (omega (arith, h)) (omega (arith, b)))

drop-with_entry_right :
    (es : Node) (next half : ℕ) (x : IndexEntry)
    → half ≤ next
    → next ≤ length es
    → with_entry (drop half es) (next - half) x ≡ drop half (with_entry es next x)
drop-with_entry_right es next zero x h b = ap (λ (n : ℕ). with_entry es n x) (omega arith)
drop-with_entry_right es zero (suc half) x h b = absurd (omega (arith, h))
drop-with_entry_right [] (suc next) (suc half) x h b = absurd (omega (arith, b))
drop-with_entry_right (e ∷ es) (suc next) (suc half) x h b =
    ap (λ (n : ℕ). with_entry (drop half es) n x) (omega arith)
    ∙ drop-with_entry_right es next half x (omega (arith, h)) (omega (arith, b))

upper-drop :
    (es : Node) (half hi : ℕ)
    → half < length es
    → upper (drop half es) hi ≡ (get_or es half no_entry).key
upper-drop [] half hi h = absurd (omega (arith, h))
upper-drop (e ∷ es) zero hi h = refl
upper-drop (e ∷ es) (suc half) hi h = upper-drop es half hi (omega (arith, h))

upper-with_entry :
    (es : Node) (next hi : ℕ) (x : IndexEntry)
    → 0 < next
    → 0 < length es
    → upper (with_entry es next x) hi ≡ upper es hi
upper-with_entry [] next hi x h b = absurd (omega (arith, b))
upper-with_entry (e ∷ es) zero hi x h b = absurd (omega (arith, h))
upper-with_entry (e ∷ es) (suc next) hi x h b = refl

pub upper-take :
    (es : Node) (m hi hi' : ℕ) → 0 < m → 0 < length es → upper (take m es) hi ≡ upper es hi'
upper-take [] m hi hi' h b = absurd (omega (arith, b))
upper-take (e ∷ es) zero hi hi' h b = absurd (omega (arith, h))
upper-take (e ∷ es) (suc m) hi hi' h b = refl

length-with_entry : (es : Node) (next : ℕ) (x : IndexEntry) → 0 < length (with_entry es next x)
length-with_entry es zero x = omega arith
length-with_entry [] (suc next) x = omega arith
length-with_entry (e ∷ es) (suc next) x = omega arith

pub left-AreHalves :
    (es : Node) (next half hi : ℕ) (x : IndexEntry)
    → next ≤ half
    → half < length es
    → AreHalves
        (with_entry es next x)
        (with_entry (take half es) next x)
        (drop half es)
        (get_or es half no_entry).key
        hi
left-AreHalves es next half hi x h b = (
  suc half,
  take-with_entry es next half x h,
  drop-with_entry_left es next half x h (omega (arith, h, b)),
  omega arith,
  omega (arith, b, length-drop half es),
  upper-drop es half hi b,
)

pub right-AreHalves :
    (es : Node) (next half hi : ℕ) (x : IndexEntry)
    → half < next
    → next ≤ length es
    → 0 < half
    → AreHalves
        (with_entry es next x)
        (take half es)
        (with_entry (drop half es) (next - half) x)
        (get_or es half no_entry).key
        hi
right-AreHalves es next half hi x h b p = (
  half,
  take-with_entry_right es next half x (omega (arith, h)) b,
  drop-with_entry_right es next half x (omega (arith, h)) b,
  p,
  length-with_entry (drop half es) (next - half) x,
  upper-with_entry (drop half es) (next - half) hi x (omega (arith, h))
        (omega (arith, h, b, length-drop half es))
      ∙ upper-drop es half hi (omega (arith, h, b)),
)
