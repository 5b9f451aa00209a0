-- ===== src/Btree/Redirect/Parents.antt =====
-- kernel/btree.c: the entry of a parent that is led to a copy.
use tux3_fuse.Prelude.{
  ℕ, suc, ◌-◌, ◌≡◌, refl, ap, ◌∙◌, true, false, List, [], ◌∷◌, ◌++◌, length, get_or, set, ◌==◌,
  arith,
}
use tux3_fuse.Btree.{IndexEntry, Node, no_entry}
use tux3_fuse.Btree.Cursor.{PathLevel, Path_}
use tux3_fuse.Btree.Cursor.Order.{upper, get_or-middle}
use tux3_fuse.Btree.Insert.{write_node}
use tux3_fuse.Btree.Insert.Places.{Ascends}
use tux3_fuse.Btree.Insert.Fits.{IsOff, IsNot}
use tux3_fuse.Btree.Insert.Divided.{apart_sym}
use tux3_fuse.Btree.Redirect.{update_parent}

-- the new blocks are different
abbrev pub AreNew : List ℕ → Type 0
AreNew [] = Unit {0}
AreNew (new ∷ fresh) = IsNot new fresh × AreNew fresh

-- The buffers of a path and the new blocks are all different.
abbrev pub AreApart : Path_ → List ℕ → Type 0
AreApart [] fresh = AreNew fresh
AreApart (at ∷ path) fresh = IsOff at.buffer path × IsNot at.buffer fresh × AreApart path fresh

pub AreApart-new :
    (path : Path_) (new : ℕ) (fresh : List ℕ)
    → AreApart path (new ∷ fresh)
    → IsOff new path × IsNot new fresh × AreApart path fresh
AreApart-new [] new fresh h = (tt, h.0, h.1)
AreApart-new (at ∷ path) new fresh h =
    let (off, other, more) = AreApart-new path new fresh h.2 in
    ((apart_sym new at.buffer h.1.0, off), other, (h.0, h.1.1, more))

-- the entry at a place, replaced
pub set-middle :
    (pre post : Node) (e x : IndexEntry) → set (pre ++ e ∷ post) (length pre) x ≡ pre ++ x ∷ post
set-middle [] post e x = refl
set-middle (p ∷ pre) post e x = ap (λ (l : Node). p ∷ l) (set-middle pre post e x)

pub upper-middle :
    (pre post : Node) (e x : IndexEntry) (hi : ℕ)
    → e.key ≡ x.key
    → upper (pre ++ e ∷ post) hi ≡ upper (pre ++ x ∷ post) hi
upper-middle [] post e x hi h = h
upper-middle (p ∷ pre) post e x hi h = refl

pub Ascends-middle :
    (pre post : Node) (e x : IndexEntry) (hi : ℕ)
    → e.key ≡ x.key
    → Ascends (pre ++ e ∷ post) hi
    → Ascends (pre ++ x ∷ post) hi
Ascends-middle [] post e x hi h a = (omega (arith, h, a.0), a.1)
Ascends-middle (p ∷ pre) post e x hi h a =
    (omega (arith, a.0, upper-middle pre post e x hi h), Ascends-middle pre post e x hi h a.1)

-- the node of a parent with its entry changed
pub update_parent-here :
    (now : ℕ → Node) (at : PathLevel) (pre post : Node) (key old child : ℕ)
    → now at.buffer ≡ pre ++ record { key = key; block = old } ∷ post
    → at.next ≡ suc (length pre)
    → update_parent now at child at.buffer ≡ pre ++ record { key = key; block = child } ∷ post
update_parent-here now at pre post key old child split n =
    let e : IndexEntry = record { key = key; block = old } in
    let same : (at.buffer == at.buffer) ≡ true = ground arith in
    let place : at.next - 1 ≡ length pre = omega (arith, n) in
    rw (same, place)
      (ap
          (λ (l : Node).
            set l (length pre)
              (record { key = (get_or l (length pre) no_entry).key; block = child }))
          split
        ∙ ap
            (λ (y : IndexEntry).
              set (pre ++ e ∷ post) (length pre) (record { key = y.key; block = child }))
            (get_or-middle pre post e)
        ∙ set-middle pre post e (record { key = key; block = child }))

pub update_parent-else :
    (now : ℕ → Node) (at : PathLevel) (child i : ℕ)
    → (i == at.buffer) ≡ false
    → now i ≡ update_parent now at child i
update_parent-else now at child i h = rw h refl

pub write_node-else :
    (now : ℕ → Node) (new : ℕ) (node : Node) (i : ℕ)
    → (i == new) ≡ false
    → now i ≡ write_node now new node i
write_node-else now new node i h = rw h refl

pub write_node-here : (now : ℕ → Node) (new : ℕ) (node : Node) → write_node now new node new ≡ node
write_node-here now new node = let same : (new == new) ≡ true = ground arith in rw same refl
