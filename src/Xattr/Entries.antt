-- ===== src/Xattr/Entries.antt =====
-- kernel/xattr.c: the insertion into a cache that does not hold the atom, and the removal of an atom.
use tux3_fuse.Prelude.{
  ℕ, ◌+◌, ◌*◌, ◌/◌, ◌^◌, ◌≤◌, ◌<◌, ◌≡◌, refl, ap, ◌∙◌, sym, Bool, true, false, ◌||◌, Bool-cases,
  inl, inr, Option, none, some, List, [], ◌∷◌, ◌++◌, ltb, ◌==◌, if◌then◌else◌, length, max, arith,
  ◌%◌,
}
use tux3_fuse.Iattr.{XcacheEntry}
use tux3_fuse.Xattr.{
  Xcache, size_of, xcache_lookup, remove_old, xattrs_of, expand_xcache, Updated, failed, enomem,
  updated, put, insert_new, insert_expanded,
}

-- no atom twice
abbrev pub AreDistinct : List XcacheEntry → Type 0
AreDistinct [] = Unit {0}
AreDistinct (x ∷ xs) = (xcache_lookup xs x.atom ≡ none) × AreDistinct xs

-- The entries are inside the allocated space, whose size is a 16-bit number.
abbrev pub IsXcache : Option Xcache → Type 0
IsXcache none = Unit {0}
IsXcache (some xcache) =
    AreDistinct xcache.xattrs × (size_of xcache.xattrs ≤ xcache.maxsize) × (xcache.maxsize < 2 ^ 16)

lookup-put :
    (xs : List XcacheEntry) (x : XcacheEntry) (m : ℕ)
    → (x.atom == m) ≡ false
    → xcache_lookup (xs ++ x ∷ []) m ≡ xcache_lookup xs m
unfolding xcache_lookup
lookup-put [] x m e = rw e refl
lookup-put (y ∷ xs) x m e = elim (Bool-cases (y.atom == m)) [
  | inl h ↦ rw h refl
  | inr h ↦ rw h (lookup-put xs x m e)
]

lookup-put_self :
    (xs : List XcacheEntry) (x : XcacheEntry)
    → xcache_lookup xs x.atom ≡ none
    → xcache_lookup (xs ++ x ∷ []) x.atom ≡ some x
unfolding xcache_lookup
lookup-put_self [] x e = ground arith
lookup-put_self (y ∷ xs) x e = elim (Bool-cases (y.atom == x.atom)) [
  | inl h ↦ absurd (ground (arith, h, e))
  | inr h ↦ rw h (lookup-put_self xs x (ground (arith, h, e)))
]

pub lookup-remove_old :
    (xs : List XcacheEntry) (atom m : ℕ)
    → (atom == m) ≡ false
    → xcache_lookup (remove_old xs atom) m ≡ xcache_lookup xs m
unfolding xcache_lookup remove_old
lookup-remove_old [] atom m e = refl
lookup-remove_old (y ∷ xs) atom m e = elim (Bool-cases (y.atom == atom)) [
  | inl h ↦ let other : (y.atom == m) ≡ false = ground (arith, h, e) in rw (h, other) refl
  | inr h ↦ elim (Bool-cases (y.atom == m)) [
    | inl k ↦ rw (h, k) refl
    | inr k ↦ rw (h, k) (lookup-remove_old xs atom m e)
  ]
]

pub lookup-removed :
    (xs : List XcacheEntry) (atom : ℕ)
    → AreDistinct xs
    → xcache_lookup (remove_old xs atom) atom ≡ none
unfolding xcache_lookup remove_old
lookup-removed [] atom d = refl
lookup-removed (y ∷ xs) atom d = elim (Bool-cases (y.atom == atom)) [
  | inl h ↦
      let same : y.atom ≡ atom = ground (arith, h) in
      rw h (ap (λ (a : ℕ). xcache_lookup xs a) (sym same) ∙ d.0)
  | inr h ↦ rw (h, h) (lookup-removed xs atom d.1)
]

pub remove_old-AreDistinct :
    (xs : List XcacheEntry) (atom : ℕ) → AreDistinct xs → AreDistinct (remove_old xs atom)
unfolding remove_old
remove_old-AreDistinct [] atom d = tt
remove_old-AreDistinct (y ∷ xs) atom d = elim (Bool-cases (y.atom == atom)) [
  | inl h ↦ rw h d.1
  | inr h ↦
      let apart : (atom == y.atom) ≡ false = ground (arith, h) in
      rw h (lookup-remove_old xs atom y.atom apart ∙ d.0, remove_old-AreDistinct xs atom d.1)
]

put-AreDistinct :
    (xs : List XcacheEntry) (x : XcacheEntry)
    → xcache_lookup xs x.atom ≡ none
    → AreDistinct xs
    → AreDistinct (xs ++ x ∷ [])
unfolding xcache_lookup
put-AreDistinct [] x e d = (refl, tt)
put-AreDistinct (y ∷ xs) x e d = elim (Bool-cases (y.atom == x.atom)) [
  | inl h ↦ absurd (ground (arith, h, e))
  | inr h ↦
      let apart : (x.atom == y.atom) ≡ false = ground (arith, h) in
      (lookup-put xs x y.atom apart ∙ d.0, put-AreDistinct xs x (ground (arith, h, e)) d.1)
]

size_of-put :
    (xs : List XcacheEntry) (x : XcacheEntry)
    → size_of (xs ++ x ∷ []) ≡ size_of xs + (4 + length x.body)
size_of-put [] x = omega arith
size_of-put (y ∷ xs) x = omega (arith, size_of-put xs x)

pub size_of-remove_old :
    (xs : List XcacheEntry) (atom : ℕ) → size_of (remove_old xs atom) ≤ size_of xs
unfolding remove_old
size_of-remove_old [] atom = omega arith
size_of-remove_old (y ∷ xs) atom = elim (Bool-cases (y.atom == atom)) [
  | inl h ↦ rw h (omega arith)
  | inr h ↦ rw h (omega (arith, size_of-remove_old xs atom))
]

abbrev pub entry : (atom : ℕ) → List ℕ → XcacheEntry
entry atom value = record { atom = atom; body = value }

-- what the insertion of an atom that the cache does not hold leaves, for an atom `m`
abbrev pub IsInserted :
    (no_memory : Bool) → Option Xcache → (atom : ℕ) → List ℕ → (m used : ℕ) → Updated → Type 0
IsInserted no_memory base atom value m used failed =
    2 ^ 15 < size_of (xattrs_of base) + (4 + length value)
IsInserted no_memory base atom value m used (enomem after) = (no_memory ≡ true) × (after ≡ base)
IsInserted no_memory base atom value m used (updated after used') =
    IsXcache (some after)
    × (xcache_lookup after.xattrs m
        ≡ (if atom == m then some (entry atom value) else xcache_lookup (xattrs_of base) m))
    × (used' ≡ used)
IsInserted no_memory base atom value m used _ = ⊥

put-IsInserted :
    (no_memory : Bool) (base : Option Xcache) (maxsize atom m used : ℕ) (value : List ℕ)
    → AreDistinct (xattrs_of base)
    → xcache_lookup (xattrs_of base) atom ≡ none
    → size_of (xattrs_of base) + (4 + length value) ≤ maxsize
    → maxsize < 2 ^ 16
    → atom < 2 ^ 16
    → IsInserted no_memory base atom value m used
        (updated (put maxsize (xattrs_of base) atom value) used)
put-IsInserted no_memory base maxsize atom m used value d absent room small word =
    let narrow : atom % 2 ^ 16 ≡ atom = omega (arith, word) in
    let xs = xattrs_of base in
    let found : xcache_lookup (xs ++ entry atom value ∷ []) m
        ≡ (if atom == m then some (entry atom value) else xcache_lookup xs m) =
      elim (Bool-cases (atom == m)) [
        | inl same ↦
            let e : atom ≡ m = ground (arith, same) in
            rw same (
              ap (λ (a : ℕ). xcache_lookup (xs ++ entry atom value ∷ []) a) (sym e)
              ∙ lookup-put_self xs (entry atom value) absent)
        | inr other ↦ rw other (lookup-put xs (entry atom value) m other)
      ] in
    rw narrow (
      (
        put-AreDistinct xs (entry atom value) absent d,
        omega (arith, room, size_of-put xs (entry atom value)),
        small,
      ),
      found,
      refl,
    )

distinct_of : (base : Option Xcache) → IsXcache base → AreDistinct (xattrs_of base)
distinct_of none h = tt
distinct_of (some xcache) h = h.0

-- how an expansion of a cache to more bytes than it has ends
abbrev IsExpanded : (size : ℕ) → Option ℕ → Type 0
IsExpanded size none = 2 ^ 15 < size
IsExpanded size (some maxsize) = (size ≤ maxsize) × (maxsize < 2 ^ 16)

expand_xcache-none-IsExpanded : (size : ℕ) → 0 < size → IsExpanded size (expand_xcache none size)
unfolding expand_xcache
expand_xcache-none-IsExpanded size h =
    elim (Bool-cases (((size + 127) / 128 * 128 == 0) || ltb 65535 ((size + 127) / 128 * 128))) [
      | inl e ↦ rw e (ground (arith, h, e))
      | inr e ↦ rw e (ground (arith, h, e), ground (arith, h, e))
    ]

expand_xcache-some-IsExpanded :
    (xcache : Xcache) (size : ℕ)
    → xcache.maxsize < size
    → IsExpanded size (expand_xcache (some xcache) size)
unfolding expand_xcache
expand_xcache-some-IsExpanded xcache size h =
    elim (Bool-cases
      ((max (xcache.maxsize * 2) size == 0) || ltb 65535 (max (xcache.maxsize * 2) size))) [
        | inl e ↦ rw e (ground (arith, h, e))
        | inr e ↦ rw e (ground (arith, h, e), ground (arith, h, e))
      ]

insert_expanded-IsInserted :
    (no_memory : Bool) (base : Option Xcache) (atom m used : ℕ) (value : List ℕ)
    → AreDistinct (xattrs_of base)
    → xcache_lookup (xattrs_of base) atom ≡ none
    → atom < 2 ^ 16
    → let size = size_of (xattrs_of base) + (4 + length value) in
      IsExpanded size (expand_xcache base size)
      → IsInserted no_memory base atom value m used
          (insert_expanded no_memory base atom value used size)
insert_expanded-IsInserted no_memory base atom m used value d absent word grown =
    go (expand_xcache base (size_of (xattrs_of base) + (4 + length value))) grown
  where
    go :
        (o : Option ℕ)
        → IsExpanded (size_of (xattrs_of base) + (4 + length value)) o
        → IsInserted no_memory base atom value m used (elim o [
          | none ↦ failed
          | some maxsize ↦
              if no_memory
              then enomem base
              else updated (put maxsize (xattrs_of base) atom value) used
        ])
    go none h = h
    go (some maxsize) h = elim (Bool-cases no_memory) [
      | inl e ↦ rw e (refl, refl)
      | inr e ↦ rw e (put-IsInserted no_memory base maxsize atom m used value d absent h.0 h.1 word)
    ]

pub insert_new-IsInserted :
    (no_memory : Bool) (base : Option Xcache) (atom m used : ℕ) (value : List ℕ)
    → IsXcache base
    → xcache_lookup (xattrs_of base) atom ≡ none
    → atom < 2 ^ 16
    → IsInserted no_memory base atom value m used (insert_new no_memory base atom value used)
unfolding insert_new
insert_new-IsInserted no_memory none atom m used value h absent word =
    insert_expanded-IsInserted no_memory none atom m used value tt absent word
      (expand_xcache-none-IsExpanded (0 + (4 + length value)) (omega arith))
insert_new-IsInserted no_memory (some xcache) atom m used value h absent word =
    let (d, inside, small) = h in
    let size = size_of xcache.xattrs + (4 + length value) in
    elim (Bool-cases (ltb xcache.maxsize size)) [
      | inl more ↦ rw more (
          insert_expanded-IsInserted no_memory (some xcache) atom m used value d absent word
            (expand_xcache-some-IsExpanded xcache size (ground (arith, more))))
      | inr fits ↦ rw fits (
          put-IsInserted no_memory (some xcache) xcache.maxsize atom m used value d absent
            (ground (arith, fits)) small word)
    ]
