-- ===== src/Xattr/Update.antt =====
-- kernel/xattr.c: an update of the cache changes the attribute of one atom, and its references by as much.
use tux3_fuse.Prelude.{
  ℕ, ◌+◌, ◌^◌, ◌≤◌, ◌<◌, ◌≡◌, refl, ap, subst, ◌∙◌, sym, Bool, true, false, Bool-cases, inl, inr,
  Option, none, some, List, ◌==◌, if◌then◌else◌, length, arith,
}
use tux3_fuse.Iattr.{XcacheEntry}
use tux3_fuse.Xattr.{
  Xcache, size_of, xcache_lookup, xattrs_of, Updated, failed, enoattr, eexist, enomem, updated,
  insert_new, without, xcache_update,
}
use tux3_fuse.Xattr.Entries.{
  IsXcache, IsInserted, entry, lookup-remove_old, lookup-removed, remove_old-AreDistinct,
  size_of-remove_old, insert_new-IsInserted,
}

abbrev pub holds : Option XcacheEntry → ℕ
holds none = 0
holds (some xattr) = 1

module _ (create replace no_memory : Bool) (xcache : Option Xcache) (atom : ℕ) (value : List ℕ)
    (m : ℕ) where
  -- what an answer of the update says of the cache, with the attribute of an atom `m` in it
  abbrev pub IsUpdated : Updated → Type 0
  IsUpdated failed = 2 ^ 15 < size_of (xattrs_of xcache) + (4 + length value)
  IsUpdated enoattr = (replace ≡ true) × (holds (xcache_lookup (xattrs_of xcache) atom) ≡ 0)
  IsUpdated eexist = (create ≡ true) × (holds (xcache_lookup (xattrs_of xcache) atom) ≡ 1)
  IsUpdated (enomem after) =
      (no_memory ≡ true)
      × IsXcache after
      × (xcache_lookup (xattrs_of after) m
          ≡ (if atom == m then none else xcache_lookup (xattrs_of xcache) m))
  IsUpdated (updated after used) =
      IsXcache (some after)
      × (xcache_lookup after.xattrs m
          ≡ (if atom == m then some (entry atom value) else xcache_lookup (xattrs_of xcache) m))
      × (used + holds (xcache_lookup (xattrs_of xcache) atom) ≡ 1)

  -- an insertion into a cache that differs from the old one in the atom at most
  IsInserted-IsUpdated :
      (base : Option Xcache) (used : ℕ) (answer : Updated)
      → IsXcache base
      → ((atom == m) ≡ false
          → xcache_lookup (xattrs_of base) m ≡ xcache_lookup (xattrs_of xcache) m)
      → xcache_lookup (xattrs_of base) atom ≡ none
      → size_of (xattrs_of base) ≤ size_of (xattrs_of xcache)
      → used + holds (xcache_lookup (xattrs_of xcache) atom) ≡ 1
      → IsInserted no_memory base atom value m used answer
      → IsUpdated answer
  IsInserted-IsUpdated base used failed ok same absent small sum h = omega (arith, small, h)
  IsInserted-IsUpdated base used enoattr ok same absent small sum h = elim h [ ]
  IsInserted-IsUpdated base used eexist ok same absent small sum h = elim h [ ]
  IsInserted-IsUpdated base used (enomem after) ok same absent small sum h =
      let (failing, e) = h in
      (
        failing,
        subst IsXcache (sym e) ok,
        ap (λ (c : Option Xcache). xcache_lookup (xattrs_of c) m) e
            ∙ elim (Bool-cases (atom == m)) [
              | inl here ↦
                  let at : m ≡ atom = ground (arith, here) in
                  rw here (ap (λ (a : ℕ). xcache_lookup (xattrs_of base) a) at ∙ absent)
              | inr other ↦ rw other (same other)
            ],
      )
  IsInserted-IsUpdated base used (updated after used') ok same absent small sum h =
      let (whole, found, e) = h in
      (
        whole,
        found ∙ elim (Bool-cases (atom == m)) [
          | inl here ↦ rw here refl
          | inr other ↦ rw other (same other)
        ],
        ap (λ (n : ℕ). n + holds (xcache_lookup (xattrs_of xcache) atom)) e ∙ sum,
      )

  without-IsXcache : IsXcache xcache → IsXcache (without xcache atom)
  without-IsXcache h = go xcache h
    where
      go : (c : Option Xcache) → IsXcache c → IsXcache (without c atom)
      go none h = tt
      go (some c) h =
          let (d, inside, small) = h in
          (
            remove_old-AreDistinct c.xattrs atom d,
            omega (arith, inside, size_of-remove_old c.xattrs atom),
            small,
          )

  removed :
      (c : Option Xcache)
      → IsXcache c
      → ((atom == m) ≡ false
          → xcache_lookup (xattrs_of (without c atom)) m ≡ xcache_lookup (xattrs_of c) m)
        × (xcache_lookup (xattrs_of (without c atom)) atom ≡ none)
        × (size_of (xattrs_of (without c atom)) ≤ size_of (xattrs_of c))
  unfolding xcache_lookup
  removed none h = (λ k. refl, refl, omega arith)
  removed (some c) h = (
    λ k. lookup-remove_old c.xattrs atom m k,
    lookup-removed c.xattrs atom h.0,
    size_of-remove_old c.xattrs atom,
  )

  -- In a cache that holds no atom twice and whose allocated size is a 16-bit number, an update of an atom of 16 bits either sets the
  -- attribute of the atom and leaves those of all others, and the references of the atom grow by 1 exactly
  -- when it was not there; or it answers ENOATTR for XATTR_REPLACE of an atom that is not there, EEXIST for
  -- XATTR_CREATE of one that is, or ENOMEM, and then the atom is gone and the others are as before. An assert
  -- fails only where the entries with the new one would take more than 2^15 bytes.
  pub xcache_update-IsUpdated :
      IsXcache xcache
      → atom < 2 ^ 16
      → IsUpdated (xcache_update create replace no_memory xcache atom value)
  unfolding xcache_update
  xcache_update-IsUpdated h word = go (xcache_lookup (xattrs_of xcache) atom) refl
    where
      go :
          (o : Option XcacheEntry)
          → xcache_lookup (xattrs_of xcache) atom ≡ o
          → IsUpdated (elim o [
            | none ↦ if replace then enoattr else insert_new no_memory xcache atom value 1
            | some xattr ↦
                if create then eexist else insert_new no_memory (without xcache atom) atom value 0
          ])
      go none e = elim (Bool-cases replace) [
        | inl r ↦ rw r (refl, ap holds e)
        | inr r ↦
            subst
              (λ (b : Bool).
                IsUpdated (if b then enoattr else insert_new no_memory xcache atom value 1))
              (sym r)
              (IsInserted-IsUpdated xcache 1 _ h (λ k. refl) e (omega arith)
                (ap (λ (o : Option XcacheEntry). 1 + holds o) e)
                (insert_new-IsInserted no_memory xcache atom m 1 value h e word))
      ]
      go (some x) e = elim (Bool-cases create) [
        | inl r ↦ rw r (refl, ap holds e)
        | inr r ↦
            let (same, absent, small) = removed xcache h in
            subst
              (λ (b : Bool).
                IsUpdated
                  (if b then eexist else insert_new no_memory (without xcache atom) atom value 0))
              (sym r)
              (IsInserted-IsUpdated (without xcache atom) 0 _ (without-IsXcache h) same absent small
                (ap (λ (o : Option XcacheEntry). 0 + holds o) e)
                (insert_new-IsInserted no_memory (without xcache atom) atom m 0 value
                  (without-IsXcache h) absent word))
      ]
