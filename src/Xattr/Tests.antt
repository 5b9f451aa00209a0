-- ===== src/Xattr/Tests.antt =====
-- A cache with the attributes of two atoms.
use tux3_fuse.Prelude.{◌≡◌, refl, true, false, none, some, [], ◌∷◌, arith}
use tux3_fuse.Xattr.{
  Xcache, xcache_lookup, remove_old, expand_xcache, updated, insert_new, xcache_update,
}
use tux3_fuse.Xattr.Entries.{IsXcache}
use tux3_fuse.Xattr.Update.{IsUpdated, xcache_update-IsUpdated}

abbrev two_atoms : Xcache
two_atoms = record {
  maxsize = 128;
  xattrs = record { atom = 3; body = 1 ∷ [] } ∷ record { atom = 5; body = [] } ∷ [];
}

two_atoms-IsXcache : IsXcache (some two_atoms)
unfolding xcache_lookup
two_atoms-IsXcache = ((refl, (refl, tt)), omega arith, omega arith)

replaced :
    xcache_update false false false (some two_atoms) 3 (7 ∷ 8 ∷ [])
    ≡ updated
        (record {
          maxsize = 128;
          xattrs = record { atom = 5; body = [] } ∷ record { atom = 3; body = 7 ∷ 8 ∷ [] } ∷ [];
        })
        0
unfolding xcache_update insert_new xcache_lookup remove_old
replaced = refl

-- A cache of 2^15 bytes does not grow by one byte, since the doubled size is no 16-bit number.
no_growth : expand_xcache (some (record { maxsize = 32768; xattrs = [] })) 32769 ≡ none
unfolding expand_xcache
no_growth = refl

xcache_update-IsUpdated_example :
    IsUpdated false true false
      (some two_atoms)
      3
      (7 ∷ 8 ∷ [])
      5
      (xcache_update false true false (some two_atoms) 3 (7 ∷ 8 ∷ []))
xcache_update-IsUpdated_example =
    xcache_update-IsUpdated false true false (some two_atoms) 3 (7 ∷ 8 ∷ []) 5 two_atoms-IsXcache
      (omega arith)
