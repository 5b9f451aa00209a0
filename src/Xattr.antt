-- ===== src/Xattr.antt =====
-- kernel/xattr.c: the cache of the extended attributes of an inode. The cache is its allocated size with the
-- list of its entries, and `none` where the inode has no cache. A walk over the entries of a list ends at
-- xcache_limit exactly, so the answer EINVAL of xcache_lookup and the failed asserts of the walks do not occur.
pub mod Entries
pub mod Update
mod Tests
use tux3_fuse.Prelude.{
  ℕ, zero, suc, ◌+◌, ◌-◌, ◌*◌, ◌/◌, ◌%◌, ◌^◌, Bool, true, false, ◌&&◌, ◌||◌, Option, none, some,
  List, [], ◌∷◌, ◌++◌, ltb, leb, ◌==◌, if◌then◌else◌, length, max,
}
use tux3_fuse.Iattr.{XcacheEntry}

pub record Xcache : Type 0 where
  pub maxsize : ℕ
  pub xattrs : List XcacheEntry

-- the bytes of the entries, the field `size`
abbrev pub size_of : List XcacheEntry → ℕ
size_of [] = 0
size_of (xattr ∷ later) = 4 + length xattr.body + size_of later

-- `none` is -ENOATTR.
unfoldable pub xcache_lookup : List XcacheEntry → (atom : ℕ) → Option XcacheEntry
xcache_lookup [] atom = none
xcache_lookup (xattr ∷ later) atom =
    let found = xcache_lookup later atom in if xattr.atom == atom then some xattr else found

-- `remove_old` of the entry that the lookup of the atom found
unfoldable pub remove_old : List XcacheEntry → (atom : ℕ) → List XcacheEntry
remove_old [] atom = []
remove_old (xattr ∷ later) atom =
    let left = remove_old later atom in if xattr.atom == atom then later else xattr ∷ left

abbrev pub xattrs_of : Option Xcache → List XcacheEntry
xattrs_of none = []
xattrs_of (some xcache) = xcache.xattrs

-- the size that expand_xcache allocates; `none` is a failed assert
unfoldable pub expand_xcache : Option Xcache → (size : ℕ) → Option ℕ
expand_xcache old size =
    let size' : ℕ = elim old [
      | none ↦ (size + 127) / 128 * 128
      | some xcache ↦ max (xcache.maxsize * 2) size
    ] in
    if (size' == 0) || ltb 65535 size' then none else some size'

-- The cache after the call and, where it succeeded, by how much the references of the atom grew; `failed` is a
-- failed assert.
pub data Updated : Type 0 where
  failed enoattr eexist : Updated
  enomem : Option Xcache → Updated
  updated : Xcache → (used : ℕ) → Updated

-- The field `atom` of an entry has 16 bits.
abbrev pub put : (maxsize : ℕ) → List XcacheEntry → (atom : ℕ) (value : List ℕ) → Xcache
put maxsize xattrs atom value = record {
  maxsize = maxsize;
  xattrs = xattrs ++ record { atom = atom % 2 ^ 16; body = value } ∷ [];
}

-- the new entry in an expanded cache
abbrev pub insert_expanded :
    (no_memory : Bool) → Option Xcache → (atom : ℕ) (value : List ℕ) (used size : ℕ) → Updated
insert_expanded no_memory xcache atom value used size = elim (expand_xcache xcache size) [
  | none ↦ failed
  | some maxsize ↦
      if no_memory then enomem xcache else updated (put maxsize (xattrs_of xcache) atom value) used
]

-- the new entry in a cache with the space, or in an expanded one
unfoldable pub insert_new :
    (no_memory : Bool) → Option Xcache → (atom : ℕ) (value : List ℕ) (used : ℕ) → Updated
insert_new no_memory none atom value used =
    insert_expanded no_memory none atom value used (0 + (4 + length value))
insert_new no_memory (some xcache) atom value used =
    let size = size_of xcache.xattrs + (4 + length value) in
    if ltb xcache.maxsize size
    then insert_expanded no_memory (some xcache) atom value used size
    else updated (put xcache.maxsize xcache.xattrs atom value) used

abbrev pub without : Option Xcache → (atom : ℕ) → Option Xcache
without none atom = none
without (some xcache) atom = some (record xcache { xattrs = remove_old xcache.xattrs atom })

-- with the flags XATTR_CREATE and XATTR_REPLACE
unfoldable pub xcache_update :
    (create replace no_memory : Bool) → Option Xcache → (atom : ℕ) → (value : List ℕ) → Updated
xcache_update create replace no_memory xcache atom value =
    elim (xcache_lookup (xattrs_of xcache) atom) [
      | none ↦ if replace then enoattr else insert_new no_memory xcache atom value 1
      | some xattr ↦
          if create then eexist else insert_new no_memory (without xcache atom) atom value 0
    ]
