-- ===== src/Iattr.antt =====
-- kernel/iattr.c with kernel/iattr.h, and the encoding of extended attributes of kernel/xattr.c: the bytes
-- that an inode has in the inode table. The attributes of struct tux3_iattr_data, the root of the btree and
-- the entries of the xcache stand in one record, Inode; no xcache is one without entries and of size 0. The
-- device numbers are encoded outside of kernel/ (huge_encode_dev, huge_decode_dev), so these are parameters.
pub mod Time
pub mod Bytes
pub mod Fields
pub mod Loop
pub mod Took
pub mod RoundTrip
pub mod Stored
mod Tests
use tux3_fuse.Prelude.{
  ◌&&◌, ◌||◌, not, ℕ, zero, suc, ◌+◌, ◌-◌, ◌*◌, ◌/◌, ◌%◌, ◌^◌, Bool, true, false, Option, none,
  some, List, [], ◌∷◌, ◌++◌, ltb, leb, ◌==◌, if◌then◌else◌, length, take, drop, bit_or,
}
use tux3_fuse.Prelude.Digits.{test_digit}
use tux3_fuse.Codec.{◌>>=◌, encode16, encode32, encode64, decode16, decode32, decode64}

pub record Timespec : Type 0 where
  pub tv_sec : ℕ
  pub tv_nsec : ℕ

abbrev pub high32 : ℕ → ℕ
high32 val = val / 2 ^ 32 % 2 ^ 32

unfoldable pub billionths : ℕ → ℕ
billionths val = (val % 2 ^ 32 * 1000000000 + 2 ^ 31) % 2 ^ 64 / 2 ^ 32

unfoldable pub spectime : ℕ → Timespec
unfolding billionths
spectime time = record { tv_sec = high32 time; tv_nsec = billionths time }

unfoldable pub tuxtime : Timespec → ℕ
tuxtime ts =
    (ts.tv_sec * 2 ^ 32 % 2 ^ 64
      + (ts.tv_nsec * (2 ^ 63 / 1000000000) + 3 * 2 ^ 29) % 2 ^ 64 / 2 ^ 31)
    % 2 ^ 64

-- by the kind of the attribute; 0 for those that the table does not name
abbrev pub atsize : ℕ → ℕ
atsize kind =
    if kind == 0
    then 8
    else if kind == 1
    then 12
    else if kind == 2
    then 8
    else if kind == 3
    then 16
    else if kind == 4
    then 4
    else if kind == 5
    then 8
    else if kind == 11
    then 2
    else if kind == 12
    then 4
    else 0

pub record Root : Type 0 where
  pub depth : ℕ
  pub block : ℕ

abbrev pub no_root : Root
no_root = record { depth = 0; block = 0 }

abbrev pub pack_root : Root → ℕ
pack_root root = bit_or (root.depth * 2 ^ 48 % 2 ^ 64) root.block

abbrev pub unpack_root : ℕ → Root
unpack_root v = record { depth = v / 2 ^ 48; block = v % 2 ^ 48 }

-- `size` is the length of the body.
pub record XcacheEntry : Type 0 where
  pub atom : ℕ
  pub body : List ℕ

pub record Inode : Type 0 where
  pub present : ℕ
  pub i_mode : ℕ
  pub i_uid : ℕ
  pub i_gid : ℕ
  pub i_nlink : ℕ
  pub i_rdev : ℕ
  pub i_size : ℕ
  pub i_mtime : Timespec
  pub i_ctime : Timespec
  pub root : Root
  pub xcache : List XcacheEntry
  pub maxsize : ℕ

-- 0 up to VAR_ATTRS - 1
abbrev pub kinds : List ℕ
kinds = 0 ∷ 1 ∷ 2 ∷ 3 ∷ 4 ∷ 5 ∷ 6 ∷ 7 ∷ 8 ∷ 9 ∷ 10 ∷ []

abbrev pub asize_of : List ℕ → (bits : ℕ) → ℕ
asize_of [] bits = 0
asize_of (kind ∷ later) bits =
    (if test_digit bits kind then atsize kind + 2 else 0) + asize_of later bits

abbrev pub encode_asize : ℕ → ℕ
encode_asize bits = asize_of kinds bits

abbrev pub encode_kind : (kind version : ℕ) → List ℕ
encode_kind kind version = encode16 (bit_or (kind * 2 ^ 12) version)

abbrev pub encode_xsize_of : List XcacheEntry → ℕ
encode_xsize_of [] = 0
encode_xsize_of (xattr ∷ later) = 2 + atsize 12 + length xattr.body + encode_xsize_of later

module _ (encode_dev decode_dev : ℕ → ℕ) (version : ℕ) where
  -- the switch of encode_attrs
  unfoldable pub encode_attr : (kind : ℕ) → Inode → List ℕ
  encode_attr kind inode =
      if kind == 0
      then encode64 (encode_dev inode.i_rdev)
      else if kind == 1
      then encode32 inode.i_mode ++ (encode32 inode.i_uid ++ encode32 inode.i_gid)
      else if kind == 2
      then encode64 (pack_root inode.root)
      else if kind == 3
      then encode64 (tuxtime inode.i_ctime) ++ encode64 inode.i_size
      else if kind == 4
      then encode32 inode.i_nlink
      else if kind == 5
      then encode64 (tuxtime inode.i_mtime)
      else []

  -- The loop of encode_attrs: the bytes for these kinds behind `done` ones, of the `size` that there are.
  unfoldable pub encode_attrs : (size done : ℕ) → List ℕ → Inode → List ℕ
  encode_attrs size done [] inode = []
  encode_attrs size done (kind ∷ later) inode =
      let bytes = encode_kind kind version ++ encode_attr kind inode in
      let behind = encode_attrs size (done + length bytes) later inode in
      let skipped = encode_attrs size done later inode in
      if test_digit inode.present kind
      then if leb size (done + 3) then [] else bytes ++ behind
      else skipped

  -- The loop of encode_xattrs.
  unfoldable pub encode_xattrs : (size done : ℕ) → List XcacheEntry → List ℕ
  encode_xattrs size done [] = []
  encode_xattrs size done (xattr ∷ later) =
      let bytes =
        encode_kind 12 version
        ++ (encode16 (length xattr.body + 2) ++ (encode16 xattr.atom ++ xattr.body)) in
      let behind = encode_xattrs size (done + length bytes) later in
      if leb size (done + 3) then [] else bytes ++ behind

  unfoldable pub iattr_encoded_size : Inode → ℕ
  iattr_encoded_size inode = encode_asize inode.present + encode_xsize_of inode.xcache

  -- `none` is the failed assert.
  unfoldable pub iattr_encode : (size : ℕ) → Inode → Option (List ℕ)
  iattr_encode size inode =
      let attr = encode_attrs size 0 kinds inode in
      let bytes = attr ++ encode_xattrs (size - length attr) 0 inode.xcache in
      if length bytes == size then some bytes else none

  -- the kind and the version
  unfoldable pub decode_kind : List ℕ → Option (ℕ × (ℕ × List ℕ))
  decode_kind attrs = do
    (head, attrs') ← decode16 attrs
    some (head / 2 ^ 12, (head % 2 ^ 12, attrs'))

  -- the bytes of the xcache that are in use
  abbrev pub xcache_size : List XcacheEntry → ℕ
  xcache_size [] = 0
  xcache_size (xattr ∷ later) = 4 + length xattr.body + xcache_size later

  -- `none` is a failed assert, or a read past the end of the bytes.
  abbrev pub add_xattr : Inode → (atom size : ℕ) → List ℕ → Option (Inode × List ℕ)
  add_xattr inode atom size attrs =
      if ltb inode.maxsize (xcache_size inode.xcache + 4 + size)
      then none
      else if ltb (length attrs) size
      then none
      else some (
        record inode {
          xcache = inode.xcache ++ record { atom = atom; body = take size attrs } ∷ [];
        },
        drop size attrs,
      )

  unfoldable pub decode_xattr : Inode → List ℕ → Option (Inode × List ℕ)
  decode_xattr inode attrs = do
    (bytes, attrs') ← decode16 attrs
    (atom, attrs'') ← decode16 attrs'
    add_xattr inode atom ((bytes + 2 ^ 16 - 2) % 2 ^ 16) attrs''

  -- `present |= 1 << kind`
  abbrev pub mark : (kind : ℕ) → Inode → Inode
  mark kind inode = record inode { present = bit_or inode.present (2 ^ kind) }

  -- The switch of decode_attrs: `some none` is the default case, and the root is the local variable.
  unfoldable pub decode_attr :
      (kind : ℕ) → Root → Inode → List ℕ → Option (Option (Root × (Inode × List ℕ)))
  decode_attr kind root inode attrs =
      if kind == 0
      then (do
        (v, attrs') ← decode64 attrs
        some (some (root, (mark 0 (record inode { i_rdev = decode_dev v }), attrs'))))
      else if kind == 1
      then (do
        (mode, attrs') ← decode32 attrs
        (uid, attrs'') ← decode32 attrs'
        (gid, attrs''') ← decode32 attrs''
        some (
            some (
              root,
              (
                mark 1 (record inode { i_mode = mode % 2 ^ 16; i_uid = uid; i_gid = gid }),
                attrs''',
              ),
            )))
      else if kind == 2
      then (do (v, attrs') ← decode64 attrs; some (some (unpack_root v, (inode, attrs'))))
      else if kind == 3
      then (do
        (ctime, attrs') ← decode64 attrs
        (size, attrs'') ← decode64 attrs'
        some (
            some
              (root, (mark 3 (record inode { i_ctime = spectime ctime; i_size = size }), attrs''))))
      else if kind == 4
      then (do
        (nlink, attrs') ← decode32 attrs
        some (some (root, (mark 4 (record inode { i_nlink = nlink }), attrs'))))
      else if kind == 5
      then (do
        (v, attrs') ← decode64 attrs
        some (some (root, (mark 5 (record inode { i_mtime = spectime v }), attrs'))))
      else if kind == 12
      then (do
        (inode', attrs') ← decode_xattr inode attrs
        some (some (root, (mark 12 inode', attrs'))))
      else some none

  -- The loop of decode_attrs with the fuel for its rounds. The case of NULL leaves the root as it was; `none`
  -- is a failed assert or a read past the end.
  unfoldable pub decode_attrs : (fuel : ℕ) → Root → Inode → List ℕ → Option Inode
  decode_attrs fuel root inode [] = some (record inode { root = root })
  decode_attrs fuel root inode (byte ∷ []) = some (record inode { root = root })
  decode_attrs zero root inode attrs = none
  decode_attrs (suc fuel) root inode attrs = elim (decode_kind attrs) [
    | none ↦ none
    | some (kind, (version', attrs')) ↦
        let skipped = decode_attrs fuel root inode (drop (atsize kind) attrs') in
        if version' == version
        then elim (decode_attr kind root inode attrs') [
          | none ↦ none
          | some none ↦ some inode
          | some (some (root', (inode', attrs''))) ↦ decode_attrs fuel root' inode' attrs''
        ]
        else skipped
  ]

  -- The loop of decode_xsize, with the fuel for its rounds and the total so far.
  unfoldable pub decode_xsize : (fuel total : ℕ) → List ℕ → Option ℕ
  decode_xsize fuel total [] = some total
  decode_xsize fuel total (byte ∷ []) = some total
  decode_xsize zero total attrs = none
  decode_xsize (suc fuel) total attrs = elim (decode_kind attrs) [
    | none ↦ none
    | some (kind, (version', attrs')) ↦
        let fixed = decode_xsize fuel total (drop (atsize kind) attrs') in
        if kind == 11 || kind == 12
        then elim (decode16 attrs') [
          | none ↦ none
          | some (bytes, attrs'') ↦
              decode_xsize fuel (if version' == version then total + 4 + bytes - 2 else total)
                (drop bytes attrs'')
        ]
        else fixed
  ]

  -- `no_memory` is a failed malloc; `none` is a failed assert or a read past the end.
  unfoldable pub iattr_decode : (no_memory : Bool) → Inode → List ℕ → Option (Option Inode)
  iattr_decode no_memory inode attrs = elim (decode_xsize (length attrs) 0 attrs) [
    | none ↦ none
    | some xsize ↦
        let inode' =
          if xsize == 0 then inode else record inode { xcache = []; maxsize = xsize % 2 ^ 16 } in
        let decoded = decode_attrs (length attrs) no_root inode' attrs in
        if not (xsize == 0) && no_memory
        then some none
        else elim decoded [ none ↦ none | some inode'' ↦ some (some inode'') ]
  ]
