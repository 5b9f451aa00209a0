-- ===== src/Iattr/RoundTrip.antt =====
-- kernel/iattr.c: an inode comes back from its bytes.
use tux3_fuse.Prelude.{
  ℕ, ◌+◌, ◌%◌, ◌^◌, ◌≤◌, ◌<◌, ◌≡◌, refl, ap, subst, ◌∙◌, Bool, not, ◌&&◌, Bool-cases, inl, inr,
  Option, none, some, List, [], ◌++◌, ◌==◌, if◌then◌else◌, length, arith,
}
use tux3_fuse.Iattr.{
  Inode, XcacheEntry, kinds, no_root, decode_attrs, xcache_size, iattr_encode, iattr_decode,
  iattr_encoded_size,
}
use tux3_fuse.Iattr.Bytes.{IsFit, kinds-AreKinds, all_xattr_bytes, inode_bytes, iattr_encode-bytes}
use tux3_fuse.Iattr.Loop.{AreXattrs, Runs, SizeRuns, SizeRuns-attrs, SizeRuns-xattrs}
use tux3_fuse.Iattr.Took.{read_back, all_inode, all_root, Runs-attrs, Runs-xattrs}

module _ (encode_dev decode_dev : ℕ → ℕ) (version : ℕ) (narrow : version < 2 ^ 12)
    (word : (x : ℕ) → x < 2 ^ 32 → encode_dev x < 2 ^ 64)
    (device : (x : ℕ) → x < 2 ^ 32 → decode_dev (encode_dev x) ≡ x) where
  SizeRuns-all :
      (d : Inode)
      → IsFit d
      → AreXattrs d.xcache
      → SizeRuns encode_dev decode_dev version narrow 0
          (inode_bytes encode_dev decode_dev version d)
          (xcache_size encode_dev decode_dev version d.xcache)
  SizeRuns-all d h xs =
      let used = xcache_size encode_dev decode_dev version d.xcache in
      let whole : 0 + used ≡ used = omega arith in
      SizeRuns-attrs encode_dev decode_dev version narrow 0 used kinds d _
        (kinds-AreKinds d.present h.bits)
        (subst
          (λ (n : ℕ).
            SizeRuns encode_dev decode_dev version narrow 0
              (all_xattr_bytes encode_dev decode_dev version d.xcache) n)
          whole (SizeRuns-xattrs encode_dev decode_dev version narrow 0 d.xcache xs))

  Runs-all :
      (d i : Inode)
      → IsFit d
      → AreXattrs d.xcache
      → i.xcache ≡ []
      → xcache_size encode_dev decode_dev version d.xcache ≤ i.maxsize
      → Runs encode_dev decode_dev version narrow no_root i
          (inode_bytes encode_dev decode_dev version d)
          (read_back d i i.maxsize)
  Runs-all d i h xs e room =
      Runs-attrs encode_dev decode_dev version narrow word device kinds d i
        (read_back d i i.maxsize) no_root _ h (kinds-AreKinds d.present h.bits)
        (subst
          (λ (l : List XcacheEntry).
            Runs encode_dev decode_dev version narrow (all_root kinds d no_root)
              (all_inode kinds d i) (all_xattr_bytes encode_dev decode_dev version d.xcache)
              (record (read_back d i i.maxsize) { xcache = l ++ d.xcache }))
          e
          (Runs-xattrs encode_dev decode_dev version narrow word device (all_root kinds d no_root)
            (all_inode kinds d i) d.xcache xs
            (omega (
              arith,
              room,
              ap (λ (l : List XcacheEntry). xcache_size encode_dev decode_dev version l) e,
            ))))

  -- the answer by the size of the extended attributes and what the attributes decode to
  abbrev answer : (no_memory : Bool) (i : Inode) (attrs : List ℕ) → Option ℕ → Option (Option Inode)
  answer no_memory i attrs none = none
  answer no_memory i attrs (some xsize) =
      let i' = if xsize == 0 then i else record i { xcache = []; maxsize = xsize % 2 ^ 16 } in
      if not (xsize == 0) && no_memory
      then some none
      else elim (decode_attrs encode_dev decode_dev version (length attrs) no_root i' attrs) [
        | none ↦ none
        | some i'' ↦ some (some i'')
      ]

  answer_lem :
      (no_memory : Bool) (d i : Inode)
      → IsFit d
      → AreXattrs d.xcache
      → xcache_size encode_dev decode_dev version d.xcache < 2 ^ 16
      → i.xcache ≡ []
      → let used = xcache_size encode_dev decode_dev version d.xcache in
        answer no_memory i (inode_bytes encode_dev decode_dev version d) (some used) ≡ (
          if not (used == 0) && no_memory
          then some none
          else some (some (read_back d i (if used == 0 then i.maxsize else used))))
  answer_lem no_memory d i h xs small e =
      let bytes = inode_bytes encode_dev decode_dev version d in
      let used = xcache_size encode_dev decode_dev version d.xcache in
      let narrow_size : used % 2 ^ 16 ≡ used = omega (arith, small) in
      elim (Bool-cases (used == 0)) [
        | inl empty ↦
            rw (empty, Runs-all d i h xs e (ground (arith, empty)) (length bytes) (omega arith))
              refl
        | inr some_used ↦ elim (Bool-cases no_memory) [
          | inl failing ↦ rw (some_used, failing) refl
          | inr memory ↦
              rw
                (
                  some_used,
                  memory,
                  narrow_size,
                  Runs-all d (record i { xcache = []; maxsize = used }) h xs refl (omega arith)
                      (length bytes) (omega arith),
                )
                refl
        ]
      ]

  -- The bytes that the encoder writes for an inode whose fields fit are as many as it announces. Read into an
  -- inode without extended attributes they give the attributes that are marked as present, to the nanosecond,
  -- and the extended attributes; or the read fails, when there are extended attributes and no memory for them.
  pub iattr_decode-iattr_encode :
      (no_memory : Bool) (d i : Inode)
      → IsFit d
      → AreXattrs d.xcache
      → xcache_size encode_dev decode_dev version d.xcache < 2 ^ 16
      → i.xcache ≡ []
      → let used = xcache_size encode_dev decode_dev version d.xcache in
        let size = iattr_encoded_size encode_dev decode_dev version d in
        (bytes : List ℕ) × (iattr_encode encode_dev decode_dev version size d ≡ some bytes)
        × (iattr_decode encode_dev decode_dev version no_memory i bytes ≡ (
            if not (used == 0) && no_memory
            then some none
            else some (some (read_back d i (if used == 0 then i.maxsize else used)))))
  unfolding iattr_decode
  iattr_decode-iattr_encode no_memory d i h xs small e =
      let bytes = inode_bytes encode_dev decode_dev version d in
      let used = xcache_size encode_dev decode_dev version d.xcache in
      let sized = SizeRuns-all d h xs (length bytes) (omega arith) in
      (
        bytes,
        iattr_encode-bytes encode_dev decode_dev version d h,
        ap (answer no_memory i bytes) sized ∙ answer_lem no_memory d i h xs small e,
      )
