-- ===== src/Iattr/Stored.antt =====
-- kernel/iattr.c as the interface of kernel/ileaf.c: the attributes of an inode in a leaf of the inode table.
use tux3_fuse.Prelude.{
  ℕ, ◌+◌, ◌-◌, ◌^◌, ◌≤◌, ◌<◌, ◌≡◌, ◌≢◌, refl, ap, ◌∙◌, Bool, true, false, not, ◌&&◌, Option, none,
  some, List, [], ◌==◌, if◌then◌else◌, length, arith,
}
use tux3_fuse.Iattr.{Inode, xcache_size, iattr_encode, iattr_decode, iattr_encoded_size}
use tux3_fuse.Iattr.Bytes.{IsFit}
use tux3_fuse.Iattr.Loop.{AreXattrs}
use tux3_fuse.Iattr.Took.{read_back}
use tux3_fuse.Iattr.RoundTrip.{iattr_decode-iattr_encode}
use tux3_fuse.Ileaf.{Ileaf}
use tux3_fuse.Ileaf.Chunks.{IsLeaf, attrs}
use tux3_fuse.Ileaf.Resize.{wanted}
use tux3_fuse.Ileaf.Access.{
  AttrOps, Written, failed, need_split, written, Read, decode_error, found, decoded, WriteAnswer,
  ileaf_read, ileaf_write, ileaf_write-read,
}

-- what a write of an inode to a leaf leaves, where `answer` is the read of it
abbrev pub IsStored :
    (ops : AttrOps Inode) (blocksize inum : ℕ) (d : Inode) (answer : Read Inode)
    → List (List ℕ)
    → Ileaf
    → Written
    → Type 0
IsStored ops blocksize inum d answer cs leaf failed = ⊥
IsStored ops blocksize inum d answer cs leaf (need_split hint) =
    blocksize + length (attrs cs (inum - leaf.ibase))
    < wanted cs (inum - leaf.ibase) (ops.encoded_size d)
IsStored ops blocksize inum d answer cs leaf (written leaf') =
    (leaf'.ibase ≡ leaf.ibase)
    × ((cs' : List (List ℕ)) × IsLeaf blocksize leaf' cs')
    × (ileaf_read ops inum leaf' ≡ answer)
    × ((other : ℕ)
        → leaf.ibase ≤ other
        → other ≢ inum
        → ileaf_read ops other leaf' ≡ ileaf_read ops other leaf)

module _ (encode_dev decode_dev : ℕ → ℕ) (version : ℕ) where
  -- The operations on the attributes of inodes, for reads into the inode `fresh`. A failed assert of the encoder
  -- leaves no bytes, and the decoder's errors are one.
  abbrev pub iattr_ops : (no_memory : Bool) (fresh : Inode) → AttrOps Inode
  iattr_ops no_memory fresh = record {
    encoded_size = iattr_encoded_size encode_dev decode_dev version;
    encode = λ d.
        elim (iattr_encode encode_dev decode_dev version
          (iattr_encoded_size encode_dev decode_dev version d) d) [
            | none ↦ []
            | some bytes ↦ bytes
          ];
    decode = λ bytes. elim (iattr_decode encode_dev decode_dev version no_memory fresh bytes) [
      | none ↦ none
      | some answer ↦ answer
    ];
  }

  length-iattr_encode :
      (size : ℕ) (d : Inode) (bytes : List ℕ)
      → iattr_encode encode_dev decode_dev version size d ≡ some bytes
      → length bytes ≡ size
  unfolding iattr_encode
  length-iattr_encode size d bytes e = ground (arith, e)

  module _ (narrow : version < 2 ^ 12) (word : (x : ℕ) → x < 2 ^ 32 → encode_dev x < 2 ^ 64)
      (device : (x : ℕ) → x < 2 ^ 32 → decode_dev (encode_dev x) ≡ x) where
    -- A write of an inode whose fields fit, with one attribute at least and extended attributes of less than
    -- 2^16 bytes, to a leaf with its base not above the number of the inode, asks for a split only when the
    -- block has no room for the attributes. Otherwise a read of the leaf that it leaves, into an inode without
    -- extended attributes, gives the attributes that are marked as present, to the nanosecond, with the extended
    -- attributes, or the error of the decoder when there are extended attributes and no memory for them; and
    -- every other inode reads as before. No assert fails. The version has 12 bits, and the codes of device
    -- numbers are of 64 bits and can be decoded.
    pub ileaf_write-ileaf_read :
        (blocksize entries_per_leaf inum : ℕ) (no_memory : Bool) (d fresh : Inode) (leaf : Ileaf)
        (cs : List (List ℕ))
        → IsFit d
        → AreXattrs d.xcache
        → xcache_size encode_dev decode_dev version d.xcache < 2 ^ 16
        → fresh.xcache ≡ []
        → 0 < iattr_encoded_size encode_dev decode_dev version d
        → IsLeaf blocksize leaf cs
        → leaf.ibase ≤ inum
        → let used = xcache_size encode_dev decode_dev version d.xcache in
          IsStored
            (iattr_ops no_memory fresh)
            blocksize
            inum
            d
            (if not (used == 0) && no_memory
              then decode_error
              else found (read_back d fresh (if used == 0 then fresh.maxsize else used)))
            cs
            leaf
            (ileaf_write (iattr_ops no_memory fresh) blocksize entries_per_leaf inum d leaf)
    ileaf_write-ileaf_read blocksize entries inum no_memory d fresh leaf cs fit xs small plain
          some_byte r low =
        let used = xcache_size encode_dev decode_dev version d.xcache in
        let ops = iattr_ops no_memory fresh in
        let (bytes, e, e') =
          iattr_decode-iattr_encode encode_dev decode_dev version narrow word device no_memory d
            fresh fit xs small plain in
        let encoded : ops.encode d ≡ bytes =
          ap (λ (o : Option (List ℕ)). elim o as (λ _. List ℕ) [ none ↦ [] | some b ↦ b ]) e in
        let size : length (ops.encode d) ≡ ops.encoded_size d =
          ap length encoded
          ∙ length-iattr_encode (iattr_encoded_size encode_dev decode_dev version d) d bytes e in
        let back : decoded ops (ops.decode (ops.encode d)) ≡ (
            if not (used == 0) && no_memory
            then decode_error
            else found (read_back d fresh (if used == 0 then fresh.maxsize else used))) =
          ap (λ (b : List ℕ). decoded ops (ops.decode b)) encoded
          ∙ ap
              (λ (o : Option (Option Inode)).
                decoded ops (elim o as (λ _. Option Inode) [ none ↦ none | some answer ↦ answer ]))
              e'
          ∙ by_memory (not (used == 0) && no_memory) _ in
        reads (ileaf_write ops blocksize entries inum d leaf) back
          (ileaf_write-read ops blocksize entries inum d leaf cs size some_byte r low)
      where
        by_memory :
            (b : Bool) (i : Inode)
            → decoded
                (iattr_ops no_memory fresh)
                (elim (if b then some none else some (some i)) as (λ _. Option Inode) [
                  | none ↦ none
                  | some answer ↦ answer
                ])
              ≡ (if b then decode_error else found i)
        by_memory true i = refl
        by_memory false i = refl

        reads :
            {answer : Read Inode} (w : Written)
            → decoded
                (iattr_ops no_memory fresh)
                ((iattr_ops no_memory fresh).decode ((iattr_ops no_memory fresh).encode d))
              ≡ answer
            → WriteAnswer (iattr_ops no_memory fresh) blocksize inum d cs leaf w
            → IsStored (iattr_ops no_memory fresh) blocksize inum d answer cs leaf w
        reads failed back h = h
        reads (need_split hint) back h = h
        reads (written leaf') back h =
            let (base, holds, here, others) = h in (base, holds, here ∙ back, others)
