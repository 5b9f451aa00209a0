-- ===== src/Iattr/Tests.antt =====
-- An inode with every attribute and one extended attribute, and its bytes.
use tux3_fuse.Prelude.{
  ℕ, ◌^◌, ◌<◌, ◌≡◌, refl, false, some, List, [], ◌∷◌, arith, subst, sym, replicate,
}
use tux3_fuse.Codec.{decode16, decode32}
use tux3_fuse.Iattr.{
  Timespec, Inode, no_root, iattr_encoded_size, iattr_encode, iattr_decode, decode_attrs,
  decode_attr, decode_kind,
}
use tux3_fuse.Iattr.Bytes.{IsFit}
use tux3_fuse.Iattr.Took.{read_back}
use tux3_fuse.Ileaf.{Ileaf}
use tux3_fuse.Ileaf.Chunks.{IsLeaf}
use tux3_fuse.Ileaf.Access.{found, ileaf_write}
use tux3_fuse.Iattr.Stored.{iattr_ops, IsStored, ileaf_write-ileaf_read}
use tux3_fuse.Iattr.RoundTrip.{iattr_decode-iattr_encode}

abbrev time : Timespec
time = record { tv_sec = 1700000000; tv_nsec = 999999999 }

abbrev fresh : Inode
fresh = record {
  present = 0;
  i_mode = 0;
  i_uid = 0;
  i_gid = 0;
  i_nlink = 0;
  i_rdev = 0;
  i_size = 0;
  i_mtime = record { tv_sec = 0; tv_nsec = 0 };
  i_ctime = record { tv_sec = 0; tv_nsec = 0 };
  root = no_root;
  xcache = [];
  maxsize = 0;
}

abbrev file : Inode
file = record {
  present = 62;
  i_mode = 33188;
  i_uid = 1000;
  i_gid = 100;
  i_nlink = 1;
  i_rdev = 0;
  i_size = 4096;
  i_mtime = time;
  i_ctime = time;
  root = record { depth = 1; block = 77 };
  xcache = record { atom = 3; body = 120 ∷ 121 ∷ [] } ∷ [];
  maxsize = 6;
}

file-IsFit : IsFit file
file-IsFit = record {
  bits = refl;
  mode = omega arith;
  uid = omega arith;
  gid = omega arith;
  nlink = omega arith;
  rdev = omega arith;
  size = omega arith;
  mtime_sec = omega arith;
  mtime_nsec = omega arith;
  ctime_sec = omega arith;
  ctime_nsec = omega arith;
  depth = omega arith;
  block = omega arith;
}

abbrev same_dev : ℕ → ℕ
same_dev x = x

encoded_size : iattr_encoded_size same_dev same_dev 0 file ≡ 66
unfolding iattr_encoded_size
encoded_size = refl

-- An extended attribute of another version is passed over by the four bytes of the table: the rest of its body
-- is read as attributes.
other_version :
    decode_attrs same_dev same_dev 0 20 no_root fresh
      (192 ∷ 1 ∷ 0 ∷ 8 ∷ 0 ∷ 3 ∷ 64 ∷ 0 ∷ 0 ∷ 0 ∷ 0 ∷ 9 ∷ [])
    ≡ some (record fresh { present = 16; i_nlink = 9 })
unfolding decode_attrs decode_attr decode_kind decode16 decode32
other_version = refl

below : (x : ℕ) → x < 2 ^ 32 → same_dev x < 2 ^ 64
below x h = omega (arith, h)

back : (x : ℕ) → x < 2 ^ 32 → same_dev (same_dev x) ≡ x
back x h = refl

iattr_decode-iattr_encode_example :
    (bytes : List ℕ) × (iattr_encode same_dev same_dev 0
        (iattr_encoded_size same_dev same_dev 0 file)
        file
      ≡ some bytes)
    × (iattr_decode same_dev same_dev 0 false fresh bytes ≡ some (some (read_back file fresh 6)))
iattr_decode-iattr_encode_example =
    iattr_decode-iattr_encode same_dev same_dev 0 (omega arith) below back false file fresh
      file-IsFit (omega arith, omega arith, tt) (omega arith) refl

abbrev empty_table : Ileaf
empty_table = record { ibase = 8; dict = []; table = replicate 240 0 }

empty_table-IsLeaf : IsLeaf 256 empty_table []
empty_table-IsLeaf = record {
  pad = replicate 240 0;
  ends_at = refl;
  holds = refl;
  sized = refl;
  room = omega arith;
  word = omega arith;
}

ileaf_write-ileaf_read_example :
    IsStored
      (iattr_ops same_dev same_dev 0 false fresh)
      256
      11
      file
      (found (read_back file fresh 6))
      []
      empty_table
      (ileaf_write (iattr_ops same_dev same_dev 0 false fresh) 256 64 11 file empty_table)
ileaf_write-ileaf_read_example =
    ileaf_write-ileaf_read same_dev same_dev 0 (omega arith) below back 256 64 11 false file fresh
      empty_table [] file-IsFit (omega arith, omega arith, tt) (omega arith) refl
      (subst (λ (n : ℕ). 0 < n) (sym encoded_size) (omega arith)) empty_table-IsLeaf (omega arith)
