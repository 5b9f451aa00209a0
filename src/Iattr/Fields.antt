-- ===== src/Iattr/Fields.antt =====
-- kernel/iattr.c: what the decoder reads from the bytes of each kind of attribute.
use tux3_fuse.Prelude.{ℕ, ◌+◌, ◌*◌, ◌/◌, ◌%◌, ◌^◌, ◌<◌, ◌≡◌, refl, ap, some, List, ◌++◌, arith}
use mathlib.Core.List.{append_assoc}
use tux3_fuse.Prelude.Digits.{bit_or_fields}
use tux3_fuse.Codec.{encode32, encode64, decode16-encode16, decode32-encode32, decode64-encode64}
use tux3_fuse.Iattr.{
  Inode, Root, pack_root, unpack_root, tuxtime, encode_kind, encode_attr, decode_kind, decode_attr,
  mark,
}
use tux3_fuse.Iattr.Time.{spectime-tuxtime, tuxtime-lt}
use tux3_fuse.Iattr.Bytes.{IsFit}

pub decode_kind-encode_kind :
    (encode_dev decode_dev : ℕ → ℕ) (version kind : ℕ) (rest : List ℕ)
    → version < 2 ^ 12
    → kind < 2 ^ 4
    → decode_kind encode_dev decode_dev version (encode_kind kind version ++ rest)
      ≡ some (kind, (version, rest))
unfolding decode_kind
decode_kind-encode_kind encode_dev decode_dev version kind rest v k =
    let fields = bit_or_fields 12 kind version v in
    let head : kind * 2 ^ 12 + version < 2 ^ 16 = omega arith in
    let high : (kind * 2 ^ 12 + version) / 2 ^ 12 ≡ kind = omega arith in
    let low : (kind * 2 ^ 12 + version) % 2 ^ 12 ≡ version = omega arith in
    rw (fields, decode16-encode16 (kind * 2 ^ 12 + version) rest head, high, low) refl

unpack_root-pack_root :
    (root : Root) → root.depth < 2 ^ 16 → root.block < 2 ^ 48 → unpack_root (pack_root root) ≡ root
unpack_root-pack_root root d b =
    let whole : root.depth * 2 ^ 48 % 2 ^ 64 ≡ root.depth * 2 ^ 48 = omega arith in
    let high : (root.depth * 2 ^ 48 + root.block) / 2 ^ 48 ≡ root.depth = omega arith in
    let low : (root.depth * 2 ^ 48 + root.block) % 2 ^ 48 ≡ root.block = omega arith in
    rw (whole, bit_or_fields 48 root.depth root.block b, high, low) refl

pack_root-lt : (root : Root) → root.depth < 2 ^ 16 → root.block < 2 ^ 48 → pack_root root < 2 ^ 64
pack_root-lt root d b =
    let whole : root.depth * 2 ^ 48 % 2 ^ 64 ≡ root.depth * 2 ^ 48 = omega arith in
    rw (whole, bit_or_fields 48 root.depth root.block b) (omega arith)

module _ (encode_dev decode_dev : ℕ → ℕ) (version : ℕ) (narrow : version < 2 ^ 12)
    (word : (x : ℕ) → x < 2 ^ 32 → encode_dev x < 2 ^ 64)
    (device : (x : ℕ) → x < 2 ^ 32 → decode_dev (encode_dev x) ≡ x) where
  pub decode_rdev :
      (d i : Inode) (root : Root) (rest : List ℕ)
      → IsFit d
      → decode_attr encode_dev decode_dev version 0 root i
          (encode_attr encode_dev decode_dev version 0 d ++ rest)
        ≡ some (
            some
              (root, (mark encode_dev decode_dev version 0 (record i { i_rdev = d.i_rdev }), rest)))
  unfolding decode_attr encode_attr
  decode_rdev d i root rest h =
      rw
        (
          decode64-encode64 (encode_dev d.i_rdev) rest (word d.i_rdev h.rdev),
          device d.i_rdev h.rdev,
        )
        refl

  pub decode_mode_owner :
      (d i : Inode) (root : Root) (rest : List ℕ)
      → IsFit d
      → decode_attr encode_dev decode_dev version 1 root i
          (encode_attr encode_dev decode_dev version 1 d ++ rest)
        ≡ some (
            some (
              root,
              (
                mark encode_dev decode_dev version 1
                    (record i { i_mode = d.i_mode; i_uid = d.i_uid; i_gid = d.i_gid }),
                rest,
              ),
            ))
  unfolding decode_attr encode_attr
  decode_mode_owner d i root rest h =
      let small : d.i_mode % 2 ^ 16 ≡ d.i_mode = omega (arith, h.mode) in
      rw
        (
          append_assoc (encode32 d.i_mode) (encode32 d.i_uid ++ encode32 d.i_gid) rest,
          append_assoc (encode32 d.i_uid) (encode32 d.i_gid) rest,
          decode32-encode32 d.i_mode (encode32 d.i_uid ++ (encode32 d.i_gid ++ rest))
              (omega (arith, h.mode)),
          decode32-encode32 d.i_uid (encode32 d.i_gid ++ rest) h.uid,
          decode32-encode32 d.i_gid rest h.gid,
          small,
        )
        refl

  pub decode_data_btree :
      (d i : Inode) (root : Root) (rest : List ℕ)
      → IsFit d
      → decode_attr encode_dev decode_dev version 2 root i
          (encode_attr encode_dev decode_dev version 2 d ++ rest)
        ≡ some (some (d.root, (i, rest)))
  unfolding decode_attr encode_attr
  decode_data_btree d i root rest h =
      rw (decode64-encode64 (pack_root d.root) rest (pack_root-lt d.root h.depth h.block)) (
        ap (λ (r : Root). some (some (r, (i, rest))))
          (unpack_root-pack_root d.root h.depth h.block))

  pub decode_ctime_size :
      (d i : Inode) (root : Root) (rest : List ℕ)
      → IsFit d
      → decode_attr encode_dev decode_dev version 3 root i
          (encode_attr encode_dev decode_dev version 3 d ++ rest)
        ≡ some (
            some (
              root,
              (
                mark encode_dev decode_dev version 3
                    (record i { i_ctime = d.i_ctime; i_size = d.i_size }),
                rest,
              ),
            ))
  unfolding decode_attr encode_attr
  decode_ctime_size d i root rest h =
      rw
        (
          append_assoc (encode64 (tuxtime d.i_ctime)) (encode64 d.i_size) rest,
          decode64-encode64 (tuxtime d.i_ctime) (encode64 d.i_size ++ rest)
              (tuxtime-lt d.i_ctime h.ctime_sec h.ctime_nsec),
          decode64-encode64 d.i_size rest h.size,
          spectime-tuxtime d.i_ctime h.ctime_sec h.ctime_nsec,
        )
        refl

  pub decode_link_count :
      (d i : Inode) (root : Root) (rest : List ℕ)
      → IsFit d
      → decode_attr encode_dev decode_dev version 4 root i
          (encode_attr encode_dev decode_dev version 4 d ++ rest)
        ≡ some (
            some (
              root,
              (mark encode_dev decode_dev version 4 (record i { i_nlink = d.i_nlink }), rest),
            ))
  unfolding decode_attr encode_attr
  decode_link_count d i root rest h = rw (decode32-encode32 d.i_nlink rest h.nlink) refl

  pub decode_mtime :
      (d i : Inode) (root : Root) (rest : List ℕ)
      → IsFit d
      → decode_attr encode_dev decode_dev version 5 root i
          (encode_attr encode_dev decode_dev version 5 d ++ rest)
        ≡ some (
            some (
              root,
              (mark encode_dev decode_dev version 5 (record i { i_mtime = d.i_mtime }), rest),
            ))
  unfolding decode_attr encode_attr
  decode_mtime d i root rest h =
      rw
        (
          decode64-encode64 (tuxtime d.i_mtime) rest
              (tuxtime-lt d.i_mtime h.mtime_sec h.mtime_nsec),
          spectime-tuxtime d.i_mtime h.mtime_sec h.mtime_nsec,
        )
        refl
