-- ===== src/Iattr/Took.antt =====
-- kernel/iattr.c: what the loop of the decoder leaves of an inode, kind by kind.
use tux3_fuse.Prelude.{
  ℕ, zero, suc, ◌+◌, ◌^◌, ◌≤◌, ◌<◌, ◌≡◌, refl, subst, sym, Bool, true, false, Bool-cases, inl, inr,
  some, List, [], ◌∷◌, ◌++◌, ◌==◌, if◌then◌else◌, length, length-append, bit_or, arith,
}
use mathlib.Core.List.{append_assoc, append-nil}
use tux3_fuse.Prelude.Digits.{test_digit}
use tux3_fuse.Codec.{encode16}
use tux3_fuse.Iattr.{
  Inode, Root, XcacheEntry, no_root, encode_kind, encode_attr, decode_attr, xcache_size, mark,
}
use tux3_fuse.Iattr.Bytes.{AreKinds, IsFit, attr_bytes, all_attr_bytes, all_xattr_bytes}
use tux3_fuse.Iattr.Fields.{
  decode_rdev, decode_mode_owner, decode_data_btree, decode_ctime_size, decode_link_count,
  decode_mtime,
}
use tux3_fuse.Iattr.Loop.{AreXattrs, Runs, Runs-end, Runs-step, decode_attr-xattr}

-- the bit of a kind, where the kind is in `bits`
abbrev pub marked : (bits kind present : ℕ) → ℕ
marked bits kind present = if test_digit bits kind then bit_or present (2 ^ kind) else present

-- the bit of extended attributes, for each of them
abbrev pub xattr_marks : List XcacheEntry → ℕ → ℕ
xattr_marks [] present = present
xattr_marks (x ∷ xs) present = xattr_marks xs (bit_or present (2 ^ 12))

-- What a read of the bytes of `d` leaves of the inode `i`: the attributes that `d` has, and those of `i` for
-- the rest.
abbrev pub read_back : (d i : Inode) → (maxsize : ℕ) → Inode
read_back d i maxsize =
    let has = test_digit d.present in
    record {
      present = xattr_marks d.xcache (
          marked d.present 5 (
            marked d.present 4
              (marked d.present 3 (marked d.present 1 (marked d.present 0 i.present)))));
      i_mode = if has 1 then d.i_mode else i.i_mode;
      i_uid = if has 1 then d.i_uid else i.i_uid;
      i_gid = if has 1 then d.i_gid else i.i_gid;
      i_nlink = if has 4 then d.i_nlink else i.i_nlink;
      i_rdev = if has 0 then d.i_rdev else i.i_rdev;
      i_size = if has 3 then d.i_size else i.i_size;
      i_mtime = if has 5 then d.i_mtime else i.i_mtime;
      i_ctime = if has 3 then d.i_ctime else i.i_ctime;
      root = if has 2 then d.root else no_root;
      xcache = d.xcache;
      maxsize = maxsize;
    }

-- the inode and the root after one kind, if it `is` there
abbrev took_inode : (is : Bool) → ℕ → Inode → Inode → Inode
took_inode is zero d i = record i {
  present = if is then bit_or i.present (2 ^ 0) else i.present;
  i_rdev = if is then d.i_rdev else i.i_rdev;
}
took_inode is (suc zero) d i = record i {
  present = if is then bit_or i.present (2 ^ 1) else i.present;
  i_mode = if is then d.i_mode else i.i_mode;
  i_uid = if is then d.i_uid else i.i_uid;
  i_gid = if is then d.i_gid else i.i_gid;
}
took_inode is (suc (suc zero)) d i = i
took_inode is (suc (suc (suc zero))) d i = record i {
  present = if is then bit_or i.present (2 ^ 3) else i.present;
  i_ctime = if is then d.i_ctime else i.i_ctime;
  i_size = if is then d.i_size else i.i_size;
}
took_inode is (suc (suc (suc (suc zero)))) d i = record i {
  present = if is then bit_or i.present (2 ^ 4) else i.present;
  i_nlink = if is then d.i_nlink else i.i_nlink;
}
took_inode is (suc (suc (suc (suc (suc zero))))) d i = record i {
  present = if is then bit_or i.present (2 ^ 5) else i.present;
  i_mtime = if is then d.i_mtime else i.i_mtime;
}
took_inode is (suc (suc (suc (suc (suc (suc kind)))))) d i = i

abbrev took_root : (is : Bool) → ℕ → Inode → Root → Root
took_root is kind d root = if kind == 2 then (if is then d.root else root) else root

took_inode-false : (kind : ℕ) (d i : Inode) → took_inode false kind d i ≡ i
took_inode-false zero d i = refl
took_inode-false (suc zero) d i = refl
took_inode-false (suc (suc zero)) d i = refl
took_inode-false (suc (suc (suc zero))) d i = refl
took_inode-false (suc (suc (suc (suc zero)))) d i = refl
took_inode-false (suc (suc (suc (suc (suc zero))))) d i = refl
took_inode-false (suc (suc (suc (suc (suc (suc kind)))))) d i = refl

took_root-false : (kind : ℕ) (d : Inode) (root : Root) → took_root false kind d root ≡ root
took_root-false kind d root = elim (Bool-cases (kind == 2)) [
  | inl e ↦ rw e refl
  | inr e ↦ rw e refl
]

abbrev pub all_inode : List ℕ → (d i : Inode) → Inode
all_inode [] d i = i
all_inode (kind ∷ ks) d i = all_inode ks d (took_inode (test_digit d.present kind) kind d i)

abbrev pub all_root : List ℕ → (d : Inode) → Root → Root
all_root [] d root = root
all_root (kind ∷ ks) d root = all_root ks d (took_root (test_digit d.present kind) kind d root)

module _ (encode_dev decode_dev : ℕ → ℕ) (version : ℕ) (narrow : version < 2 ^ 12)
    (word : (x : ℕ) → x < 2 ^ 32 → encode_dev x < 2 ^ 64)
    (device : (x : ℕ) → x < 2 ^ 32 → decode_dev (encode_dev x) ≡ x) where
  decode_attr-took :
      (kind : ℕ) (d i : Inode) (root : Root) (rest : List ℕ)
      → IsFit d
      → kind < 6
      → decode_attr encode_dev decode_dev version kind root i
          (encode_attr encode_dev decode_dev version kind d ++ rest)
        ≡ some (some (took_root true kind d root, (took_inode true kind d i, rest)))
  decode_attr-took zero d i root rest h k =
      decode_rdev encode_dev decode_dev version narrow word device d i root rest h
  decode_attr-took (suc zero) d i root rest h k =
      decode_mode_owner encode_dev decode_dev version narrow word device d i root rest h
  decode_attr-took (suc (suc zero)) d i root rest h k =
      decode_data_btree encode_dev decode_dev version narrow word device d i root rest h
  decode_attr-took (suc (suc (suc zero))) d i root rest h k =
      decode_ctime_size encode_dev decode_dev version narrow word device d i root rest h
  decode_attr-took (suc (suc (suc (suc zero)))) d i root rest h k =
      decode_link_count encode_dev decode_dev version narrow word device d i root rest h
  decode_attr-took (suc (suc (suc (suc (suc zero))))) d i root rest h k =
      decode_mtime encode_dev decode_dev version narrow word device d i root rest h
  decode_attr-took (suc (suc (suc (suc (suc (suc kind)))))) d i root rest h k = absurd (omega arith)

  pub Runs-attrs :
      (ks : List ℕ) (d i result : Inode) (root : Root) (rest : List ℕ)
      → IsFit d
      → AreKinds ks d.present
      → Runs encode_dev decode_dev version narrow
          (all_root ks d root)
          (all_inode ks d i)
          rest
          result
      → Runs encode_dev decode_dev version narrow root i
          (all_attr_bytes encode_dev decode_dev version ks d ++ rest)
          result
  Runs-attrs [] d i result root rest h s later = later
  Runs-attrs (kind ∷ ks) d i result root rest h s later =
      let (low, supported, more) = s in
      let behind = all_attr_bytes encode_dev decode_dev version ks d ++ rest in
      let body = encode_attr encode_dev decode_dev version kind d in
      elim (Bool-cases (test_digit d.present kind)) [
        | inl set ↦
            let later' : Runs encode_dev decode_dev version narrow
                (all_root ks d (took_root true kind d root))
                (all_inode ks d (took_inode true kind d i)) rest result =
              subst
                (λ (t : Bool).
                  Runs encode_dev decode_dev version narrow
                    (all_root ks d (took_root t kind d root))
                    (all_inode ks d (took_inode t kind d i)) rest result)
                set later in
            let next =
              Runs-attrs ks d (took_inode true kind d i) result (took_root true kind d root) rest h
                more later' in
            let here =
              Runs-step encode_dev decode_dev version narrow kind root (took_root true kind d root)
                i (took_inode true kind d i) result (body ++ behind) behind (omega arith)
                (decode_attr-took kind d i root behind h (supported set))
                (omega (arith, length-append body behind)) next in
            rw
              (
                set,
                append_assoc (attr_bytes encode_dev decode_dev version kind d)
                    (all_attr_bytes encode_dev decode_dev version ks d) rest,
                append_assoc (encode_kind kind version) body behind,
              )
              here
        | inr clear ↦
            let later' : Runs encode_dev decode_dev version narrow
                (all_root ks d (took_root false kind d root))
                (all_inode ks d (took_inode false kind d i)) rest result =
              subst
                (λ (t : Bool).
                  Runs encode_dev decode_dev version narrow
                    (all_root ks d (took_root t kind d root))
                    (all_inode ks d (took_inode t kind d i)) rest result)
                clear later in
            let same : Runs encode_dev decode_dev version narrow (all_root ks d root)
                (all_inode ks d i) rest result =
              subst
                (λ (r : Root).
                  Runs encode_dev decode_dev version narrow (all_root ks d r) (all_inode ks d i)
                    rest result)
                (took_root-false kind d root)
                (subst
                  (λ (j : Inode).
                    Runs encode_dev decode_dev version narrow
                      (all_root ks d (took_root false kind d root)) (all_inode ks d j) rest result)
                  (took_inode-false kind d i) later') in
            rw clear (Runs-attrs ks d i result root rest h more same)
      ]

  shorter :
      (x : XcacheEntry) (rest : List ℕ)
      → length rest ≤ length (encode16 (length x.body + 2) ++ (encode16 x.atom ++ (x.body ++ rest)))
  unfolding encode16
  shorter x rest = omega (arith, length-append x.body rest)

  xcache_size-append :
      (xs : List XcacheEntry) (x : XcacheEntry)
      → xcache_size encode_dev decode_dev version (xs ++ x ∷ [])
        ≡ xcache_size encode_dev decode_dev version xs + 4 + length x.body
  xcache_size-append [] x = omega arith
  xcache_size-append (y ∷ xs) x = omega (arith, xcache_size-append xs x)

  pub Runs-xattrs :
      (root : Root) (i : Inode) (xs : List XcacheEntry)
      → AreXattrs xs
      → xcache_size encode_dev decode_dev version i.xcache
          + xcache_size encode_dev decode_dev version xs
        ≤ i.maxsize
      → Runs encode_dev decode_dev version narrow root i
          (all_xattr_bytes encode_dev decode_dev version xs)
          (record i { present = xattr_marks xs i.present; xcache = i.xcache ++ xs; root = root })
  unfolding encode16
  Runs-xattrs root i [] h room =
      subst
        (λ (l : List XcacheEntry).
          Runs encode_dev decode_dev version narrow root i []
            (record i { xcache = l; root = root }))
        (sym (append-nil i.xcache)) (Runs-end encode_dev decode_dev version narrow root i)
  Runs-xattrs root i (x ∷ xs) h room =
      let (a, small, more) = h in
      let i' = mark encode_dev decode_dev version 12 (record i { xcache = i.xcache ++ x ∷ [] }) in
      let rest = all_xattr_bytes encode_dev decode_dev version xs in
      let body = encode16 (length x.body + 2) ++ (encode16 x.atom ++ (x.body ++ rest)) in
      let later =
        Runs-xattrs root i' xs more (omega (arith, room, xcache_size-append i.xcache x)) in
      let joined =
        subst
          (λ (l : List XcacheEntry).
            Runs encode_dev decode_dev version narrow root i' rest (record i {
              present = xattr_marks xs (bit_or i.present (2 ^ 12));
              xcache = l;
              root = root;
            }))
          (append_assoc i.xcache (x ∷ []) xs) later in
      Runs-step encode_dev decode_dev version narrow 12 root root i i' _ body rest (omega arith)
        (decode_attr-xattr encode_dev decode_dev version narrow root i x rest a small
          (omega (arith, room)))
        (shorter x rest) joined
