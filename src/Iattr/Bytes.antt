-- ===== src/Iattr/Bytes.antt =====
-- kernel/iattr.c and kernel/xattr.c: the bytes that the encoder writes, and that there are as many as announced.
use tux3_fuse.Prelude.{
  subst, ℕ, zero, suc, ◌+◌, ◌-◌, ◌/◌, ◌%◌, ◌^◌, ◌≤◌, ◌<◌, ◌≡◌, refl, ap, ap₂, ◌∙◌, Bool, true,
  false, Bool-cases, inl, inr, Option, none, some, List, [], ◌∷◌, ◌++◌, leb, ◌==◌, if◌then◌else◌,
  length, length-append, arith,
}
use tux3_fuse.Prelude.Digits.{test_digit}
use tux3_fuse.Codec.{encode16, encode32, encode64}
use tux3_fuse.Iattr.{
  Inode, XcacheEntry, atsize, kinds, asize_of, encode_asize, encode_kind, encode_xsize_of,
  encode_attr, encode_attrs, encode_xattrs, iattr_encoded_size, iattr_encode,
}

-- What the fields of an inode hold: values of the widths that they are stored in, times that fit the fixed
-- point, and no bits of kinds that are reserved.
pub record IsFit (inode : Inode) : Type 0 where
  pub bits : inode.present / 2 ^ 6 % 2 ^ 5 ≡ 0
  pub mode : inode.i_mode < 2 ^ 16
  pub uid : inode.i_uid < 2 ^ 32
  pub gid : inode.i_gid < 2 ^ 32
  pub nlink : inode.i_nlink < 2 ^ 32
  pub rdev : inode.i_rdev < 2 ^ 32
  pub size : inode.i_size < 2 ^ 64
  pub mtime_sec : inode.i_mtime.tv_sec < 2 ^ 32
  pub mtime_nsec : inode.i_mtime.tv_nsec < 1000000000
  pub ctime_sec : inode.i_ctime.tv_sec < 2 ^ 32
  pub ctime_nsec : inode.i_ctime.tv_nsec < 1000000000
  pub depth : inode.root.depth < 2 ^ 16
  pub block : inode.root.block < 2 ^ 48

-- kinds below 11, of which those in `bits` are below 6
abbrev pub AreKinds : List ℕ → (bits : ℕ) → Type 0
AreKinds [] bits = Unit {0}
AreKinds (kind ∷ later) bits =
    (kind < 11) × (test_digit bits kind ≡ true → kind < 6) × AreKinds later bits

pub kinds-AreKinds : (bits : ℕ) → bits / 2 ^ 6 % 2 ^ 5 ≡ 0 → AreKinds kinds bits
kinds-AreKinds bits h = (
  omega arith,
  λ e. omega arith,
  (
    omega arith,
    λ e. omega arith,
    (
      omega arith,
      λ e. omega arith,
      (
        omega arith,
        λ e. omega arith,
        (
          omega arith,
          λ e. omega arith,
          (
            omega arith,
            λ e. omega arith,
            (
              omega arith,
              λ e. absurd (ground (arith, h, e)),
              (
                omega arith,
                λ e. absurd (ground (arith, h, e)),
                (
                  omega arith,
                  λ e. absurd (ground (arith, h, e)),
                  (
                    omega arith,
                    λ e. absurd (ground (arith, h, e)),
                    (omega arith, λ e. absurd (ground (arith, h, e)), tt),
                  ),
                ),
              ),
            ),
          ),
        ),
      ),
    ),
  ),
)

module _ (encode_dev : ℕ → ℕ) (decode_dev : ℕ → ℕ) (version : ℕ) where
  abbrev pub attr_bytes : (kind : ℕ) → Inode → List ℕ
  attr_bytes kind inode =
      encode_kind kind version ++ encode_attr encode_dev decode_dev version kind inode

  abbrev pub all_attr_bytes : List ℕ → Inode → List ℕ
  all_attr_bytes [] inode = []
  all_attr_bytes (kind ∷ later) inode =
      (if test_digit inode.present kind then attr_bytes kind inode else [])
      ++ all_attr_bytes later inode

  abbrev pub xattr_bytes : XcacheEntry → List ℕ
  xattr_bytes xattr =
      encode_kind 12 version
      ++ (encode16 (length xattr.body + 2) ++ (encode16 xattr.atom ++ xattr.body))

  abbrev pub all_xattr_bytes : List XcacheEntry → List ℕ
  all_xattr_bytes [] = []
  all_xattr_bytes (xattr ∷ later) = xattr_bytes xattr ++ all_xattr_bytes later

  pub length-attr_bytes :
      (kind : ℕ) (inode : Inode) → kind < 6 → length (attr_bytes kind inode) ≡ atsize kind + 2
  unfolding encode_attr encode64 encode32 encode16
  length-attr_bytes zero inode h = refl
  length-attr_bytes (suc zero) inode h = refl
  length-attr_bytes (suc (suc zero)) inode h = refl
  length-attr_bytes (suc (suc (suc zero))) inode h = refl
  length-attr_bytes (suc (suc (suc (suc zero)))) inode h = refl
  length-attr_bytes (suc (suc (suc (suc (suc zero))))) inode h = refl
  length-attr_bytes (suc (suc (suc (suc (suc (suc kind)))))) inode h = absurd (omega arith)

  length-xattr_bytes : (xattr : XcacheEntry) → length (xattr_bytes xattr) ≡ 6 + length xattr.body
  unfolding encode16
  length-xattr_bytes xattr = omega arith

  length-all_attr_bytes :
      (ks : List ℕ) (inode : Inode)
      → AreKinds ks inode.present
      → length (all_attr_bytes ks inode) ≡ asize_of ks inode.present
  length-all_attr_bytes [] inode h = refl
  length-all_attr_bytes (kind ∷ later) inode h =
      let (low, supported, more) = h in
      let rest = length-all_attr_bytes later inode more in
      elim (Bool-cases (test_digit inode.present kind)) [
        | inl set ↦
            rw (set, length-append (attr_bytes kind inode) (all_attr_bytes later inode))
              (ap₂ (λ (a b : ℕ). a + b) (length-attr_bytes kind inode (supported set)) rest)
        | inr clear ↦ rw clear (omega (arith, rest))
      ]

  length-all_xattr_bytes :
      (xs : List XcacheEntry) → length (all_xattr_bytes xs) ≡ encode_xsize_of xs
  length-all_xattr_bytes [] = refl
  length-all_xattr_bytes (x ∷ xs) = omega (
    arith,
    length-append (xattr_bytes x) (all_xattr_bytes xs),
    length-xattr_bytes x,
    length-all_xattr_bytes xs,
  )

  atsize-positive : (kind : ℕ) → kind < 6 → 4 ≤ atsize kind
  atsize-positive kind h = ground arith

  -- The loop has the space for everything, and leaves out none of it.
  encode_attrs-bytes :
      (size done : ℕ) (ks : List ℕ) (inode : Inode)
      → AreKinds ks inode.present
      → done + asize_of ks inode.present ≤ size
      → encode_attrs encode_dev decode_dev version size done ks inode ≡ all_attr_bytes ks inode
  unfolding encode_attrs
  encode_attrs-bytes size done [] inode h b = refl
  encode_attrs-bytes size done (kind ∷ later) inode h b =
      let (low, supported, more) = h in
      elim (Bool-cases (test_digit inode.present kind)) [
        | inl set ↦
            let long = length-attr_bytes kind inode (supported set) in
            let wide = atsize-positive kind (supported set) in
            let fits : done + (atsize kind + 2 + asize_of later inode.present) ≤ size =
              subst
                (λ (t : Bool).
                  done + ((if t then atsize kind + 2 else 0) + asize_of later inode.present) ≤ size)
                set b in
            let room : leb size (done + 3) ≡ false = ground (arith, wide, fits) in
            rw (set, room)
              (ap (λ (t : List ℕ). attr_bytes kind inode ++ t)
                (encode_attrs-bytes size (done + length (attr_bytes kind inode)) later inode more
                  (omega (arith, fits, long))))
        | inr clear ↦
            let fits : done + (0 + asize_of later inode.present) ≤ size =
              subst
                (λ (t : Bool).
                  done + ((if t then atsize kind + 2 else 0) + asize_of later inode.present) ≤ size)
                clear b in
            rw clear (encode_attrs-bytes size done later inode more (omega (arith, fits)))
      ]

  encode_xattrs-bytes :
      (size done : ℕ) (xs : List XcacheEntry)
      → done + encode_xsize_of xs ≤ size
      → encode_xattrs encode_dev decode_dev version size done xs ≡ all_xattr_bytes xs
  unfolding encode_xattrs
  encode_xattrs-bytes size done [] b = refl
  encode_xattrs-bytes size done (x ∷ xs) b =
      let long = length-xattr_bytes x in
      let room : leb size (done + 3) ≡ false = ground (arith, b) in
      rw room (
        ap (λ (t : List ℕ). xattr_bytes x ++ t)
          (encode_xattrs-bytes size (done + length (xattr_bytes x)) xs (omega (arith, b, long))))

  -- all the bytes of an inode
  abbrev pub inode_bytes : Inode → List ℕ
  inode_bytes inode = all_attr_bytes kinds inode ++ all_xattr_bytes inode.xcache

  abbrev checked : (size : ℕ) → List ℕ → Option (List ℕ)
  checked size bytes = if length bytes == size then some bytes else none

  pub iattr_encode-bytes :
      (inode : Inode)
      → IsFit inode
      → iattr_encode encode_dev decode_dev version
          (iattr_encoded_size encode_dev decode_dev version inode)
          inode
        ≡ some (inode_bytes inode)
  unfolding iattr_encode iattr_encoded_size
  iattr_encode-bytes inode h =
      let size = encode_asize inode.present + encode_xsize_of inode.xcache in
      let known = kinds-AreKinds inode.present h.bits in
      let first = encode_attrs-bytes size 0 kinds inode known (omega arith) in
      let long = length-all_attr_bytes kinds inode known in
      let second =
        encode_xattrs-bytes (size - length (all_attr_bytes kinds inode)) 0 inode.xcache
          (omega (arith, long)) in
      let whole : length (inode_bytes inode) ≡ size =
        length-append (all_attr_bytes kinds inode) (all_xattr_bytes inode.xcache)
        ∙ ap₂ (λ (a b : ℕ). a + b) long (length-all_xattr_bytes inode.xcache) in
      let exact : (length (inode_bytes inode) == size) ≡ true = ground (arith, whole) in
      ap
        (λ (a : List ℕ).
          checked size
            (a ++ encode_xattrs encode_dev decode_dev version (size - length a) 0 inode.xcache))
        first
      ∙ ap (λ (x : List ℕ). checked size (all_attr_bytes kinds inode ++ x)) second
      ∙ ap (λ (t : Bool). if t then some (inode_bytes inode) else none) exact
