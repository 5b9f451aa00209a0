-- ===== src/Iattr/Loop.antt =====
-- kernel/iattr.c and kernel/xattr.c: the loops of the decoder over the bytes of the encoder.
use tux3_fuse.Prelude.{
  subst, ℕ, zero, suc, ◌+◌, ◌-◌, ◌%◌, ◌^◌, ◌≤◌, ◌<◌, ◌≡◌, refl, ap, ◌∙◌, sym, true, false, ◌||◌,
  Bool-cases, inl, inr, Option, none, some, List, [], ◌∷◌, ◌++◌, ltb, ◌==◌, if◌then◌else◌, length,
  length-append, drop, arith,
}
use mathlib.Core.List.{append_assoc}
use tux3_fuse.Prelude.Slices.{take-exact, drop-exact}
use tux3_fuse.Prelude.Digits.{test_digit}
use tux3_fuse.Codec.{encode16, decode16, decode16-encode16}
use tux3_fuse.Iattr.{
  Inode, Root, XcacheEntry, atsize, encode_kind, encode_attr, decode_attr, decode_attrs,
  decode_xattr, decode_xsize, xcache_size, mark,
}
use tux3_fuse.Iattr.Bytes.{
  AreKinds, attr_bytes, all_attr_bytes, xattr_bytes, all_xattr_bytes, length-attr_bytes,
}
use tux3_fuse.Iattr.Fields.{decode_kind-encode_kind}

two_more : (n : ℕ) → n + 2 ≡ suc (suc n)
two_more n = omega arith

-- entries whose fields have the widths that they are stored in
abbrev pub AreXattrs : List XcacheEntry → Type 0
AreXattrs [] = Unit {0}
AreXattrs (x ∷ xs) = (x.atom < 2 ^ 16) × (length x.body + 2 < 2 ^ 16) × AreXattrs xs

module _ (encode_dev decode_dev : ℕ → ℕ) (version : ℕ) (narrow : version < 2 ^ 12) where
  -- The loop ends with this inode, on any fuel that is not less than the bytes.
  abbrev pub Runs : Root → Inode → List ℕ → Inode → Type 0
  Runs root i attrs result =
      (fuel : ℕ)
      → length attrs ≤ fuel
      → decode_attrs encode_dev decode_dev version fuel root i attrs ≡ some result

  -- a round of the loop of decode_attrs, from the kind and the version on
  abbrev attr_round : (fuel : ℕ) → Root → Inode → Option (ℕ × (ℕ × List ℕ)) → Option Inode
  attr_round fuel root i none = none
  attr_round fuel root i (some (kind, (version', attrs))) =
      if version' == version
      then elim (decode_attr encode_dev decode_dev version kind root i attrs) [
        | none ↦ none
        | some none ↦ some i
        | some (some (root', (i', attrs'))) ↦
            decode_attrs encode_dev decode_dev version fuel root' i' attrs'
      ]
      else decode_attrs encode_dev decode_dev version fuel root i (drop (atsize kind) attrs)

  -- a round of the loop of decode_xsize
  abbrev size_round : (fuel total : ℕ) → Option (ℕ × (ℕ × List ℕ)) → Option ℕ
  size_round fuel total none = none
  size_round fuel total (some (kind, (version', attrs))) =
      if (kind == 11) || (kind == 12)
      then elim (decode16 attrs) [
        | none ↦ none
        | some (bytes, attrs') ↦
            decode_xsize encode_dev decode_dev version fuel
              (if version' == version then total + 4 + bytes - 2 else total) (drop bytes attrs')
      ]
      else decode_xsize encode_dev decode_dev version fuel total (drop (atsize kind) attrs)

  pub Runs-end : (root : Root) (i : Inode) → Runs root i [] (record i { root = root })
  unfolding decode_attrs
  Runs-end root i zero b = refl
  Runs-end root i (suc fuel) b = refl

  pub Runs-step :
      (kind : ℕ) (root root' : Root) (i i' result : Inode) (body rest : List ℕ)
      → kind < 2 ^ 4
      → decode_attr encode_dev decode_dev version kind root i body ≡ some (some (root', (i', rest)))
      → length rest ≤ length body
      → Runs root' i' rest result
      → Runs root i (encode_kind kind version ++ body) result
  unfolding decode_attrs encode16
  Runs-step kind root root' i i' result body rest k e shorter later zero b = absurd (omega arith)
  Runs-step kind root root' i i' result body rest k e shorter later (suc fuel) b =
      let head = decode_kind-encode_kind encode_dev decode_dev version kind body narrow k in
      let mine : (version == version) ≡ true = ground arith in
      ap (attr_round fuel root i) head ∙ rw (mine, e) (later fuel (omega arith))

  abbrev pub SizeRuns : (total : ℕ) → List ℕ → ℕ → Type 0
  SizeRuns total attrs result =
      (fuel : ℕ)
      → length attrs ≤ fuel
      → decode_xsize encode_dev decode_dev version fuel total attrs ≡ some result

  SizeRuns-fixed :
      (kind total result : ℕ) (body rest : List ℕ)
      → kind < 6
      → length body ≡ atsize kind
      → SizeRuns total rest result
      → SizeRuns total (encode_kind kind version ++ (body ++ rest)) result
  unfolding decode_xsize encode16
  SizeRuns-fixed kind total result body rest k e later zero b = absurd (omega arith)
  SizeRuns-fixed kind total result body rest k e later (suc fuel) b =
      let head =
        decode_kind-encode_kind encode_dev decode_dev version kind (body ++ rest) narrow
          (omega arith) in
      let ordinary : ((kind == 11) || (kind == 12)) ≡ false = ground (arith, k) in
      let behind : drop (atsize kind) (body ++ rest) ≡ rest =
        ap (λ (n : ℕ). drop n (body ++ rest)) (sym e) ∙ drop-exact body rest in
      ap (size_round fuel total) head
      ∙ rw (ordinary, behind) (later fuel (omega (arith, b, length-append body rest)))

  SizeRuns-xattr :
      (total result : ℕ) (x : XcacheEntry) (rest : List ℕ)
      → length x.body + 2 < 2 ^ 16
      → SizeRuns (total + 4 + length x.body) rest result
      → SizeRuns total (xattr_bytes encode_dev decode_dev version x ++ rest) result
  unfolding decode_xsize encode16
  SizeRuns-xattr total result x rest small later zero b = absurd (omega arith)
  SizeRuns-xattr total result x rest small later (suc fuel) b =
      let head =
        decode_kind-encode_kind encode_dev decode_dev version 12
          (encode16 (length x.body + 2) ++ (encode16 x.atom ++ (x.body ++ rest))) narrow
          (omega arith) in
      let mine : (version == version) ≡ true = ground arith in
      let bytes =
        decode16-encode16 (length x.body + 2) (encode16 x.atom ++ (x.body ++ rest)) small in
      let behind : drop (length x.body + 2) (encode16 x.atom ++ (x.body ++ rest)) ≡ rest =
        ap (λ (n : ℕ). drop n (encode16 x.atom ++ (x.body ++ rest))) (two_more (length x.body))
        ∙ drop-exact x.body rest in
      let sum : total + 4 + (length x.body + 2) - 2 ≡ total + 4 + length x.body = omega arith in
      ap (size_round fuel total) head
      ∙ rw (bytes, mine, behind, sum) (later fuel (omega (arith, b, length-append x.body rest)))

  pub SizeRuns-xattrs :
      (total : ℕ) (xs : List XcacheEntry)
      → AreXattrs xs
      → SizeRuns total
          (all_xattr_bytes encode_dev decode_dev version xs)
          (total + xcache_size encode_dev decode_dev version xs)
  unfolding decode_xsize
  SizeRuns-xattrs total [] h zero b = ap some (omega arith)
  SizeRuns-xattrs total [] h (suc fuel) b = ap some (omega arith)
  SizeRuns-xattrs total (x ∷ xs) h fuel b =
      let (a, small, more) = h in
      let later = SizeRuns-xattrs (total + 4 + length x.body) xs more in
      let sum : total + 4 + length x.body + xcache_size encode_dev decode_dev version xs
          ≡ total + xcache_size encode_dev decode_dev version (x ∷ xs) =
        omega arith in
      SizeRuns-xattr total _ x (all_xattr_bytes encode_dev decode_dev version xs) small
        (subst
          (λ (r : ℕ).
            SizeRuns (total + 4 + length x.body) (all_xattr_bytes encode_dev decode_dev version xs)
              r)
          sum later)
        fuel b

  length-encode_kind : (k : ℕ) → length (encode_kind k version) ≡ 2
  unfolding encode16
  length-encode_kind k = refl

  pub SizeRuns-attrs :
      (total result : ℕ) (ks : List ℕ) (d : Inode) (rest : List ℕ)
      → AreKinds ks d.present
      → SizeRuns total rest result
      → SizeRuns total (all_attr_bytes encode_dev decode_dev version ks d ++ rest) result
  SizeRuns-attrs total result [] d rest h later = later
  SizeRuns-attrs total result (kind ∷ ks) d rest h later =
      let (low, supported, more) = h in
      let next = SizeRuns-attrs total result ks d rest more later in
      elim (Bool-cases (test_digit d.present kind)) [
        | inl set ↦
            let body = encode_attr encode_dev decode_dev version kind d in
            let long : length body ≡ atsize kind = omega (
              arith,
              length-attr_bytes encode_dev decode_dev version kind d (supported set),
              length-append (encode_kind kind version) body,
              length-encode_kind kind,
            ) in
            let behind = all_attr_bytes encode_dev decode_dev version ks d ++ rest in
            let here = SizeRuns-fixed kind total result body behind (supported set) long next in
            rw
              (
                set,
                append_assoc (attr_bytes encode_dev decode_dev version kind d)
                    (all_attr_bytes encode_dev decode_dev version ks d) rest,
                append_assoc (encode_kind kind version) body behind,
              )
              here
        | inr clear ↦ rw clear next
      ]

  pub decode_attr-xattr :
      (root : Root) (i : Inode) (x : XcacheEntry) (rest : List ℕ)
      → x.atom < 2 ^ 16
      → length x.body + 2 < 2 ^ 16
      → xcache_size encode_dev decode_dev version i.xcache + 4 + length x.body ≤ i.maxsize
      → decode_attr encode_dev decode_dev version 12 root i
          (encode16 (length x.body + 2) ++ (encode16 x.atom ++ (x.body ++ rest)))
        ≡ some (
            some (
              root,
              (
                mark encode_dev decode_dev version 12 (record i { xcache = i.xcache ++ x ∷ [] }),
                rest,
              ),
            ))
  unfolding decode_attr decode_xattr
  decode_attr-xattr root i x rest a small room =
      let size : (length x.body + 2 + 2 ^ 16 - 2) % 2 ^ 16 ≡ length x.body = omega arith in
      let space : ltb i.maxsize
            (xcache_size encode_dev decode_dev version i.xcache + 4 + length x.body)
          ≡ false =
        ground (arith, room) in
      let enough : ltb (length (x.body ++ rest)) (length x.body) ≡ false =
        ground (arith, length-append x.body rest) in
      rw
        (
          decode16-encode16 (length x.body + 2) (encode16 x.atom ++ (x.body ++ rest)) small,
          decode16-encode16 x.atom (x.body ++ rest) a,
          size,
          space,
          enough,
          take-exact x.body rest,
          drop-exact x.body rest,
        )
        refl
