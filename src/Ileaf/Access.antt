-- ===== src/Ileaf/Access.antt =====
-- kernel/ileaf.c: `ileaf_write` and `ileaf_read`. The encoding of the attributes (struct ileaf_attr_ops, for
-- inodes in kernel/iattr.c) is an interface: a size, the bytes, and what the bytes decode to.
use tux3_fuse.Prelude.{
  ℕ, zero, suc, ◌+◌, ◌-◌, ◌≤◌, ◌<◌, ◌≡◌, ◌≢◌, refl, ap, ap₂, subst, ◌∙◌, sym, Option, none, some,
  List, [], ◌∷◌, ◌++◌, inl, inr, ◌==◌, if◌then◌else◌, length, length-append, length-set,
  get_or-set_self, get_or-set_ne, set, take, drop, arith,
}
use tux3_fuse.Prelude.Slices.{take-exact, drop-exact, drop-past}
use mathlib.Core.List.{append_assoc}
use tux3_fuse.Ileaf.{false, Ileaf, ileaf_resize, ileaf_lookup, ileaf_split_hint}
use tux3_fuse.Ileaf.Ends.{concat, ends}
use tux3_fuse.Ileaf.Chunks.{IsLeaf, attrs, IsFound, IsLeaf-table, ileaf_lookup-attrs}
use tux3_fuse.Ileaf.Memory.{concat-set, length-concat-set}
use tux3_fuse.Ileaf.Resize.{IsResized, wanted, ileaf_resize-IsResized}

pub record AttrOps (D : Type 0) : Type 0 where
  pub encoded_size : D → ℕ
  pub encode : D → List ℕ
  pub decode : List ℕ → Option D

-- `failed` is a failed assert, and `need_split` has the hint.
pub data Written : Type 0 where
  failed : Written
  need_split : (hint : ℕ) → Written
  written : Ileaf → Written

-- Negative errors of a read: -ENOENT, or what the decoder says.
pub data Read (D : Type 0) : Type 0 where
  bad_inum enoent decode_error : Read D
  found : D → Read D

module _ {D : Type 0} (ops : AttrOps D) where
  abbrev store_at : D → Ileaf → (offset : ℕ) → Ileaf
  store_at d leaf offset = record leaf {
    table =
        take offset leaf.table ++ (ops.encode d ++ drop (offset + ops.encoded_size d) leaf.table);
  }

  -- for the single inode `inum`; the caller's key and length are not kept
  unfoldable pub ileaf_write : (blocksize entries_per_leaf inum : ℕ) → D → Ileaf → Written
  ileaf_write blocksize entries_per_leaf inum d leaf =
      if ops.encoded_size d == 0
      then failed
      else elim (ileaf_resize blocksize inum leaf (ops.encoded_size d)) [
        | none ↦ failed
        | some none ↦ need_split (ileaf_split_hint entries_per_leaf leaf inum)
        | some (some (offset, leaf')) ↦ written (store_at d leaf' offset)
      ]

  abbrev pub decoded : Option D → Read D
  decoded none = decode_error
  decoded (some d) = found d

  abbrev read_at : Ileaf → Option (Option ℕ × ℕ) → Read D
  read_at leaf none = bad_inum
  read_at leaf (some (none, size)) = enoent
  read_at leaf (some (some offset, size)) =
      decoded (ops.decode (take size (drop offset leaf.table)))

  unfoldable pub ileaf_read : (inum : ℕ) → Ileaf → Read D
  ileaf_read inum leaf = read_at leaf (ileaf_lookup inum leaf)

ends-set :
    (start : ℕ) (cs : List (List ℕ)) (i : ℕ) (c : List ℕ)
    → length c ≡ length (attrs cs i)
    → ends start (set cs i c) ≡ ends start cs
ends-set start [] i c e = refl
ends-set start (x ∷ cs) zero c e = ap (λ (t : ℕ). (start + t) ∷ ends (start + t) cs) e
ends-set start (x ∷ cs) (suc i) c e =
    ap (λ (t : List ℕ). (start + length x) ∷ t) (ends-set (start + length x) cs i c e)

-- Bytes written over the attributes of an inode, as many as there were.
overwrite-IsLeaf :
    {blocksize : ℕ} {leaf : Ileaf} {cs : List (List ℕ)} (r : IsLeaf blocksize leaf cs) (at : ℕ)
    (c : List ℕ)
    → at < length cs
    → length c ≡ length (attrs cs at)
    → IsLeaf blocksize
        (record leaf {
          table =
              take (length (concat (take at cs))) leaf.table
              ++ (c ++ drop (length (concat (take at cs)) + length c) leaf.table);
        })
        (set cs at c)
overwrite-IsLeaf {blocksize} {leaf} {cs} r at c inside same =
    let p = concat (take at cs) in
    let q = concat (drop (suc at) cs) in
    let table = IsLeaf-table r at inside in
    let low : take (length p) leaf.table ≡ p = ap (take (length p)) table ∙ take-exact p _ in
    let high : drop (length p + length c) leaf.table ≡ q ++ r.pad =
      ap (drop (length p + length c)) table
      ∙ drop-past p _ _ (length c) refl
      ∙ ap (λ (t : ℕ). drop t (attrs cs at ++ (q ++ r.pad))) same
      ∙ drop-exact (attrs cs at) (q ++ r.pad) in
    let holds : take (length p) leaf.table ++ (c ++ drop (length p + length c) leaf.table)
        ≡ concat (set cs at c) ++ r.pad =
      ap₂ (λ (s t : List ℕ). s ++ (c ++ t)) low high
      ∙ sym (
          ap (λ (t : List ℕ). t ++ r.pad) (concat-set cs at c inside)
          ∙ append_assoc p (c ++ q) r.pad
          ∙ ap (λ (t : List ℕ). p ++ t) (append_assoc c q r.pad)) in
    record {
      pad = r.pad;
      ends_at = r.ends_at ∙ sym (ends-set 0 cs at c same);
      holds = holds;
      sized = omega (
        arith,
        r.sized,
        same,
        ap length holds,
        ap length r.holds,
        length-append (concat cs) r.pad,
        length-append (concat (set cs at c)) r.pad,
        length-concat-set cs at c inside,
      );
      room = omega (arith, r.room, same, length-concat-set cs at c inside, length-set cs at c);
      word = r.word;
    }

module _ {D : Type 0} (ops : AttrOps D) where
  -- what a read of these attributes says
  abbrev pub read_attrs : List ℕ → Read D
  read_attrs c = if length c == 0 then enoent else decoded ops (ops.decode c)

  -- A read of an inode not below the base answers by the attributes that the leaf holds for it.
  pub ileaf_read-attrs :
      {blocksize : ℕ} {leaf : Ileaf} {cs : List (List ℕ)} (inum : ℕ)
      → IsLeaf blocksize leaf cs
      → leaf.ibase ≤ inum
      → ileaf_read ops inum leaf ≡ read_attrs (attrs cs (inum - leaf.ibase))
  unfolding ileaf_read
  ileaf_read-attrs {blocksize} {leaf} {cs} inum r low =
      let (at, e, here) = ileaf_lookup-attrs blocksize leaf cs inum r low in
      by_place at (attrs cs (inum - leaf.ibase)) e here
    where
      by_place :
          (at : Option ℕ) (c : List ℕ)
          → ileaf_lookup inum leaf ≡ some (at, length c)
          → IsFound leaf.table at c
          → ileaf_read ops inum leaf ≡ read_attrs c
      by_place none c e empty = ap (read_at ops leaf) e ∙ ground (arith, ap length empty)
      by_place (some offset) c e (some_bytes, slice) =
          let positive : (length c == 0) ≡ false = ground arith in
          ap (read_at ops leaf) e ∙ rw (positive, slice) refl

  abbrev pub WriteAnswer : (blocksize inum : ℕ) → D → List (List ℕ) → Ileaf → Written → Type 0
  WriteAnswer blocksize inum d cs leaf failed = ⊥
  WriteAnswer blocksize inum d cs leaf (need_split hint) =
      blocksize + length (attrs cs (inum - leaf.ibase))
      < wanted cs (inum - leaf.ibase) (ops.encoded_size d)
  WriteAnswer blocksize inum d cs leaf (written leaf') =
      (leaf'.ibase ≡ leaf.ibase)
      × ((cs' : List (List ℕ)) × IsLeaf blocksize leaf' cs')
      × (ileaf_read ops inum leaf' ≡ decoded ops (ops.decode (ops.encode d)))
      × ((other : ℕ)
          → leaf.ibase ≤ other
          → other ≢ inum
          → ileaf_read ops other leaf' ≡ ileaf_read ops other leaf)

  -- A write, of attributes that have as many bytes as announced, and one at least, for an inode not below the
  -- base asks for a split only when the block has no room for the new attributes. Otherwise a read of the leaf
  -- that it leaves says what the decoder makes of the bytes, and every other inode reads as before. No assert
  -- of the leaf fails.
  pub ileaf_write-read :
      (blocksize entries_per_leaf inum : ℕ) (d : D) (leaf : Ileaf) (cs : List (List ℕ))
      → length (ops.encode d) ≡ ops.encoded_size d
      → 0 < ops.encoded_size d
      → IsLeaf blocksize leaf cs
      → leaf.ibase ≤ inum
      → WriteAnswer blocksize inum d cs leaf
          (ileaf_write ops blocksize entries_per_leaf inum d leaf)
  unfolding ileaf_write
  ileaf_write-read blocksize entries inum d leaf cs encoded some_byte r low =
      let positive : (ops.encoded_size d == 0) ≡ false = ground (arith, some_byte) in
      rw positive (elim (ileaf_resize-IsResized blocksize inum (ops.encoded_size d) leaf cs r low) [
        | inl (e, full) ↦ rw e full
        | inr (offset, leaf', e, done) ↦ rw e (stored offset leaf' done)
      ])
    where
      apart :
          (other : ℕ) → leaf.ibase ≤ other → other ≢ inum → inum - leaf.ibase ≢ other - leaf.ibase
      apart other h ne e = ne (omega (arith, h, low, e))

      stored :
          (offset : ℕ) (leaf' : Ileaf)
          → IsResized blocksize (inum - leaf.ibase) (ops.encoded_size d) cs leaf offset leaf'
          → WriteAnswer blocksize inum d cs leaf (written (store_at ops d leaf' offset))
      stored offset leaf' done =
          let at = inum - leaf.ibase in
          let bytes = ops.encode d in
          let same : length bytes ≡ length (attrs done.cs' at) = encoded ∙ sym done.size in
          let there = overwrite-IsLeaf done.holds at bytes done.there same in
          let holds : IsLeaf blocksize (store_at ops d leaf' offset) (set done.cs' at bytes) =
            subst
              (λ (z : ℕ).
                IsLeaf blocksize
                  (record leaf' {
                    table = take offset leaf'.table ++ (bytes ++ drop (offset + z) leaf'.table);
                  })
                  (set done.cs' at bytes))
              (encoded)
              (subst
                (λ (o : ℕ).
                  IsLeaf blocksize
                    (record leaf' {
                      table = take o leaf'.table ++ (bytes ++ drop (o + length bytes) leaf'.table);
                    })
                    (set done.cs' at bytes))
                (sym done.offset_at) there) in
          let reads = λ (other : ℕ) (h : leaf.ibase ≤ other).
            ileaf_read-attrs other holds (omega (arith, h, done.base))
            ∙ ap (λ (b : ℕ). read_attrs (attrs (set done.cs' at bytes) (other - b))) done.base in
          let positive : (length bytes == 0) ≡ false = ground (arith, encoded, some_byte) in
          (
            done.base,
            (set done.cs' at bytes, holds),
            reads inum low
                ∙ ap read_attrs (get_or-set_self done.cs' at bytes [] done.there)
                ∙ rw positive refl,
            λ other h ne.
                reads other h
                ∙ ap read_attrs (
                    get_or-set_ne done.cs' at (other - leaf.ibase) bytes [] (apart other h ne)
                    ∙ done.others (other - leaf.ibase) (λ e. apart other h ne (sym e)))
                ∙ sym (ileaf_read-attrs other r h),
          )
