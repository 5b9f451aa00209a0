-- ===== src/Ileaf/Split.antt =====
-- kernel/ileaf.c: what `ileaf_split` and `ileaf_merge` leave of the attributes in two leaves.
use tux3_fuse.Prelude.{
  ℕ, ◌+◌, ◌-◌, ◌%◌, ◌^◌, ◌≤◌, ◌<◌, ◌≡◌, refl, ap, ◌∙◌, sym, some, List, [], ◌++◌, inl, inr, ◌⊎◌,
  false, Bool-cases, ltb, leb, ◌==◌, if◌then◌else◌, length, length-append, length-take, length-drop,
  length-replicate, get_or-out, get_or-take, take, drop, replicate, min, arith,
}
use tux3_fuse.Prelude.Slices.{take-exact, drop-exact, get_or-drop, drop-all, take-all}
use mathlib.Core.List.{append_assoc}
use tux3_fuse.Ileaf.{
  Ileaf, icount, add_idict_from, minus16, ileaf_trim, ileaf_split, split_at, SplitResult,
  round_down,
}
use tux3_fuse.Ileaf.Ends.{concat, take-ends, drop-ends, add_idict_from-ends}
use tux3_fuse.Ileaf.Chunks.{IsLeaf, attrs, IsLeaf-icount, IsLeaf-atdict, IsLeaf-last}
use tux3_fuse.Ileaf.Trim.{ileaf_trim-IsLeaf, concat-split}

module _ {blocksize : ℕ} {leaf : Ileaf} {cs : List (List ℕ)} (r : IsLeaf blocksize leaf cs) (at : ℕ)
    (inside : at ≤ length cs) where
  abbrev lower : ℕ
  lower = length (concat (take at cs))

  abbrev upper : ℕ
  upper = length (concat (drop at cs))

  bytes : lower + upper ≡ length (concat cs)
  bytes = omega (
    arith,
    ap length (concat-split cs at),
    length-append (concat (take at cs)) (concat (drop at cs)),
  )

  cut_table : leaf.table ≡ concat (take at cs) ++ (concat (drop at cs) ++ r.pad)
  cut_table =
      r.holds
      ∙ ap (λ (t : List ℕ). t ++ r.pad) (concat-split cs at)
      ∙ append_assoc (concat (take at cs)) (concat (drop at cs)) r.pad

  -- the left leaf, with what is behind it cleared
  left-IsLeaf :
      IsLeaf blocksize
        (record {
          ibase = leaf.ibase;
          dict = take at leaf.dict;
          table = take lower leaf.table ++ replicate (length leaf.table - lower) 0;
        })
        (take at cs)
  left-IsLeaf = record {
    pad = replicate (length leaf.table - lower) 0;
    ends_at = ap (take at) r.ends_at ∙ take-ends 0 cs at;
    holds =
        ap (λ (t : List ℕ). t ++ replicate (length leaf.table - lower) 0)
          (ap (take lower) cut_table ∙ take-exact (concat (take at cs)) _);
    sized = omega (
      arith,
      r.sized,
      r.room,
      bytes,
      length-append (take lower leaf.table) (replicate (length leaf.table - lower) 0),
      length-take lower leaf.table,
      length-replicate {A = ℕ} (length leaf.table - lower) 0,
    );
    room = omega (arith, r.room, bytes, length-take at cs);
    word = r.word;
  }

  -- the right leaf
  right-IsLeaf :
      (key : ℕ) (space : List ℕ)
      → length space + 16 ≡ blocksize
      → IsLeaf blocksize
          (record {
            ibase = key;
            dict = add_idict_from 0 (minus16 0 lower) (drop at leaf.dict);
            table = take upper (drop lower leaf.table) ++ drop upper space;
          })
          (drop at cs)
  right-IsLeaf key space size =
      let low : take upper (drop lower leaf.table) ≡ concat (drop at cs) =
        ap (λ (t : List ℕ). take upper (drop lower t)) cut_table
        ∙ ap (take upper) (drop-exact (concat (take at cs)) _)
        ∙ take-exact (concat (drop at cs)) r.pad in
      record {
        pad = drop upper space;
        ends_at =
            ap (λ (t : List ℕ). add_idict_from 0 (minus16 0 lower) (drop at t)) r.ends_at
            ∙ ap (add_idict_from 0 (minus16 0 lower)) (drop-ends 0 cs at)
            ∙ add_idict_from-ends (0 + lower) 0 (minus16 0 lower) 1 (drop at cs)
                (omega (arith, r.room, r.word, bytes)) (omega (arith, r.room, r.word, bytes));
        holds = ap (λ (t : List ℕ). t ++ drop upper space) low;
        sized = omega (
          arith,
          size,
          r.room,
          bytes,
          ap length low,
          length-append (take upper (drop lower leaf.table)) (drop upper space),
          length-drop upper space,
        );
        room = omega (arith, r.room, bytes, length-drop at cs);
        word = r.word;
      }

-- What a split leaves: the left leaf holds the attributes of the inodes below the key and the right one of
-- those from the key on, which lies above the base.
pub record IsDivided (blocksize : ℕ) (leaf : Ileaf) (cs : List (List ℕ)) (s : SplitResult)
    : Type 0 where
  pub low : List (List ℕ)
  pub high : List (List ℕ)
  pub left : IsLeaf blocksize s.from low
  pub right : IsLeaf blocksize s.into high
  pub base : s.from.ibase ≡ leaf.ibase
  pub key_base : s.into.ibase ≡ s.key
  pub above : leaf.ibase < s.key
  pub below_key :
      (inum : ℕ)
      → leaf.ibase ≤ inum
      → inum < s.key
      → attrs low (inum - leaf.ibase) ≡ attrs cs (inum - leaf.ibase)
  pub from_key :
      (inum : ℕ) → s.key ≤ inum → attrs high (inum - s.key) ≡ attrs cs (inum - leaf.ibase)
  pub none_above : (i : ℕ) → s.key ≤ leaf.ibase + i → attrs low i ≡ []

abbrev halves : (leaf : Ileaf) (cs : List (List ℕ)) (at key : ℕ) (space : List ℕ) → SplitResult
halves leaf cs at key space = record {
  key = key;
  from = ileaf_trim (record {
    ibase = leaf.ibase;
    dict = take at leaf.dict;
    table =
        take (length (concat (take at cs))) leaf.table
        ++ replicate (length leaf.table - length (concat (take at cs))) 0;
  });
  into = record {
    ibase = key;
    dict = add_idict_from 0 (minus16 0 (length (concat (take at cs)))) (drop at leaf.dict);
    table =
        take (length (concat (drop at cs))) (drop (length (concat (take at cs))) leaf.table)
        ++ drop (length (concat (drop at cs))) space;
  };
}

divided :
    {blocksize : ℕ} {leaf : Ileaf} {cs : List (List ℕ)} (r : IsLeaf blocksize leaf cs) (at key : ℕ)
    (space : List ℕ)
    → (inside : at ≤ length cs)
    → (leaf.ibase + at ≡ key) ⊎ ((at ≡ length cs) × (leaf.ibase + length cs < key))
    → leaf.ibase < key
    → length space + 16 ≡ blocksize
    → IsDivided blocksize leaf cs (halves leaf cs at key space)
divided {blocksize} {leaf} {cs} r at key space inside place above size =
    let (low, left, base, same, tight) =
      ileaf_trim-IsLeaf blocksize _ (take at cs) (left-IsLeaf r at inside) in
    record {
      low = low;
      high = drop at cs;
      left = left;
      right = right-IsLeaf r at inside key space size;
      base = base;
      key_base = refl;
      above = above;
      below_key = λ inum h b.
          same (inum - leaf.ibase) ∙ below (inum - leaf.ibase) (omega (arith, h, b, above));
      from_key = λ inum h. upper_part (inum - key) (inum - leaf.ibase) (omega (arith, h, above));
      none_above =
          λ i h. same i ∙ get_or-out (take at cs) i [] (omega (arith, place, h, length-take at cs));
    }
  where
    below : (i : ℕ) → leaf.ibase + i < key → attrs (take at cs) i ≡ attrs cs i
    below i b = elim place [
      | inl e ↦ get_or-take at cs i [] (omega (arith, e, b))
      | inr (e, f) ↦ ap (λ (t : List (List ℕ)). attrs t i) (take-all cs at (omega (arith, e)))
    ]

    upper_part : (i j : ℕ) → key + i ≡ leaf.ibase + j → attrs (drop at cs) i ≡ attrs cs j
    upper_part i j h = elim place [
      | inl e ↦ get_or-drop at cs i j [] (omega (arith, e, h))
      | inr (e, f) ↦
          ap (λ (t : List (List ℕ)). attrs t i) (drop-all cs at (omega (arith, e)))
          ∙ sym (get_or-out cs j [] (omega (arith, f, h)))
    ]

split_at-halves :
    {blocksize : ℕ} {leaf : Ileaf} {cs : List (List ℕ)} (r : IsLeaf blocksize leaf cs) (at key : ℕ)
    (space : List ℕ)
    → at ≤ length cs
    → split_at at key leaf space ≡ some (halves leaf cs at key space)
unfolding split_at
split_at-halves {blocksize} {leaf} {cs} r at key space inside =
    let lower = length (concat (take at cs)) in
    let sizes = bytes r at inside in
    let in_order : ltb (length (concat cs)) lower ≡ false = ground (arith, sizes) in
    let rest : length (concat cs) - lower ≡ length (concat (drop at cs)) = omega (arith, sizes) in
    rw (IsLeaf-atdict r at inside, IsLeaf-last r, in_order, rest) refl

-- A split of a leaf at a hint that is not below its base, into a leaf of the same size, succeeds: the inodes
-- below the returned key keep their attributes in the left leaf, the others have them in the right one.
pub ileaf_split-IsDivided :
    (blocksize entries_per_leaf hint : ℕ) (leaf : Ileaf) (cs : List (List ℕ)) (space : List ℕ)
    → IsLeaf blocksize leaf cs
    → leaf.ibase ≤ hint
    → hint + 1 < 2 ^ 64
    → length space + 16 ≡ blocksize
    → (s : SplitResult) × (ileaf_split entries_per_leaf hint leaf space ≡ some s)
      × IsDivided blocksize leaf cs s
unfolding ileaf_split
ileaf_split-IsDivided blocksize entries hint leaf cs space r low word size =
    let hint' = if hint == leaf.ibase then hint + 1 else hint in
    let at = min ((hint' + 2 ^ 64 - leaf.ibase) % 2 ^ 64) (icount leaf) in
    let round = round_down entries hint' in
    let key = if ltb (leaf.ibase + icount leaf) round then round else hint' in
    let up : leaf.ibase < hint' = ground arith in
    let word' : hint' < 2 ^ 64 = ground arith in
    let distance : (hint' + 2 ^ 64 - leaf.ibase) % 2 ^ 64 ≡ hint' - leaf.ibase = omega arith in
    let count = IsLeaf-icount r in
    let inside : at ≤ length cs = omega (arith, count, distance) in
    let above : leaf.ibase < key = ground (arith, up) in
    let place : (leaf.ibase + at ≡ key) ⊎ ((at ≡ length cs) × (leaf.ibase + length cs < key)) =
      elim (Bool-cases (leb hint' (leaf.ibase + icount leaf))) [
        | inl near ↦ inl (ground (arith, near, distance, up))
        | inr far ↦ inr (ground (arith, far, distance, count), ground (arith, far, count))
      ] in
    (
      halves leaf cs at key space,
      split_at-halves r at key space inside,
      divided r at key space inside place above size,
    )
