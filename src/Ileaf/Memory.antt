-- ===== src/Ileaf/Memory.antt =====
-- kernel/ileaf.c: the attributes of one inode given another size, in the table and in the dictionary.
use tux3_fuse.Prelude.{
  ℕ, zero, suc, ◌+◌, ◌*◌, ◌%◌, ◌^◌, ◌≤◌, ◌<◌, ◌≡◌, refl, ap, ap₂, ◌∙◌, sym, List, [], ◌∷◌, ◌++◌,
  length, length-append, length-take, length-drop, length-replicate, length-set, set, take, drop,
  replicate, arith,
}
use tux3_fuse.Prelude.Slices.{take-past, drop-past, take-exact, drop-exact}
use mathlib.Core.List.{append_assoc, append-nil}
use tux3_fuse.Ileaf.{Ileaf, atdict, icount, add_idict_from, minus16, memmove}
use tux3_fuse.Ileaf.Ends.{
  concat, ends, ends-append, ends-replicate, concat-append, add_idict_from-ends,
}
use tux3_fuse.Ileaf.Chunks.{IsLeaf, attrs, IsLeaf-table, IsLeaf-bound, IsLeaf-last}

pub concat-set :
    (cs : List (List ℕ)) (i : ℕ) (c : List ℕ)
    → i < length cs
    → concat (set cs i c) ≡ concat (take i cs) ++ (c ++ concat (drop (suc i) cs))
concat-set [] i c h = absurd (omega arith)
concat-set (x ∷ cs) zero c h = refl
concat-set (x ∷ cs) (suc i) c h =
    ap (λ (t : List ℕ). x ++ t) (concat-set cs i c (omega arith))
    ∙ sym (append_assoc x (concat (take i cs)) (c ++ concat (drop (suc i) cs)))

pub length-concat-set :
    (cs : List (List ℕ)) (i : ℕ) (c : List ℕ)
    → i < length cs
    → length (concat (set cs i c)) + length (attrs cs i) ≡ length (concat cs) + length c
length-concat-set [] i c h = absurd (omega arith)
length-concat-set (x ∷ cs) zero c h =
    omega (arith, length-append x (concat cs), length-append c (concat cs))
length-concat-set (x ∷ cs) (suc i) c h = omega (
  arith,
  length-append x (concat cs),
  length-append x (concat (set cs i c)),
  length-concat-set cs i c (omega arith),
)

-- The entries behind the inode move by the difference of the sizes.
pub add_idict_from-set :
    (start : ℕ) (cs : List (List ℕ)) (i : ℕ) (c : List ℕ)
    → i < length cs
    → start + length (concat cs) < 2 ^ 16
    → start + length (concat (set cs i c)) < 2 ^ 16
    → add_idict_from i (minus16 (length c) (length (attrs cs i))) (ends start cs)
      ≡ ends start (set cs i c)
add_idict_from-set start [] i c h b b' = absurd (omega arith)
add_idict_from-set start (x ∷ cs) zero c h b b' =
    let size = length-append x (concat cs) in
    let size' = length-append c (concat cs) in
    let n = minus16 (length c) (length x) in
    let moved : (start + length x + n) % 2 ^ 16 ≡ start + length c =
      omega (arith, size, size', b, b') in
    ap (λ (t : ℕ). t ∷ add_idict_from 0 n (ends (start + length x) cs)) moved
    ∙ ap (λ (t : List ℕ). (start + length c) ∷ t)
        (add_idict_from-ends (start + length x) (start + length c) n 1 cs (omega (arith, size, b))
          (omega (arith, size', b')))
add_idict_from-set start (x ∷ cs) (suc i) c h b b' =
    ap (λ (t : List ℕ). (start + length x) ∷ t)
      (add_idict_from-set (start + length x) cs i c (omega arith)
        (omega (arith, b, length-append x (concat cs)))
        (omega (arith, b', length-append x (concat (set cs i c)))))

-- The bytes behind the attributes keep their order; what the attributes gain is what lay there.
pub memmove-cut :
    (p c q pad : List ℕ) (n : ℕ)
    → n ≤ length c + length pad
    → memmove (p ++ (c ++ (q ++ pad))) (length p + n) (length p + length c) (length q)
      ≡ p ++ (take n (c ++ (q ++ pad)) ++ (q ++ drop (n + length q) (c ++ (q ++ pad))))
memmove-cut p c q pad n h =
    let low : take (length p + n) (p ++ (c ++ (q ++ pad))) ≡ p ++ take n (c ++ (q ++ pad)) =
      take-past p _ _ n refl in
    let mid : take (length q) (drop (length p + length c) (p ++ (c ++ (q ++ pad)))) ≡ q =
      ap (take (length q))
        (drop-past p (c ++ (q ++ pad)) _ (length c) refl ∙ drop-exact c (q ++ pad))
      ∙ take-exact q pad in
    let high : drop (length p + n + length q) (p ++ (c ++ (q ++ pad)))
        ≡ drop (n + length q) (c ++ (q ++ pad)) =
      drop-past p _ _ (n + length q) (omega arith) in
    ap₂ (λ (s t : List ℕ). s ++ t) low (ap₂ (λ (s t : List ℕ). s ++ t) mid high)
    ∙ append_assoc p (take n (c ++ (q ++ pad))) (q ++ drop (n + length q) (c ++ (q ++ pad)))

module _ {blocksize : ℕ} {leaf : Ileaf} {cs : List (List ℕ)} (r : IsLeaf blocksize leaf cs) where
  -- the attributes after the change: those before, and what lay behind them
  abbrev pub resized : (i n : ℕ) → List ℕ
  resized i n = take n (attrs cs i ++ (concat (drop (suc i) cs) ++ r.pad))

  -- what the writes to the table and the dictionary leave
  abbrev pub moved : (i n : ℕ) → Ileaf
  moved i n = record leaf {
    dict = add_idict_from i (minus16 n (length (attrs cs i))) leaf.dict;
    table =
        memmove leaf.table (length (concat (take i cs)) + n)
          (length (concat (take i cs)) + length (attrs cs i)) (length (concat (drop (suc i) cs)));
  }

  module _ (i n : ℕ) (inside : i < length cs)
      (fits : length (concat cs) + n + length cs * 2 + 16 ≤ blocksize + length (attrs cs i)) where
    room_behind : n ≤ length (attrs cs i) + length r.pad
    room_behind = omega (
      arith,
      r.sized,
      ap length r.holds,
      length-append (concat cs) r.pad,
      IsLeaf-bound r i inside,
    )

    pub length-resized : length (resized i n) ≡ n
    length-resized = omega (
      arith,
      room_behind,
      length-take n (attrs cs i ++ (concat (drop (suc i) cs) ++ r.pad)),
      length-append (attrs cs i) (concat (drop (suc i) cs) ++ r.pad),
      length-append (concat (drop (suc i) cs)) r.pad,
    )

    moved-table :
        (moved i n).table
        ≡ concat (set cs i (resized i n))
          ++ drop
              (n + length (concat (drop (suc i) cs)))
              (attrs cs i ++ (concat (drop (suc i) cs) ++ r.pad))
    moved-table =
        let p = concat (take i cs) in
        let c = attrs cs i in
        let q = concat (drop (suc i) cs) in
        let rest = drop (n + length q) (c ++ (q ++ r.pad)) in
        ap (λ (t : List ℕ). memmove t (length p + n) (length p + length c) (length q))
          (IsLeaf-table r i inside)
        ∙ memmove-cut p c q r.pad n room_behind
        ∙ sym (
            ap (λ (t : List ℕ). t ++ rest) (concat-set cs i (resized i n) inside)
            ∙ append_assoc p (resized i n ++ q) rest
            ∙ ap (λ (t : List ℕ). p ++ t) (append_assoc (resized i n) q rest))

    pub moved-IsLeaf : IsLeaf blocksize (moved i n) (set cs i (resized i n))
    moved-IsLeaf = record {
      pad =
          drop (n + length (concat (drop (suc i) cs)))
            (attrs cs i ++ (concat (drop (suc i) cs) ++ r.pad));
      ends_at =
          ap₂ (λ (m : ℕ) (t : List ℕ). add_idict_from i (minus16 m (length (attrs cs i))) t)
            (sym length-resized) r.ends_at
          ∙ add_idict_from-set 0 cs i (resized i n) inside (omega (arith, r.room, r.word))
              (omega (arith, r.word, length-concat-set cs i (resized i n) inside, length-resized));
      holds = moved-table;
      sized = omega (
        arith,
        r.sized,
        room_behind,
        ap length moved-table,
        ap length r.holds,
        length-append (concat cs) r.pad,
        length-append (concat (set cs i (resized i n))) (
            drop (n + length (concat (drop (suc i) cs)))
              (attrs cs i ++ (concat (drop (suc i) cs) ++ r.pad))),
        length-drop (n + length (concat (drop (suc i) cs)))
            (attrs cs i ++ (concat (drop (suc i) cs) ++ r.pad)),
        length-append (attrs cs i) (concat (drop (suc i) cs) ++ r.pad),
        length-append (concat (drop (suc i) cs)) r.pad,
        length-concat-set cs i (resized i n) inside,
        length-resized,
        IsLeaf-bound r i inside,
      );
      room = omega (
        arith,
        length-concat-set cs i (resized i n) inside,
        length-set cs i (resized i n),
        length-resized,
      );
      word = r.word;
    }

pub concat-replicate : (n : ℕ) → concat (replicate n []) ≡ []
concat-replicate zero = refl
concat-replicate (suc n) = concat-replicate n

pub concat-extend : (cs : List (List ℕ)) (extra : ℕ) → concat (cs ++ replicate extra []) ≡ concat cs
concat-extend cs extra =
    concat-append cs (replicate extra [])
    ∙ ap (λ (t : List ℕ). concat cs ++ t) (concat-replicate extra)
    ∙ append-nil (concat cs)

-- Entries added behind the last one stand for inodes without attributes.
pub IsLeaf-extend :
    {blocksize : ℕ} {leaf : Ileaf} {cs : List (List ℕ)}
    → IsLeaf blocksize leaf cs
    → (extra : ℕ) → length (concat cs) + (length cs + extra) * 2 + 16 ≤ blocksize
    → IsLeaf blocksize
        (record leaf { dict = leaf.dict ++ replicate extra (atdict leaf.dict (icount leaf)) })
        (cs ++ replicate extra [])
IsLeaf-extend {blocksize} {leaf} {cs} r extra room = record {
  pad = r.pad;
  ends_at =
      ap₂ (λ (s : List ℕ) (t : ℕ). s ++ replicate extra t) r.ends_at (IsLeaf-last r)
      ∙ sym (
          ends-append 0 cs (replicate extra [])
          ∙ ap (λ (t : List ℕ). ends 0 cs ++ t)
              (ends-replicate (0 + length (concat cs)) extra ∙ ap (replicate extra) (omega arith)));
  holds = r.holds ∙ ap (λ (t : List ℕ). t ++ r.pad) (sym (concat-extend cs extra));
  sized = r.sized;
  room = omega (
    arith,
    room,
    ap length (concat-extend cs extra),
    length-append cs (replicate extra []),
    length-replicate {A = List ℕ} extra [],
  );
  word = r.word;
}
