-- ===== src/Ileaf/Trim.antt =====
-- kernel/ileaf.c: the trim takes the inodes without attributes off the end of a leaf.
use tux3_fuse.Prelude.{
  ℕ, zero, suc, ◌≤◌, ◌<◌, ◌≡◌, refl, ap, ap₂, subst, ◌∙◌, sym, List, [], ◌∷◌, ◌++◌, inl, inr,
  Bool-cases, ◌==◌, length, length-append, length-take, get_or-take, take, drop, take-append-drop,
  arith,
}
use tux3_fuse.Prelude.Slices.{take-all}
use mathlib.Core.List.{append-nil}
use tux3_fuse.Ileaf.{Ileaf, atdict, icount, trim_loop, ileaf_trim}
use tux3_fuse.Ileaf.Ends.{concat, ends, limit_at-ends, take-ends, concat-append}
use tux3_fuse.Ileaf.Chunks.{IsLeaf, attrs, take-cut, nil-length, IsLeaf-icount}

pub concat-split :
    (cs : List (List ℕ)) (i : ℕ) → concat cs ≡ concat (take i cs) ++ concat (drop i cs)
concat-split cs i = ap concat (sym (take-append-drop i cs)) ∙ concat-append (take i cs) (drop i cs)

-- A chunk without bytes at the end does not show.
attrs-take-suc :
    (cs : List (List ℕ)) (n i : ℕ)
    → n < length cs
    → attrs cs n ≡ []
    → attrs (take n cs) i ≡ attrs (take (suc n) cs) i
attrs-take-suc [] n i h e = absurd (omega arith)
attrs-take-suc (c ∷ cs) zero zero h e = sym e
attrs-take-suc (c ∷ cs) zero (suc i) h e = refl
attrs-take-suc (c ∷ cs) (suc n) zero h e = refl
attrs-take-suc (c ∷ cs) (suc n) (suc i) h e = attrs-take-suc cs n i (omega arith) e

-- What the loop leaves of the first `n` chunks: no bytes are lost, and the last one that stays has some.
pub record IsTrimmed (cs : List (List ℕ)) (n m : ℕ) : Type 0 where
  pub fewer : m ≤ n
  pub bytes : concat (take m cs) ≡ concat (take n cs)
  pub same : (i : ℕ) → attrs (take m cs) i ≡ attrs (take n cs) i
  pub tight : (k : ℕ) → m ≡ suc k → 0 < length (attrs cs k)

trim_loop-IsTrimmed :
    (cs : List (List ℕ)) (n : ℕ) → n ≤ length cs → IsTrimmed cs n (trim_loop (ends 0 cs) n)
unfolding trim_loop
trim_loop-IsTrimmed cs zero h = record {
  fewer = omega arith;
  bytes = refl;
  same = λ i. refl;
  tight = λ k e. absurd (omega (arith, e));
}
trim_loop-IsTrimmed cs (suc n) h =
    let here = limit_at-ends 0 cs n (omega arith) in
    let next = limit_at-ends 0 cs (suc n) h in
    let cut = take-cut cs n (omega arith) in
    let sizes = length-append (concat (take n cs)) (attrs cs n) in
    let t = trim_loop-IsTrimmed cs n (omega arith) in
    elim (Bool-cases (atdict (ends 0 cs) (suc n) == atdict (ends 0 cs) n)) [
      | inl equal ↦
          let empty : attrs cs n ≡ [] =
            nil-length (attrs cs n) (ground (arith, equal, here, next, sizes, ap length cut)) in
          rw equal (record {
            fewer = omega (arith, t.fewer);
            bytes =
                t.bytes
                ∙ sym (
                    cut
                    ∙ ap (λ (x : List ℕ). concat (take n cs) ++ x) empty
                    ∙ append-nil (concat (take n cs)));
            same = λ i. t.same i ∙ attrs-take-suc cs n i (omega arith) empty;
            tight = t.tight;
          })
      | inr differs ↦
          let some_bytes : 0 < length (attrs cs n) =
            ground (arith, differs, here, next, sizes, ap length cut) in
          rw differs (record {
            fewer = omega arith;
            bytes = refl;
            same = λ i. refl;
            tight = λ k e. subst (λ (j : ℕ). 0 < length (attrs cs j)) (omega (arith, e)) some_bytes;
          })
    ]

-- A trimmed leaf holds the same attributes, and ends with an inode that has some.
pub ileaf_trim-IsLeaf :
    (blocksize : ℕ) (leaf : Ileaf) (cs : List (List ℕ))
    → IsLeaf blocksize leaf cs
    → (cs' : List (List ℕ)) × IsLeaf blocksize (ileaf_trim leaf) cs'
      × ((ileaf_trim leaf).ibase ≡ leaf.ibase)
      × ((i : ℕ) → attrs cs' i ≡ attrs cs i)
      × ((k : ℕ) → length cs' ≡ suc k → 0 < length (attrs cs' k))
unfolding ileaf_trim
ileaf_trim-IsLeaf blocksize leaf cs r =
    let m = trim_loop leaf.dict (icount leaf) in
    let same_loop : trim_loop (ends 0 cs) (length cs) ≡ m =
      ap₂ trim_loop (sym r.ends_at) (sym (IsLeaf-icount r)) in
    let t : IsTrimmed cs (length cs) m =
      subst (IsTrimmed cs (length cs)) same_loop
        (trim_loop-IsTrimmed cs (length cs) (omega arith)) in
    let whole = take-all cs (length cs) (omega arith) in
    let bytes : concat (take m cs) ≡ concat cs = t.bytes ∙ ap concat whole in
    let count : length (take m cs) ≡ m = omega (arith, length-take m cs, t.fewer) in
    (
      take m cs,
      record {
        pad = r.pad;
        ends_at = ap (take m) r.ends_at ∙ take-ends 0 cs m;
        holds = r.holds ∙ ap (λ (x : List ℕ). x ++ r.pad) (sym bytes);
        sized = r.sized;
        room = omega (arith, r.room, ap length bytes, count, t.fewer);
        word = r.word;
      },
      refl,
      λ i. t.same i ∙ ap (λ (x : List (List ℕ)). attrs x i) whole,
      λ k e.
          subst (λ (x : List ℕ). 0 < length x)
            (sym (get_or-take m cs k [] (omega (arith, e, count))))
            (t.tight k (omega (arith, e, count))),
    )
