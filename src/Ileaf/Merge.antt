-- ===== src/Ileaf/Merge.antt =====
-- kernel/ileaf.c: what `ileaf_merge` leaves of the attributes of two leaves.
use tux3_fuse.Prelude.{
  ℕ, zero, suc, ◌+◌, ◌-◌, ◌*◌, ◌≤◌, ◌<◌, ◌≡◌, refl, ap, ap₂, ◌∙◌, sym, Option, some, List, [], ◌∷◌,
  ◌++◌, inl, inr, ◌⊎◌, Bool, true, false, Bool-cases, ltb, leb, ◌==◌, if◌then◌else◌, length,
  length-append, length-take, length-drop, length-replicate, take, drop, replicate, arith, ◌%◌, ◌^◌,
  ◌/◌,
}
use tux3_fuse.Prelude.Slices.{
  take-all, take-exact, get_or-append-left, get_or-append-right, get_or-replicate,
}
use tux3_fuse.Ileaf.{Ileaf, atdict, icount, add_idict_from, ileaf_need, lacks_free, ileaf_merge}
use tux3_fuse.Ileaf.Ends.{concat, ends, ends-append, ends-replicate, concat-append}
use tux3_fuse.Ileaf.Chunks.{IsLeaf, attrs, IsLeaf-icount, IsLeaf-last, IsLeaf-need, IsLeaf-space}
use tux3_fuse.Ileaf.Memory.{concat-replicate}

-- The attributes of `fs` behind a hole of inodes without any.
abbrev pub behind_hole : (hole : ℕ) → List (List ℕ) → List (List ℕ)
behind_hole hole fs = replicate hole [] ++ fs

concat-behind_hole : (hole : ℕ) (fs : List (List ℕ)) → concat (behind_hole hole fs) ≡ concat fs
concat-behind_hole hole fs =
    concat-append (replicate hole []) fs
    ∙ ap (λ (t : List ℕ). t ++ concat fs) (concat-replicate hole)

attrs-behind_hole :
    (hole i : ℕ) (fs : List (List ℕ))
    → attrs (behind_hole hole fs) i ≡ (if ltb i hole then [] else attrs fs (i - hole))
attrs-behind_hole hole i fs = elim (Bool-cases (ltb i hole)) [
  | inl before ↦ rw before (
      get_or-append-left (replicate hole []) fs i []
        (ground (arith, before, length-replicate {A = List ℕ} hole []))
      ∙ get_or-replicate hole [] i)
  | inr behind ↦ rw behind (
      get_or-append-right (replicate hole []) fs i (i - hole) []
        (ground (arith, behind, length-replicate {A = List ℕ} hole [])))
]

abbrev pub IsJoined :
    (blocksize : ℕ) (into from : Ileaf) (fs : List (List ℕ)) → Option (Bool × Ileaf) → Type 0
IsJoined blocksize into from fs answer =
    ((answer ≡ some (false, into))
      × (blocksize < length (concat fs) + (from.ibase - into.ibase + length fs) * 2 + 16))
    ⊎ ((m : Ileaf) × (answer ≡ some (true, m))
        × (m.ibase ≡ into.ibase)
        × ((cs : List (List ℕ)) × IsLeaf blocksize m cs
            × ((inum : ℕ)
                → into.ibase ≤ inum
                → attrs cs (inum - into.ibase)
                  ≡ (if ltb inum from.ibase then [] else attrs fs (inum - from.ibase)))))

length-add_idict_from : (k n : ℕ) (dict : List ℕ) → length (add_idict_from k n dict) ≡ length dict
length-add_idict_from k n [] = refl
length-add_idict_from zero n (x ∷ dict) = ap suc (length-add_idict_from zero n dict)
length-add_idict_from (suc k) n (x ∷ dict) = ap suc (length-add_idict_from k n dict)

-- the dictionary of the left leaf, as the merge leaves it
abbrev adjusted : (limit fromcount : ℕ) → List ℕ → List ℕ
adjusted limit fromcount filled =
    if limit == 0
    then filled
    else add_idict_from 0 limit (take fromcount filled) ++ drop fromcount filled

length-adjusted :
    (limit fromcount : ℕ) (filled : List ℕ)
    → length (adjusted limit fromcount filled) ≡ length filled
length-adjusted limit fromcount filled = elim (Bool-cases (limit == 0)) [
  | inl zero_limit ↦ rw zero_limit refl
  | inr some_limit ↦ rw some_limit (
      omega (
        arith,
        length-append (add_idict_from 0 limit (take fromcount filled)) (drop fromcount filled),
        length-add_idict_from 0 limit (take fromcount filled),
        length-take fromcount filled,
        length-drop fromcount filled,
      ))
]

-- The merge without the words of the code, and that it is the merge where these are wide enough.
module _ (blocksize : ℕ) (into from : Ileaf) where
  abbrev hole : ℕ
  hole = from.ibase - into.ibase + icount into

  abbrev limit : ℕ
  limit = atdict into.dict (icount into)

  abbrev fromlimit : ℕ
  fromlimit = atdict from.dict (icount from)

  abbrev filled : List ℕ
  filled = into.dict ++ replicate hole limit

  abbrev result : Ileaf
  result = record into {
    dict = adjusted limit (icount from) filled ++ from.dict;
    table =
        take limit into.table ++ (take fromlimit from.table ++ drop (limit + fromlimit) into.table);
  }

  abbrev need : ℕ
  need = (hole * 2 + ileaf_need from) % 2 ^ 32

  length-result : length result.dict ≡ icount into + hole + icount from
  length-result = omega (
    arith,
    length-append (adjusted limit (icount from) filled) from.dict,
    length-adjusted limit (icount from) filled,
    length-append into.dict (replicate hole limit),
    length-replicate {A = ℕ} hole limit,
  )

  module _ (wide : blocksize ≤ 2 ^ 16) (fits : hole * 2 + ileaf_need from < 2 ^ 31) where
    lacks_free-need :
        lacks_free blocksize into (need % 2 ^ 31) (need / 2 ^ 31 * 2 ^ 31)
        ≡ lacks_free blocksize into (hole * 2 + ileaf_need from) 0
    lacks_free-need =
        let whole : need ≡ hole * 2 + ileaf_need from = omega (arith, fits) in
        let low : need % 2 ^ 31 ≡ hole * 2 + ileaf_need from = omega (arith, fits, whole) in
        let high : need / 2 ^ 31 * 2 ^ 31 ≡ 0 = omega (arith, fits, whole) in
        ap₂ (lacks_free blocksize into) low high

    count-lacks_free :
        lacks_free blocksize into (hole * 2 + ileaf_need from) 0 ≡ false
        → (icount into + hole + icount from) % 2 ^ 16 ≡ icount into + hole + icount from
    unfolding lacks_free ileaf_need
    count-lacks_free room =
        let inside : limit + icount into * 2 + 16 + (hole * 2 + (fromlimit + icount from * 2))
            ≤ blocksize + 0 =
          ground (arith, room) in
        omega (arith, inside, wide)

    ileaf_merge-result :
        0 < icount from
        → into.ibase < from.ibase
        → ileaf_merge blocksize into from ≡ (
            if lacks_free blocksize into (hole * 2 + ileaf_need from) 0
            then some (false, into)
            else some (true, result))
    unfolding ileaf_merge
    ileaf_merge-result some_inode order =
        let several : (icount from == 0) ≡ false = ground (arith, some_inode) in
        let above : leb from.ibase into.ibase ≡ false = ground (arith, order) in
        let whole : hole % 2 ^ 32 ≡ hole = omega (arith, fits) in
        elim (Bool-cases (lacks_free blocksize into (hole * 2 + ileaf_need from) 0)) [
          | inl full ↦ rw (several, above, whole, lacks_free-need, full) refl
          | inr room ↦
              let kept : take ((icount into + hole + icount from) % 2 ^ 16) result.dict
                  ≡ result.dict =
                take-all result.dict _ (omega (arith, length-result, count-lacks_free room)) in
              rw (several, above, whole, lacks_free-need, room, kept) refl
        ]

-- A merge of a leaf into one without inodes, below it and by less than 2 ^ 29 inodes: either it does not merge, and the block has no room
-- for the attributes and the longer dictionary, or every inode has the attributes that it had.
pub ileaf_merge-IsJoined :
    (blocksize : ℕ) (into from : Ileaf) (fs : List (List ℕ))
    → IsLeaf blocksize into []
    → IsLeaf blocksize from fs
    → into.ibase < from.ibase
    → from.ibase < into.ibase + 2 ^ 29
    → 0 < length fs
    → IsJoined blocksize into from fs (ileaf_merge blocksize into from)
ileaf_merge-IsJoined blocksize into from fs r q order near some_inode =
    let hole = from.ibase - into.ibase in
    let no_hole : hole + 0 ≡ hole = omega arith in
    let empty : icount into ≡ 0 = IsLeaf-icount r in
    let merged =
      ileaf_merge-result blocksize into from q.word
        (omega (arith, near, empty, IsLeaf-need q, q.room, q.word))
        (omega (arith, some_inode, IsLeaf-icount q)) order in
    let last = IsLeaf-last r in
    let fromlimit = IsLeaf-last q in
    let space : lacks_free blocksize into (hole * 2 + ileaf_need from) 0
        ≡ ltb blocksize (length (concat fs) + (hole + length fs) * 2 + 16) =
      let less : blocksize + 0 ≡ blocksize = omega arith in
      let more : 0 + 0 * 2 + 16 + (hole * 2 + ileaf_need from)
          ≡ length (concat fs) + (hole + length fs) * 2 + 16 =
        omega (arith, IsLeaf-need q) in
      IsLeaf-space r (hole * 2 + ileaf_need from) 0 ∙ ap₂ ltb less more in
    elim (Bool-cases (lacks_free blocksize into (hole * 2 + ileaf_need from) 0)) [
      | inl full ↦ inl (merged ∙ rw (empty, no_hole, full) refl, ground (arith, full, space))
      | inr room ↦ inr (
        joined,
        merged ∙ rw (empty, no_hole, room, fromlimit) refl,
        refl,
        (behind_hole hole fs, holds (ground (arith, room, space)), view),
      )
    ]
  where
    joined : Ileaf
    joined = record {
      ibase = into.ibase;
      dict = (into.dict ++ replicate (from.ibase - into.ibase) 0) ++ from.dict;
      table = take (length (concat fs)) from.table ++ drop (0 + length (concat fs)) into.table;
    }

    holds :
        length (concat fs) + (from.ibase - into.ibase + length fs) * 2 + 16 ≤ blocksize
        → IsLeaf blocksize joined (behind_hole (from.ibase - into.ibase) fs)
    holds room =
        let hole = from.ibase - into.ibase in
        let low : take (length (concat fs)) from.table ≡ concat fs =
          ap (take (length (concat fs))) q.holds ∙ take-exact (concat fs) q.pad in
        record {
          pad = drop (0 + length (concat fs)) into.table;
          ends_at =
              ap₂ (λ (s t : List ℕ). (s ++ replicate hole 0) ++ t) r.ends_at q.ends_at
              ∙ sym (
                  ends-append 0 (replicate hole []) fs
                  ∙ ap₂ (λ (s : List ℕ) (t : ℕ). s ++ ends t fs) (ends-replicate 0 hole)
                      (omega (arith, ap length (concat-replicate hole))));
          holds = ap₂ (λ (s t : List ℕ). s ++ t) (low ∙ sym (concat-behind_hole hole fs)) refl;
          sized = omega (
            arith,
            r.sized,
            q.room,
            ap length low,
            length-append (take (length (concat fs)) from.table)
                (drop (0 + length (concat fs)) into.table),
            length-drop (0 + length (concat fs)) into.table,
          );
          room = omega (
            arith,
            room,
            ap length (concat-behind_hole hole fs),
            length-append (replicate {A = List ℕ} hole []) fs,
            length-replicate {A = List ℕ} hole [],
          );
          word = q.word;
        }

    view :
        (inum : ℕ)
        → into.ibase ≤ inum
        → attrs (behind_hole (from.ibase - into.ibase) fs) (inum - into.ibase)
          ≡ (if ltb inum from.ibase then [] else attrs fs (inum - from.ibase))
    view inum h =
        attrs-behind_hole (from.ibase - into.ibase) (inum - into.ibase) fs
        ∙ (let test : ltb (inum - into.ibase) (from.ibase - into.ibase) ≡ ltb inum from.ibase =
              ground arith in
            let place : inum - into.ibase - (from.ibase - into.ibase) ≡ inum - from.ibase =
              omega arith in
            ap₂ (λ (b : Bool) (t : ℕ). if b then [] else attrs fs t) test place)

-- Where two leaves are merged, in a block of at most 2 ^ 16 bytes and with sizes that fit a signed word of 32
-- bits, the merged one has twice as many inodes too many as the left one had: the
-- hole between the two is filled with that many entries more than the numbers of the inodes ask for.
pub ileaf_merge-icount :
    (blocksize : ℕ) (into from m : Ileaf)
    → blocksize ≤ 2 ^ 16
    → (from.ibase - into.ibase + icount into) * 2 + ileaf_need from < 2 ^ 31
    → into.ibase < from.ibase
    → 0 < icount from
    → ileaf_merge blocksize into from ≡ some (true, m)
    → icount m ≡ from.ibase - into.ibase + icount from + 2 * icount into
ileaf_merge-icount blocksize into from m wide fits order some_inode e =
    let merged = ileaf_merge-result blocksize into from wide fits some_inode order in
    elim (Bool-cases
      (lacks_free blocksize into (hole blocksize into from * 2 + ileaf_need from) 0)) [
        | inl full ↦ absurd (ground (arith, full, e, merged))
        | inr room ↦
            let same : result blocksize into from ≡ m = ground (arith, room, e, merged) in
            omega (arith, ap icount same, length-result blocksize into from)
      ]
