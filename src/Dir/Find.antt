-- ===== src/Dir/Find.antt =====
-- kernel/dir.c: the search for a name finds what the directory holds under it.
use tux3_fuse.Prelude.{
  ℕ, suc, ◌+◌, ◌-◌, ◌<◌, ◌≡◌, refl, ◌∙◌, sym, Bool, true, false, Bool-cases, inl, inr, none, some,
  List, [], ◌∷◌, ltb, ◌==◌, length, get_or, arith,
}
use tux3_fuse.Dir.{
  Dirent, Block, tux_rec_len, is_deleted, same_bytes, tux_match, Walk, passed, zero_length, stopped,
  find_in_block, Answer, ok, enoent, eio, enotempty, failed, errno, find_in_blocks, tux_find_entry,
}
use tux3_fuse.Dir.Block.{
  IsBlock, AreBlocks, live, live_dir, lookup, lookup-append, same_bytes-length,
  tux_match-same_bytes,
}

abbrev pub no_entry : Dirent
no_entry = record { rec_len = 0; inum = 0; kind = 0; name = [] }

-- Where the loop stops before the end of the block, there is no space left for the name.
lookup-short :
    (name : List ℕ) (room : ℕ) (entries : Block)
    → IsBlock room entries
    → room < tux_rec_len (length name)
    → lookup name (live entries) ≡ none
unfolding live
lookup-short name room [] h b = refl
lookup-short name room (entry ∷ rest) h b =
    let (fits, inside, more) = h in
    let later = lookup-short name (room - entry.rec_len) rest more (omega arith) in
    elim (Bool-cases (is_deleted entry)) [
      | inl gone ↦ rw gone later
      | inr here ↦ elim (Bool-cases (same_bytes name entry.name)) [
        | inl same ↦ absurd (omega (arith, same_bytes-length name entry.name same))
        | inr other ↦ rw (here, other) later
      ]
    ]

lookup-skip :
    (name : List ℕ) (entry : Dirent) (rest : Block)
    → tux_match entry name ≡ false
    → lookup name (live (entry ∷ rest)) ≡ lookup name (live rest)
unfolding live
lookup-skip name entry rest h =
    let misses = sym (tux_match-same_bytes entry name) ∙ h in
    elim (Bool-cases (is_deleted entry)) [
      | inl gone ↦ rw gone refl
      | inr here ↦
          let other : same_bytes name entry.name ≡ false = ground (arith, misses, here) in
          rw (here, other) refl
    ]

lookup-hit :
    (name : List ℕ) (entry : Dirent) (rest : Block)
    → tux_match entry name ≡ true
    → lookup name (live (entry ∷ rest)) ≡ some (entry.inum, entry.kind)
unfolding live
lookup-hit name entry rest h =
    let hits = sym (tux_match-same_bytes entry name) ∙ h in
    let here : is_deleted entry ≡ false = ground (arith, hits) in
    let same : same_bytes name entry.name ≡ true = ground (arith, hits) in rw (here, same) refl

-- what an answer of the search in one block says, for the places from `at` on
abbrev pub IsFoundIn : (name : List ℕ) (at : ℕ) → Block → Walk ℕ → Type 0
IsFoundIn name at entries passed = lookup name (live entries) ≡ none
IsFoundIn name at entries zero_length = ⊥
IsFoundIn name at entries (stopped place) =
    (k : ℕ) × (place ≡ at + k)
    × (k < length entries)
    × (tux_match (get_or entries k no_entry) name ≡ true)
    × (lookup name (live entries)
        ≡ some ((get_or entries k no_entry).inum, (get_or entries k no_entry).kind))

IsFoundIn-skip :
    (name : List ℕ) (at : ℕ) (entry : Dirent) (rest : Block) (w : Walk ℕ)
    → tux_match entry name ≡ false
    → IsFoundIn name (at + 1) rest w
    → IsFoundIn name at (entry ∷ rest) w
IsFoundIn-skip name at entry rest passed misses h = lookup-skip name entry rest misses ∙ h
IsFoundIn-skip name at entry rest (stopped place) misses h =
    let (k, e, b, m, l) = h in
    (suc k, omega arith, omega arith, m, lookup-skip name entry rest misses ∙ l)
IsFoundIn-skip name at entry rest zero_length misses h = elim h [ ]

pub find_in_block-IsFoundIn :
    (room : ℕ) (name : List ℕ) (at : ℕ) (entries : Block)
    → IsBlock room entries
    → IsFoundIn name at entries (find_in_block (tux_rec_len (length name)) room name at entries)
unfolding find_in_block live
find_in_block-IsFoundIn room name at [] h = refl
find_in_block-IsFoundIn room name at (entry ∷ rest) h =
    let (fits, inside, more) = h in
    let later = find_in_block-IsFoundIn (room - entry.rec_len) name (at + 1) rest more in
    let longer : (entry.rec_len == 0) ≡ false = ground arith in
    elim (Bool-cases (ltb room (tux_rec_len (length name)))) [
      | inl short ↦ rw short (lookup-short name room (entry ∷ rest) h (ground (arith, short)))
      | inr space ↦ elim (Bool-cases (tux_match entry name)) [
        | inl hit ↦
            rw (space, longer, hit)
              (0, omega arith, omega arith, hit, lookup-hit name entry rest hit)
        | inr miss ↦ rw (space, longer, miss) (IsFoundIn-skip name at entry rest _ miss later)
      ]
    ]

-- what an answer of the search in a directory says, for the blocks from number `block` on
abbrev pub IsFound : (name : List ℕ) (block : ℕ) → List Block → Answer (ℕ × ℕ) → Type 0
IsFound name block blocks enoent = lookup name (live_dir blocks) ≡ none
IsFound name block blocks (ok (number, at)) =
    (b : ℕ) × (number ≡ block + b)
    × (b < length blocks)
    × (at < length (get_or blocks b []))
    × (tux_match (get_or (get_or blocks b []) at no_entry) name ≡ true)
    × (lookup name (live_dir blocks)
        ≡ some (
          (get_or (get_or blocks b []) at no_entry).inum,
          (get_or (get_or blocks b []) at no_entry).kind,
        ))
IsFound name block blocks _ = ⊥

lookup-none :
    (name : List ℕ) (entries : Block) (blocks : List Block)
    → lookup name (live entries) ≡ none
    → lookup name (live_dir (entries ∷ blocks)) ≡ lookup name (live_dir blocks)
unfolding live_dir
lookup-none name entries blocks h = lookup-append name (live entries) (live_dir blocks) ∙ rw h refl

lookup-some :
    (name : List ℕ) (entries : Block) (blocks : List Block) (v : ℕ × ℕ)
    → lookup name (live entries) ≡ some v
    → lookup name (live_dir (entries ∷ blocks)) ≡ some v
unfolding live_dir
lookup-some name entries blocks v h =
    lookup-append name (live entries) (live_dir blocks) ∙ rw h refl

IsFound-behind :
    (name : List ℕ) (block : ℕ) (entries : Block) (blocks : List Block) (answer : Answer (ℕ × ℕ))
    → lookup name (live entries) ≡ none
    → IsFound name (block + 1) blocks answer
    → IsFound name block (entries ∷ blocks) answer
IsFound-behind name block entries blocks enoent absent h =
    lookup-none name entries blocks absent ∙ h
IsFound-behind name block entries blocks (ok (number, at)) absent h =
    let (b, e, inside, place, m, l) = h in
    (suc b, omega arith, omega arith, place, m, lookup-none name entries blocks absent ∙ l)
IsFound-behind name block entries blocks eio absent h = elim h [ ]
IsFound-behind name block entries blocks failed absent h = elim h [ ]
IsFound-behind name block entries blocks enotempty absent h = elim h [ ]
IsFound-behind name block entries blocks (errno e) absent h = elim h [ ]

module _ (blocksize : ℕ) (name : List ℕ) (read_fails : ℕ → Bool)
    (reads : (b : ℕ) → read_fails b ≡ false) where
  IsFound-block :
      (block : ℕ) (entries : Block) (blocks : List Block) (w : Walk ℕ) (later : Answer (ℕ × ℕ))
      → IsFoundIn name 0 entries w
      → IsFound name (block + 1) blocks later
      → IsFound name block
          (entries ∷ blocks)
          (elim w [ passed ↦ later | zero_length ↦ failed | stopped at ↦ ok (block, at) ])
  IsFound-block block entries blocks passed later h more =
      IsFound-behind name block entries blocks later h more
  IsFound-block block entries blocks zero_length later h more = elim h [ ]
  IsFound-block block entries blocks (stopped place) later h more =
      let (k, e, b, m, l) = h in
      let here : place ≡ k = omega arith in
      rw here (0, omega arith, omega arith, b, m, lookup-some name entries blocks _ l)

  find_in_blocks-IsFound :
      (block : ℕ) (blocks : List Block)
      → AreBlocks blocksize blocks
      → IsFound name block blocks (find_in_blocks blocksize read_fails name block blocks)
  unfolding find_in_blocks live_dir
  find_in_blocks-IsFound block [] h = refl
  find_in_blocks-IsFound block (entries ∷ blocks) h =
      let (one, more) = h in
      rw (reads block) (
        IsFound-block block entries blocks _ _
          (find_in_block-IsFoundIn blocksize name 0 entries one)
          (find_in_blocks-IsFound (block + 1) blocks more))

  -- In a directory of well-formed blocks that can all be read, the search for a name ends with the place of
  -- an entry that matches the name, whose inode number and type are the ones that the directory holds under
  -- the name, or with ENOENT when it holds the name nowhere: it ends with no other answer.
  pub tux_find_entry-IsFound :
      (blocks : List Block)
      → AreBlocks blocksize blocks
      → IsFound name 0 blocks (tux_find_entry blocksize read_fails name blocks)
  unfolding tux_find_entry
  tux_find_entry-IsFound blocks h = find_in_blocks-IsFound 0 blocks h
