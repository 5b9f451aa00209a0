-- ===== src/Dir/Empty.antt =====
-- kernel/dir.c: the test for an empty directory.
use tux3_fuse.Prelude.{
  ℕ, ◌+◌, ◌-◌, ◌≡◌, refl, Bool, true, false, ◌&&◌, ◌||◌, not, Bool-cases, inl, inr, List, [], ◌∷◌,
  ◌++◌, ltb, ◌==◌, if◌then◌else◌, length, arith,
}
use tux3_fuse.Dir.{
  Block, tux_rec_len, is_deleted, same_bytes, counts, passed, stopped, empty_block, empty_blocks,
  tux_dir_is_empty, ok, enotempty,
}
use tux3_fuse.Dir.Block.{IsBlock, AreBlocks, Named, named, live, live_dir}

-- "." for the directory itself, or ".."
abbrev pub is_dots : (self : ℕ) → Named → Bool
is_dots self (name, (inum, kind)) =
    (same_bytes name (46 ∷ []) && inum == self) || same_bytes name (46 ∷ 46 ∷ [])

abbrev pub only_dots : (self : ℕ) → List Named → Bool
only_dots self [] = true
only_dots self (n ∷ rest) = is_dots self n && only_dots self rest

only_dots-append :
    (self : ℕ) (xs ys : List Named)
    → only_dots self (xs ++ ys) ≡ (only_dots self xs && only_dots self ys)
only_dots-append self [] ys = refl
only_dots-append self (x ∷ xs) ys = ground (arith, only_dots-append self xs ys)

counts-is_dots :
    (self len inum kind : ℕ) (name : List ℕ)
    → (length name == 0) ≡ false
    → counts self (record { rec_len = len; inum = inum; kind = kind; name = name })
      ≡ not (is_dots self (name, (inum, kind)))
counts-is_dots self len inum kind [] h = absurd (ground (arith, h))
counts-is_dots self len inum kind (a ∷ []) h = ground arith
counts-is_dots self len inum kind (a ∷ b ∷ []) h = ground arith
counts-is_dots self len inum kind (a ∷ b ∷ c ∷ rest) h = ground arith

empty_block-only_dots :
    (self room : ℕ) (entries : Block)
    → IsBlock room entries
    → empty_block self room entries
      ≡ (if only_dots self (live entries) then passed else stopped true)
unfolding empty_block is_deleted live
empty_block-only_dots self room [] h = refl
empty_block-only_dots self room (entry ∷ rest) h =
    let (fits, inside, more) = h in
    let later = empty_block-only_dots self (room - entry.rec_len) rest more in
    let long : ltb room (tux_rec_len 1) ≡ false = ground arith in
    let longer : (entry.rec_len == 0) ≡ false = ground arith in
    elim (Bool-cases (length entry.name == 0)) [
      | inl gone ↦ rw (long, longer, gone) later
      | inr here ↦
          let same = counts-is_dots self entry.rec_len entry.inum entry.kind entry.name here in
          elim (Bool-cases (is_dots self (named entry))) [
            | inl dots ↦ rw (long, longer, here, same, dots) later
            | inr other ↦ rw (long, longer, here, same, other) refl
          ]
    ]

module _ (blocksize self : ℕ) (read_fails : ℕ → Bool) (reads : (b : ℕ) → read_fails b ≡ false) where
  empty_blocks-only_dots :
      (block : ℕ) (blocks : List Block)
      → AreBlocks blocksize blocks
      → empty_blocks blocksize read_fails self block blocks
        ≡ (if only_dots self (live_dir blocks) then ok true else enotempty)
  unfolding empty_blocks live_dir
  empty_blocks-only_dots block [] h = refl
  empty_blocks-only_dots block (entries ∷ blocks) h =
      let (one, more) = h in
      let first = empty_block-only_dots self blocksize entries one in
      let later = empty_blocks-only_dots (block + 1) blocks more in
      let split = only_dots-append self (live entries) (live_dir blocks) in
      elim (Bool-cases (only_dots self (live entries))) [
        | inl dots ↦ rw (reads block, first, split, dots) later
        | inr other ↦ rw (reads block, first, split, other) refl
      ]

  -- In a directory of well-formed blocks that can all be read, the test for an empty directory succeeds when
  -- every name that the directory holds is ".", with the inode number of the directory itself, or "..", and
  -- answers ENOTEMPTY when it holds another.
  pub tux_dir_is_empty-only_dots :
      (blocks : List Block)
      → AreBlocks blocksize blocks
      → tux_dir_is_empty blocksize read_fails self blocks
        ≡ (if only_dots self (live_dir blocks) then ok true else enotempty)
  unfolding tux_dir_is_empty
  tux_dir_is_empty-only_dots blocks h = empty_blocks-only_dots 0 blocks h
