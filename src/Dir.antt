-- ===== src/Dir.antt =====
-- kernel/dir.c: the entries of a directory. A block is the list of its entries in order, each with its
-- record length in bytes as it is in memory, and a directory the list of its blocks. Where a loop compares
-- the address of an entry with the end of the block, `room` counts the bytes from the one to the other.
-- Entries are named by their place in the list in place of their address.
pub mod Block
pub mod Find
pub mod Create
pub mod Delete
pub mod Empty
mod Tests
use tux3_fuse.Prelude.{
  ℕ, zero, suc, ◌+◌, ◌-◌, ◌*◌, ◌/◌, ◌%◌, ◌^◌, Bool, true, false, ◌&&◌, ◌||◌, not, Option, none,
  some, List, [], ◌∷◌, ◌++◌, ltb, leb, ◌==◌, if◌then◌else◌, length, get_or, take,
}

-- `name_len`, a byte on disk, is the length of the name.
pub record Dirent : Type 0 where
  pub rec_len : ℕ
  pub inum : ℕ
  pub kind : ℕ
  pub name : List ℕ

abbrev pub Block : Type 0
Block = List Dirent

-- TUX_REC_LEN, with the 12 bytes in front of the name
abbrev pub tux_rec_len : ℕ → ℕ
tux_rec_len name_len = (name_len + 12 + 7) / 8 * 8

-- the 16 bits on disk; `none` is a failed assert
unfoldable pub tux_rec_len_to_disk : ℕ → Option ℕ
tux_rec_len_to_disk len =
    if ltb (2 ^ 16) len then none else some (if len == 2 ^ 16 then 2 ^ 16 - 1 else len)

unfoldable pub tux_rec_len_from_disk : ℕ → ℕ
tux_rec_len_from_disk dlen = if dlen == 2 ^ 16 - 1 then 2 ^ 16 else dlen

unfoldable pub is_deleted : Dirent → Bool
is_deleted entry = length entry.name == 0

-- memcmp of two names of one length
abbrev pub same_bytes : List ℕ → List ℕ → Bool
same_bytes [] [] = true
same_bytes (x ∷ xs) (y ∷ ys) = (x == y) && same_bytes xs ys
same_bytes _ _ = false

unfoldable pub tux_match : Dirent → List ℕ → Bool
unfolding is_deleted
tux_match entry name =
    (length name == length entry.name) && (not (is_deleted entry) && same_bytes name entry.name)

-- `S_IFMT >> STAT_SHIFT` of a mode, as the table tux_type_by_mode maps it
abbrev pub tux_type_by_mode : ℕ → ℕ
tux_type_by_mode mode =
    let format = mode / 2 ^ 12 % 16 in
    if format == 8
    then 1
    else if format == 4
    then 2
    else if format == 2
    then 3
    else if format == 6
    then 4
    else if format == 1
    then 5
    else if format == 12
    then 6
    else if format == 10
    then 7
    else 0

-- How the loop over one block ends: past the last entry, at an entry of no length, or at the place of one.
pub data Walk (A : Type 0) : Type 0 where
  passed zero_length : Walk A
  stopped : A → Walk A

unfoldable pub find_in_block : (reclen room : ℕ) → (name : List ℕ) → (at : ℕ) → Block → Walk ℕ
find_in_block reclen room name at [] = passed
find_in_block reclen room name at (entry ∷ rest) =
    let later = find_in_block reclen (room - entry.rec_len) name (at + 1) rest in
    if ltb room reclen
    then passed
    else if entry.rec_len == 0
    then zero_length
    else if tux_match entry name
    then stopped at
    else later

-- the errors EIO and ENOENT, and any other of blockdirty; `failed` is a failed assert, such as the one that ends
-- tux_zero_len_error, which reports an entry of no length
pub data Answer (A : Type 0) : Type 0 where
  eio enoent enotempty failed : Answer A
  errno : ℕ → Answer A
  ok : A → Answer A

module _ (blocksize : ℕ) (read_fails : ℕ → Bool) where
  -- The loop over the blocks from number `block` on; the answer is the block and the place in it.
  unfoldable pub find_in_blocks : (name : List ℕ) → (block : ℕ) → List Block → Answer (ℕ × ℕ)
  find_in_blocks name block [] = enoent
  find_in_blocks name block (entries ∷ blocks) =
      let later = find_in_blocks name (block + 1) blocks in
      if read_fails block
      then eio
      else elim (find_in_block (tux_rec_len (length name)) blocksize name 0 entries) [
        | passed ↦ later
        | zero_length ↦ failed
        | stopped at ↦ ok (block, at)
      ]

  unfoldable pub tux_find_entry : (name : List ℕ) → List Block → Answer (ℕ × ℕ)
  tux_find_entry name blocks = find_in_blocks name 0 blocks

-- the length of a name, as a byte holds it
abbrev pub short : List ℕ → List ℕ
short name = take (length name % 2 ^ 8) name

-- an entry with everything but its length
abbrev pub filled : Dirent → (name : List ℕ) → (inum mode : ℕ) → Dirent
filled entry name inum mode = record {
  rec_len = entry.rec_len;
  inum = inum;
  kind = tux_type_by_mode mode;
  name = short name;
}

-- The entry for the new name inside one that has the space: in place of a deleted one, or behind one that
-- is in use.
abbrev pub carve : Dirent → (name : List ℕ) → (inum mode : ℕ) → Block
carve entry name inum mode =
    let name_len = tux_rec_len (length entry.name) in
    if is_deleted entry
    then filled entry name inum mode ∷ []
    else record entry { rec_len = name_len }
      ∷ filled (record entry { rec_len = entry.rec_len - name_len }) name inum mode
      ∷ []

-- The first entry with space for the name: the block with the name in it, and the offset of its entry.
unfoldable pub create_in_block :
    (reclen room : ℕ) → (name : List ℕ) → (inum mode offset : ℕ) → Block → Walk (Block × ℕ)
create_in_block reclen room name inum mode offset [] = passed
create_in_block reclen room name inum mode offset (entry ∷ rest) =
    let later =
      create_in_block reclen (room - entry.rec_len) name inum mode (offset + entry.rec_len) rest in
    let name_len = tux_rec_len (length entry.name) in
    let place = if is_deleted entry then offset else offset + name_len in
    if ltb room reclen
    then passed
    else if entry.rec_len == 0
    then zero_length
    else if (is_deleted entry && leb reclen entry.rec_len) || leb (name_len + reclen) entry.rec_len
    then stopped (carve entry name inum mode ++ rest, place)
    else elim later [
      | passed ↦ passed
      | zero_length ↦ zero_length
      | stopped (entries, at) ↦ stopped (entry ∷ entries, at)
    ]

-- a directory and a position in it
abbrev pub Created : Type 0
Created = List Block × ℕ

abbrev pub behind_block : Block → Answer Created → Answer Created
behind_block entries (ok (blocks, where_)) = ok (entries ∷ blocks, where_)
behind_block entries e = e

module _ (blocksize : ℕ) (read_fails : ℕ → Bool) (dirty_error : ℕ → Option ℕ) where
  -- blockdirty of the block, then the change
  abbrev pub dirtied : {A : Type 0} → ℕ → A → Answer A
  dirtied block a = elim (dirty_error block) [ none ↦ ok a | some e ↦ errno e ]

  unfoldable pub create_in_blocks :
      (name : List ℕ) → (inum mode block : ℕ) → List Block → Answer Created
  create_in_blocks name inum mode block [] =
      let empty : Dirent = record { rec_len = blocksize; inum = 0; kind = 0; name = [] } in
      elim (dirty_error block) [
        | some e ↦ errno e
        | none ↦ elim (tux_rec_len_to_disk blocksize) [
          | none ↦ failed
          | some dlen ↦ ok ((filled empty name inum mode ∷ []) ∷ [], block * blocksize)
        ]
      ]
  create_in_blocks name inum mode block (entries ∷ blocks) =
      let later = create_in_blocks name inum mode (block + 1) blocks in
      if read_fails block
      then eio
      else elim (create_in_block (tux_rec_len (length name)) blocksize name inum mode 0 entries) [
        | passed ↦ behind_block entries later
        | zero_length ↦ failed
        | stopped (entries', offset) ↦ dirtied block (entries' ∷ blocks, block * blocksize + offset)
      ]

  -- the directory with the name in it, and the position of its entry
  unfoldable pub tux_create_entry : (name : List ℕ) → (inum mode : ℕ) → List Block → Answer Created
  tux_create_entry name inum mode blocks = create_in_blocks name inum mode 0 blocks

-- The entry at a place is cleared, and joined to the one before it, if there is one; `none` is a record of
-- no length before it.
unfoldable pub delete_in_block : (at : ℕ) → Block → Option Block
delete_in_block at [] = some []
delete_in_block zero (entry ∷ rest) =
    some (record { rec_len = entry.rec_len; inum = 0; kind = 0; name = [] } ∷ rest)
delete_in_block (suc zero) (prev ∷ []) = if prev.rec_len == 0 then none else some (prev ∷ [])
delete_in_block (suc zero) (prev ∷ entry ∷ rest) =
    if prev.rec_len == 0
    then none
    else some (record prev { rec_len = prev.rec_len + entry.rec_len } ∷ rest)
delete_in_block (suc (suc at)) (this ∷ rest) =
    let later = delete_in_block (suc at) rest in
    if this.rec_len == 0
    then none
    else elim later [ none ↦ none | some entries ↦ some (this ∷ entries) ]

-- The deletion in the block that the lookup found, which is number `block`.
unfoldable pub tux_delete_entry :
    (dirty_error : ℕ → Option ℕ) → (block at : ℕ) → Block → Answer Block
tux_delete_entry dirty_error block at entries = elim (delete_in_block at entries) [
  | none ↦ failed
  | some entries' ↦ elim (dirty_error block) [ none ↦ ok entries' | some e ↦ errno e ]
]

-- whether an entry in use is other than "." (for the directory itself) and ".."
abbrev pub counts : (self : ℕ) → Dirent → Bool
counts self entry =
    not (get_or entry.name 0 0 == 46)
    || (ltb 2 (length entry.name)
        || (if ltb (length entry.name) 2
            then not (entry.inum == self)
            else not (get_or entry.name 1 0 == 46)))

unfoldable pub empty_block : (self room : ℕ) → Block → Walk Bool
empty_block self room [] = passed
empty_block self room (entry ∷ rest) =
    let later = empty_block self (room - entry.rec_len) rest in
    if ltb room (tux_rec_len 1)
    then passed
    else if entry.rec_len == 0
    then zero_length
    else if is_deleted entry
    then later
    else if counts self entry
    then stopped true
    else later

module _ (blocksize : ℕ) (read_fails : ℕ → Bool) (self : ℕ) where
  unfoldable pub empty_blocks : (block : ℕ) → List Block → Answer Bool
  empty_blocks block [] = ok true
  empty_blocks block (entries ∷ blocks) =
      let later = empty_blocks (block + 1) blocks in
      if read_fails block then eio else elim (empty_block self blocksize entries) [
        | passed ↦ later
        | zero_length ↦ failed
        | stopped _ ↦ enotempty
      ]

  unfoldable pub tux_dir_is_empty : List Block → Answer Bool
  tux_dir_is_empty blocks = empty_blocks 0 blocks
