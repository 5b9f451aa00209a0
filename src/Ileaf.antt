-- ===== src/Ileaf.antt =====
-- kernel/ileaf.c: the leaf of the inode table, a table of attribute bytes with a dictionary of offsets. The
-- table is the list of the bytes between the header and the end of the block, and the dictionary (which
-- grows down from that end) the list of its entries up to `count`, entry 1 first.
pub mod Ends
pub mod Chunks
pub mod Memory
pub mod Resize
pub mod Trim
pub mod Chop
pub mod Split
pub mod Merge
pub mod Find
pub mod Access
mod Tests
use tux3_fuse.Prelude.{
  ℕ, zero, suc, ◌+◌, ◌-◌, ◌*◌, ◌/◌, ◌%◌, ◌^◌, ◌≤◌, Bool, true, false, ◌&&◌, ◌||◌, not, Option, none,
  some, List, [], ◌∷◌, ◌++◌, ltb, leb, ◌==◌, if◌then◌else◌, length, get_or, take, drop, replicate,
  min,
}

pub record Ileaf : Type 0 where
  pub ibase : ℕ
  pub dict : List ℕ
  pub table : List ℕ

-- The `at`-th entry, counted from 1, where `base` stands for entry 0.
abbrev pub limit_at : ℕ → List ℕ → ℕ → ℕ
limit_at base dict zero = base
limit_at base dict (suc at) = get_or dict at 0

abbrev pub atdict : List ℕ → ℕ → ℕ
atdict dict at = limit_at 0 dict at

abbrev pub icount : Ileaf → ℕ
icount leaf = length leaf.dict

-- `add_idict` with `n` on every entry behind the first `from` ones
abbrev pub add_idict_from : (from n : ℕ) → List ℕ → List ℕ
add_idict_from from n [] = []
add_idict_from zero n (x ∷ dict) = ((x + n) % 2 ^ 16) ∷ add_idict_from zero n dict
add_idict_from (suc from) n (x ∷ dict) = x ∷ add_idict_from from n dict

-- `-n` and `a - b` as they are added to a 16-bit entry
abbrev pub minus16 : (a b : ℕ) → ℕ
minus16 a b = a + 2 ^ 16 - b

-- memmove inside the table
abbrev pub memmove : (table : List ℕ) (dst src n : ℕ) → List ℕ
memmove table dst src n = take dst table ++ (take n (drop src table) ++ drop (dst + n) table)

unfoldable pub ileaf_need : Ileaf → ℕ
ileaf_need leaf = atdict leaf.dict (icount leaf) + icount leaf * 2

-- whether `ileaf_free(leaf) < wanted - given`, a comparison of signed numbers
unfoldable pub lacks_free : (blocksize : ℕ) → Ileaf → (wanted given : ℕ) → Bool
lacks_free blocksize leaf wanted given = ltb (blocksize + given) (ileaf_need leaf + 16 + wanted)

abbrev pub ileaf_can_free : Ileaf → Bool
ileaf_can_free leaf = icount leaf == 0

-- the offset of the attributes, or NULL, and their size
unfoldable pub ileaf_lookup : (inum : ℕ) → Ileaf → Option (Option ℕ × ℕ)
ileaf_lookup inum leaf =
    let at = inum - leaf.ibase in
    let offset = atdict leaf.dict at in
    let size = (atdict leaf.dict (at + 1) + 2 ^ 32 - offset) % 2 ^ 32 in
    if ltb inum leaf.ibase
    then none
    else some (
        if ltb at (icount leaf)
        then ((if size == 0 then none else some offset), size)
        else (none, 0))

-- no entry below the one before it
unfoldable pub isinorder : (offset : ℕ) → List ℕ → Bool
isinorder offset [] = true
isinorder offset (limit ∷ dict) =
    let later = isinorder limit dict in if ltb limit offset then false else later

-- The count that the loop of the trim ends with; entry 0 stands for the test of the first entry.
unfoldable pub trim_loop : List ℕ → (count : ℕ) → ℕ
trim_loop dict zero = 0
trim_loop dict (suc count) =
    let fewer = trim_loop dict count in
    if atdict dict (suc count) == atdict dict count then fewer else suc count

unfoldable pub ileaf_trim : Ileaf → Ileaf
ileaf_trim leaf = record leaf { dict = take (trim_loop leaf.dict (icount leaf)) leaf.dict }

pub record SplitResult : Type 0 where
  pub key : ℕ
  pub from : Ileaf
  pub into : Ileaf

-- `hint & ~(entries_per_leaf - 1)`, which is a power of two
abbrev pub round_down : (entries_per_leaf n : ℕ) → ℕ
round_down entries_per_leaf n = n - n % entries_per_leaf

-- The copy of the inodes from `at` on into a leaf whose table is `space`, which gets the base `key`; `none`
-- is the failed assert.
unfoldable pub split_at : (at key : ℕ) → (leaf : Ileaf) → (space : List ℕ) → Option SplitResult
split_at at key leaf space =
    let split = atdict leaf.dict at in
    let free = atdict leaf.dict (icount leaf) in
    if ltb free split
    then none
    else some (record {
      key = key;
      from = ileaf_trim (record {
        ibase = leaf.ibase;
        dict = take at leaf.dict;
        table = take split leaf.table ++ replicate (length leaf.table - split) 0;
      });
      into = record {
        ibase = key;
        dict = add_idict_from 0 (minus16 0 split) (drop at leaf.dict);
        table = take (free - split) (drop split leaf.table) ++ drop (free - split) space;
      };
    })

-- with the hint as SPLIT_AT_INUM has it
unfoldable pub ileaf_split :
    (entries_per_leaf hint : ℕ) → (leaf : Ileaf) → (space : List ℕ) → Option SplitResult
ileaf_split entries_per_leaf hint leaf space =
    let hint' = if hint == leaf.ibase then hint + 1 else hint in
    let at = min ((hint' + 2 ^ 64 - leaf.ibase) % 2 ^ 64) (icount leaf) in
    let round = round_down entries_per_leaf hint' in
    split_at at (if ltb (leaf.ibase + icount leaf) round then round else hint') leaf space

-- Whether it merged, and the leaf that it merged into; `none` is the failed assert, or a write outside of the
-- block. `hole` and `need` are of 32 bits with a sign, the count is stored in 16.
unfoldable pub ileaf_merge : (blocksize : ℕ) → (into from : Ileaf) → Option (Bool × Ileaf)
ileaf_merge blocksize into from =
    let count = icount into in
    let hole = (from.ibase - into.ibase + count) % 2 ^ 32 in
    let need = (hole * 2 + ileaf_need from) % 2 ^ 32 in
    let limit = atdict into.dict count in
    let filled = into.dict ++ replicate hole limit in
    let fromlimit = atdict from.dict (icount from) in
    if icount from == 0
    then some (true, into)
    else if leb from.ibase into.ibase
    then none
    else if lacks_free blocksize into (need % 2 ^ 31) (need / 2 ^ 31 * 2 ^ 31)
    then some (false, into)
    else if lacks_free blocksize into (hole * 2 + ileaf_need from) 0
    then none
    else some (
      true,
      record into {
        dict = take ((count + hole + icount from) % 2 ^ 16) (
            (if limit == 0
              then filled
              else add_idict_from 0 limit (take (icount from) filled) ++ drop (icount from) filled)
            ++ from.dict);
        table =
            take limit into.table
            ++ (take fromlimit from.table ++ drop (limit + fromlimit) into.table);
      },
    )

-- whether the leaf was modified, and the leaf
unfoldable pub ileaf_chop : (start len : ℕ) → Ileaf → Bool × Ileaf
ileaf_chop start len leaf =
    let count = icount leaf in
    let at = (start + 2 ^ 64 - leaf.ibase) % 2 ^ 64 in
    let len' = min len (count - at) in
    let startp = atdict leaf.dict at in
    let endp = atdict leaf.dict (at + len') in
    let tailp = atdict leaf.dict count in
    if ltb count (at + 1) then (false, leaf) else if startp == endp then (false, leaf) else (
      true,
      ileaf_trim (record leaf {
        dict = add_idict_from at (minus16 0 (endp - startp)) leaf.dict;
        table = memmove leaf.table startp endp (tailp - endp);
      }),
    )

-- The attribute space of `at`, `size` bytes at `offset`, changed to `newsize` bytes; `none` is a failed
-- assert, and the answer the offset in the changed leaf.
unfoldable pub resize_space : (at newsize offset size : ℕ) → Ileaf → Option (Option (ℕ × Ileaf))
resize_space at newsize offset size leaf =
    let limit = atdict leaf.dict (icount leaf) in
    if newsize == size
    then some (some (offset, leaf))
    else if ltb limit (offset + size)
    then none
    else some (
        some (
          offset,
          record leaf {
            dict = add_idict_from at (minus16 newsize size) leaf.dict;
            table = memmove leaf.table (offset + newsize) (offset + size) (limit - offset - size);
          },
        ))

-- The answer is NULL, or the offset of the attributes in the changed leaf.
unfoldable pub resize_at : (blocksize at newsize : ℕ) → Ileaf → Option (Option (ℕ × Ileaf))
resize_at blocksize at newsize leaf =
    let count = icount leaf in
    let extend = ltb count (at + 1) in
    let extra = if extend then at + 1 - count else 0 in
    let offset = atdict leaf.dict (if extend then count else at) in
    let size = if extend then 0 else atdict leaf.dict (at + 1) - offset in
    if extend && leb blocksize ((at + 1) * 2)
    then some none
    else if lacks_free blocksize leaf (newsize + extra * 2) size
    then some none
    else resize_space at newsize offset size
        (record leaf { dict = leaf.dict ++ replicate extra (atdict leaf.dict count) })

unfoldable pub ileaf_resize :
    (blocksize inum : ℕ) → Ileaf → (newsize : ℕ) → Option (Option (ℕ × Ileaf))
ileaf_resize blocksize inum leaf newsize =
    if ltb inum leaf.ibase then none else resize_at blocksize (inum - leaf.ibase) newsize leaf

unfoldable pub ileaf_split_hint : (entries_per_leaf : ℕ) → Ileaf → (key : ℕ) → ℕ
ileaf_split_hint entries_per_leaf leaf key =
    if leb (leaf.ibase + icount leaf) key
    then round_down entries_per_leaf key
    else leaf.ibase + icount leaf / 2

-- The loop of the search: the entries behind `at` are `dict`.
abbrev pub find_gap : (at offset : ℕ) → List ℕ → ℕ
find_gap at offset [] = at
find_gap at offset (limit ∷ dict) =
    let later = find_gap (at + 1) limit dict in if offset == limit then at else later

-- the free inode number, if one is found
unfoldable pub ileaf_find_free : (key_limit : ℕ) → Ileaf → (key len : ℕ) → Option ℕ
ileaf_find_free key_limit leaf key len =
    let at = (key + 2 ^ 64 - leaf.ibase) % 2 ^ 64 in
    let found =
      if ltb at (icount leaf) then find_gap at (atdict leaf.dict at) (drop at leaf.dict) else at in
    if ltb (leaf.ibase + found) (min key_limit ((key + len) % 2 ^ 64))
    then some (leaf.ibase + found)
    else none
