-- ===== src/Dleaf2.antt =====
-- kernel/dleaf2.c: the extent leaf of a file's btree. A stored extent is its two words in the order of
-- the machine; a leaf is the list of its entries up to `count`. `none` is a failed assert.
pub mod Words
pub mod Extents
pub mod Split
pub mod Merge
pub mod Tests
use tux3_fuse.Prelude.{
  ℕ, zero, suc, ◌+◌, ◌-◌, ◌*◌, ◌/◌, ◌%◌, ◌^◌, ◌≤◌, Bool, true, false, ◌&&◌, ◌||◌, not, Option, none,
  some, List, [], ◌∷◌, ◌++◌, bit_and, bit_or, ltb, leb, ◌==◌, if◌then◌else◌, length, get_or, take,
  drop,
}
use tux3_fuse.Codec.{◌>>=◌}

pub record DiskExtent : Type 0 where
  pub verhi_logical : ℕ
  pub verlo_physical : ℕ

pub record Extent : Type 0 where
  pub version : ℕ
  pub logical : ℕ
  pub physical : ℕ

-- `1 << VER_BITS`
abbrev pub ver_mask : ℕ
ver_mask = 2 ^ 16

unfoldable pub get_logical : DiskExtent → ℕ
get_logical dex = dex.verhi_logical % 2 ^ 48

unfoldable pub get_extent : DiskExtent → Extent
get_extent dex = record {
  version = bit_or (dex.verhi_logical / 2 ^ 48 * 2 ^ 16 % 2 ^ 32) (dex.verlo_physical / 2 ^ 48);
  logical = dex.verhi_logical % 2 ^ 48;
  physical = dex.verlo_physical % 2 ^ 48;
}

unfoldable pub put_extent : (version logical physical : ℕ) → DiskExtent
put_extent version logical physical =
    let verhi = version / 2 ^ 16 in
    let verlo = bit_and version ver_mask in
    record {
      verhi_logical = bit_or (verhi * 2 ^ 48 % 2 ^ 64) logical;
      verlo_physical = bit_or (verlo * 2 ^ 48 % 2 ^ 64) physical;
    }

abbrev pub Table : Type 0
Table = List DiskExtent

abbrev pub physical_of : DiskExtent → ℕ
physical_of dex = (get_extent dex).physical

-- the entry read where there may be none
abbrev pub zero_extent : DiskExtent
zero_extent = record { verhi_logical = 0; verlo_physical = 0 }

abbrev pub entry : Table → ℕ → DiskExtent
entry table i = get_or table i zero_extent

-- The loop of the lookup: `i` entries lie before `rest`.
abbrev pub lookup_from : ℕ → ℕ → Table → Option ℕ
lookup_from index i [] = some i
lookup_from index i (dex ∷ rest) =
    let next = lookup_from index (i + 1) rest in
    if index == get_logical dex
    then some i
    else if ltb index (get_logical dex)
    then (if i == 0 then none else some (i - 1))
    else next

-- The position of the last entry at or below `index`; at the end of the table the last entry must be a
-- sentinel.
unfoldable pub dleaf2_lookup_index : Table → ℕ → Option ℕ
unfolding get_logical get_extent
dleaf2_lookup_index table index = do
  i ← lookup_from index 0 table
  (if i == length table && not (length table == 0) && not (physical_of (entry table (i - 1)) == 0)
      then none
      else some i)

pub record SplitResult : Type 0 where
  pub key : ℕ
  pub from : Table
  pub into : Table

unfoldable pub dleaf2_split : (hint : ℕ) → (from into : Table) → Option SplitResult
dleaf2_split hint from into = if ltb (length from) 3 then none else do
  at ← dleaf2_lookup_index from hint
  let ex = get_extent (entry from at)
  let last = get_extent (entry from (at - 1))
  (if at == length from
      then (if last.physical == 0
          then some (record { key = last.logical; from = from; into = into })
          else none)
      else some (record {
        key = ex.logical;
        from = take at from ++ put_extent ex.version ex.logical 0 ∷ [];
        into = drop at from;
      }))

pub record MergeResult : Type 0 where
  pub merged : Bool
  pub into : Table
  pub from : Table

unfoldable pub dleaf2_merge : (entries_per_leaf : ℕ) → (into from : Table) → Option MergeResult
dleaf2_merge entries_per_leaf into from =
    let into_count = length into in
    let from_count = length from in
    let into_ex = get_extent (entry into (into_count - 1)) in
    let from_ex = get_extent (entry from 0) in
    let can_merge = if from_ex.physical == 0 || into_ex.logical == from_ex.logical then 1 else 0 in
    if leb from_count 1
    then some (record { merged = true; into = into; from = from })
    else if into_count == 0
    then some (record { merged = true; into = from; from = [] })
    else if not (leb into_ex.logical from_ex.logical) || not (into_ex.physical == 0)
    then none
    else if ltb entries_per_leaf (into_count + from_count - can_merge)
    then some (record { merged = false; into = into; from = from })
    else some (record {
      merged = true;
      into =
          if from_ex.physical == 0
          then into ++ drop 1 from
          else if into_ex.logical == from_ex.logical
          then take (into_count - 1) into ++ from
          else into ++ from;
      from = [];
    })

-- The blocks that the loop of a chop gives to `defer_bfree` and `log_bfree`, as starts and counts: the
-- entries of `rest` end the extents before them.
abbrev pub freed_from : (start block : ℕ) → Table → List (ℕ × ℕ)
freed_from start block [] = []
freed_from start block (dex ∷ rest) =
    let ex = get_extent dex in
    let count = (ex.logical + 2 ^ 64 - start) % 2 ^ 32 in
    let later = freed_from ex.logical ex.physical rest in
    if not (block == 0) && not (count == 0) then (block, count) ∷ later else later

pub record ChopResult : Type 0 where
  pub modified : Bool
  pub table : Table
  pub freed : List (ℕ × ℕ)

-- The cases of the chop point `ex` at position `at`: the entries that stay, and what the loop starts with.
abbrev pub chop_at : (version start at : ℕ) → Table → ChopResult
chop_at version start at table =
    let ex = get_extent (entry table at) in
    let prev = get_extent (entry table (at - 1)) in
    if start == ex.logical
    then if ltb 0 at && prev.physical == 0
      then record {
        modified = true;
        table = take at table;
        freed = freed_from start ex.physical (drop at table);
      }
      else record {
        modified = true;
        table = take at table ++ put_extent version start 0 ∷ [];
        freed = freed_from start ex.physical (drop (at + 1) table);
      }
    else if ex.physical == 0
    then record {
      modified = true;
      table = take (at + 1) table;
      freed = freed_from ex.logical 0 (drop (at + 1) table);
    }
    else record {
      modified = true;
      table = take (at + 1) table ++ put_extent version start 0 ∷ [];
      freed = freed_from start (ex.physical + (start - ex.logical)) (drop (at + 1) table);
    }

-- `len` is always TUXKEY_LIMIT, which the source asserts.
unfoldable pub dleaf2_chop : (version start : ℕ) → Table → Option ChopResult
dleaf2_chop version start table =
    if length table == 0 then some (record { modified = false; table = table; freed = [] }) else do
      at ← dleaf2_lookup_index table start
      (if leb (length table - 1) at
          then some (record { modified = false; table = table; freed = [] })
          else some (chop_at version start at table))
