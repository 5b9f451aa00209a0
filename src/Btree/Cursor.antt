-- ===== src/Btree/Cursor.antt =====
-- kernel/btree.c: the cursor over the path from the root of a btree to a leaf. The path is the list of its
-- levels of index nodes, the deepest one first, with the leaf beside it. Buffers are named by their block
-- numbers, and the place `next` in a node by its index. `read_fails` says where vol_bread returns none.
pub mod Leaves
pub mod Steps
pub mod Order
pub mod Checked
pub mod Probe
pub mod Ends
pub mod Hanging
pub mod Next
mod Tests
use tux3_fuse.Prelude.{
  ◌&&◌, ℕ, zero, suc, ◌+◌, ◌-◌, ◌*◌, ◌^◌, ◌%◌, Bool, true, false, Option, none, some, List, [], ◌∷◌,
  ◌++◌, ltb, leb, ◌==◌, if◌then◌else◌, length, get_or, min,
}
use tux3_fuse.Btree.{IndexEntry, Node, no_entry, bnode_lookup}

pub record PathLevel : Type 0 where
  pub buffer : ℕ
  pub next : ℕ

abbrev pub Path_ : Type 0
Path_ = List PathLevel

-- TUXKEY_LIMIT
abbrev pub tuxkey_limit : ℕ
tuxkey_limit = 2 ^ 48

-- the entry at `next`, read as zeros where there is none
abbrev pub next_entry : (ℕ → Node) → PathLevel → IndexEntry
next_entry nodes at = get_or (nodes at.buffer) at.next no_entry

abbrev pub level_finished : (ℕ → Node) → PathLevel → Bool
level_finished nodes at = at.next == length (nodes at.buffer)

unfoldable pub cursor_next_key : (ℕ → Node) → Path_ → ℕ
cursor_next_key nodes [] = tuxkey_limit
cursor_next_key nodes (at ∷ path) =
    let above = cursor_next_key nodes path in
    if level_finished nodes at then above else (next_entry nodes at).key

unfoldable pub cursor_this_key : (ℕ → Node) → Path_ → ℕ
cursor_this_key nodes [] = 0
cursor_this_key nodes (at ∷ path) = (get_or (nodes at.buffer) (at.next - 1) no_entry).key

-- How a descent ends: with the answer -EIO, a failed assert, or at a leaf.
pub data Descent : Type 0 where
  eio failed : Descent
  at_leaf : (leaf : ℕ) → Path_ → Descent

-- How an advance ends: as a descent, or past the last leaf.
pub data Advance : Type 0 where
  finished : Advance
  descended : Descent → Advance

-- The checks of cursor_check from the root down: the block and the key that the levels so far lead to, or none
-- when one of the levels fails its check.
module _ (nodes : ℕ → Node) (root : ℕ) where
  abbrev pub this_entry : PathLevel → IndexEntry
  this_entry at = get_or (nodes at.buffer) (at.next - 1) no_entry

  abbrev pub is_checked : (block key : ℕ) → PathLevel → Bool
  is_checked block key at =
      (at.buffer == block)
      && ((leb 1 at.next && leb at.next (length (nodes at.buffer)))
          && (if at.next == 1 then (this_entry at).key == key else ltb key (this_entry at).key))

  unfoldable pub check_levels : Path_ → Option (ℕ × ℕ)
  check_levels [] = some (root, 0)
  check_levels (at ∷ path) = elim (check_levels path) [
    | none ↦ none
    | some (block, key) ↦
        if is_checked block key at then some ((this_entry at).block, (this_entry at).key) else none
  ]

  -- whether the asserts of cursor_check hold, for the buffer at the head of the path and the levels above it
  unfoldable pub cursor_check : (buffer : ℕ) → Path_ → Bool
  cursor_check buffer path = elim (check_levels path) [
    | none ↦ false
    | some (block, key) ↦ buffer == block
  ]

module _ (read_fails : ℕ → Bool) (nodes : ℕ → Node) (root : ℕ) where
  -- the end of a step down: the buffer of the child is read, pushed and checked, then `d` follows
  abbrev pub pushed : (child : ℕ) → Path_ → Descent → Descent
  pushed child path d =
      if read_fails child then eio else if cursor_check nodes root child path then d else failed

  -- One step down: the child at `next` of the level, the first of `levels` more nodes or a leaf, which is read
  -- after `next` was moved past it.
  unfoldable pub descend : (levels : ℕ) → PathLevel → Path_ → Descent
  descend zero at path =
      let child = (next_entry nodes at).block in
      let path' : Path_ = record at { next = at.next + 1 } ∷ path in
      pushed child path' (at_leaf child path')
  descend (suc levels) at path =
      let child = (next_entry nodes at).block in
      let path' : Path_ = record at { next = at.next + 1 } ∷ path in
      let below = descend levels (record { buffer = child; next = 0 }) path' in
      pushed child path' below

  -- The levels that are left when the finished ones are popped, from the parent of the leaf on.
  unfoldable pub climb : Path_ → Path_
  climb [] = []
  climb (at ∷ path) = let above = climb path in if level_finished nodes at then above else at ∷ path

  -- The descent from what the climb left, in a btree of this depth.
  abbrev pub go_down : (depth : ℕ) → Path_ → Advance
  go_down depth [] = finished
  go_down depth (at ∷ path) = descended (descend (depth - 1 - length path) at path)

  unfoldable pub cursor_advance : (depth : ℕ) → Path_ → Advance
  cursor_advance depth path = go_down depth (climb path)

  -- The loop of btree_probe in a node: the lookup of the key, then the step down.
  unfoldable pub probe_down : (key levels block : ℕ) → Path_ → Descent
  probe_down key zero block path = elim (bnode_lookup (nodes block) key) [
    | none ↦ failed
    | some next ↦ descend zero (record { buffer = block; next = next }) path
  ]
  probe_down key (suc levels) block path =
      let below = λ (next : ℕ).
        probe_down key levels (get_or (nodes block) next no_entry).block
          (record { buffer = block; next = next + 1 } ∷ path) in
      elim (bnode_lookup (nodes block) key) [
        | none ↦ failed
        | some next ↦
            pushed (get_or (nodes block) next no_entry).block
              (record { buffer = block; next = next + 1 } ∷ path) (below next)
      ]

  -- `depth` counts the levels of index nodes; a btree with no root is a failed assert.
  unfoldable pub btree_probe : (depth key : ℕ) → Descent
  btree_probe zero key = failed
  btree_probe (suc levels) key = if read_fails root then eio else probe_down key levels root []

-- What the callback of a traversal is given and returns: its own state with 0, or the value that stops it.
abbrev pub Visit : Type 0 → Type 0
Visit S = (bottom limit leaf key len : ℕ) → S → S × ℕ

-- How a traversal ends: an error of the advance, 0 or the value of the callback, each with the state.
pub data Traversal (S : Type 0) : Type 0 where
  out_of_fuel : Traversal S
  broken : Descent → S → Traversal S
  returned : ℕ → S → Traversal S

module _ (read_fails : ℕ → Bool) (nodes : ℕ → Node) (root depth : ℕ) {S : Type 0}
    (visit : Visit S) where
  -- after a visit
  abbrev pub traverse_on :
      (again : ℕ → Path_ → S → Traversal S) → Path_ → (key len : ℕ) → S × ℕ → Traversal S
  traverse_on again path key len (s, suc stop) = returned (suc stop) s
  traverse_on again path key len (s, zero) =
      if leb ((key + len) % 2 ^ 64) (cursor_next_key nodes path)
      then returned 0 s
      else elim (cursor_advance read_fails nodes root depth path) [
        | finished ↦ returned 0 s
        | descended (at_leaf leaf path') ↦ again leaf path' s
        | descended broken_ ↦ broken broken_ s
      ]

  -- The loop at a leaf; an advance past the last leaf ends it with 0.
  unfoldable pub btree_traverse : (fuel : ℕ) → (leaf : ℕ) → Path_ → (key len : ℕ) → S → Traversal S
  btree_traverse zero leaf path key len s = out_of_fuel
  btree_traverse (suc fuel) leaf path key len s =
      let bottom = cursor_this_key nodes path in
      let skipped = ltb key bottom in
      let len' = if skipped then len - min len (bottom - key) else len in
      let key' = if skipped then bottom else key in
      if skipped && len' == 0
      then returned 0 s
      else traverse_on (λ leaf' path' s'. btree_traverse fuel leaf' path' key' len' s') path key'
          len' (visit bottom (cursor_next_key nodes path) leaf key' len' s)
