-- ===== src/Replay.antt =====
-- kernel/replay.c: the check of a log block and the two stages of replay. What an entry makes the file
-- system do (kernel/btree.c, kernel/balloc.c, kernel/orphan.c, the buffers) is an interface over a state
-- of any type; its calls return the error that ends the replay.
pub mod Decode
pub mod Loop
pub mod Blocks
pub mod Check
pub mod Tests
use tux3_fuse.Prelude.{
  ℕ, zero, suc, ◌+◌, ◌-◌, ◌≤◌, ◌<◌, leb, Bool, true, false, Option, none, some, List, [], ◌∷◌, ◌++◌,
  ltb, ◌==◌, if◌then◌else◌, length, drop, ◌%◌, ◌^◌,
}
use tux3_fuse.Codec.{◌>>=◌, decode16, decode32, decode48}
use tux3_fuse.Log.{Code, log_size, code_of, LogBlock}
use tux3_fuse.Log.Entry.{Entry}

pub record Handlers (S : Type 0) : Type 0 where
  pub bnode_redirect : (oldblock newblock : ℕ) → S → S × Option ℕ
  pub bnode_root : (root count left right rkey : ℕ) → S → S × Option ℕ
  pub bnode_split : (src pos dst : ℕ) → S → S × Option ℕ
  pub bnode_add : (parent child key : ℕ) → S → S × Option ℕ
  pub bnode_update : (parent child key : ℕ) → S → S × Option ℕ
  pub bnode_merge : (src dst : ℕ) → S → S × Option ℕ
  pub bnode_del : (bnode key count : ℕ) → S → S × Option ℕ
  pub bnode_adjust : (bnode from to : ℕ) → S → S × Option ℕ
  pub set_freeblocks : ℕ → S → S
  pub update_bitmap : (start blocks : ℕ) → Bool → S → S × Option ℕ
  pub defer_bfree : (block count : ℕ) → S → S
  pub blockput_free_unify : ℕ → S → S
  pub orphan_add : (version inum : ℕ) → S → S × Option ℕ
  pub orphan_del : (version inum : ℕ) → S → S × Option ℕ

-- How a pass over a block ends: through, with the error of a call, at a code that is none, or past the
-- end of the data.
pub data Result : Type 0 where
  done einval overrun : Result
  failed : ℕ → Result

-- the fields behind the code, read in the order of the source
abbrev pub decode48s : List ℕ → Option (ℕ × ℕ × List ℕ)
decode48s at = do (a, at₁) ← decode48 at; (b, at₂) ← decode48 at₁; some (a, b, at₂)

abbrev pub decode48s₃ : List ℕ → Option (ℕ × ℕ × ℕ × List ℕ)
decode48s₃ at = do (a, at₁) ← decode48 at; (b, c, at₂) ← decode48s at₁; some (a, b, c, at₂)

abbrev pub decode16_48 : List ℕ → Option (ℕ × ℕ × List ℕ)
decode16_48 at = do (a, at₁) ← decode16 at; (b, at₂) ← decode48 at₁; some (a, b, at₂)

abbrev pub decode32_48 : List ℕ → Option (ℕ × ℕ × List ℕ)
decode32_48 at = do (a, at₁) ← decode32 at; (b, at₂) ← decode48 at₁; some (a, b, at₂)

abbrev pub decode16_48s : List ℕ → Option (ℕ × ℕ × ℕ × List ℕ)
decode16_48s at = do (a, at₁) ← decode16 at; (b, c, at₂) ← decode48s at₁; some (a, b, c, at₂)

abbrev pub decode_root : List ℕ → Option (Entry × List ℕ)
decode_root [] = none
decode_root (count ∷ at) = do
  (root, left, at₁) ← decode48s at
  (right, rkey, at₂) ← decode48s at₁
  some (Entry.bnode_root root count left right rkey, at₂)

unfoldable pub decode_entry : Code → List ℕ → Option (Entry × List ℕ)
decode_entry Code.balloc at = do
  (count, block, at') ← decode32_48 at
  some (Entry.balloc block count, at')
decode_entry Code.bfree at = do
  (count, block, at') ← decode32_48 at
  some (Entry.bfree block count, at')
decode_entry Code.bfree_on_unify at = do
  (count, block, at') ← decode32_48 at
  some (Entry.bfree_on_unify block count, at')
decode_entry Code.bfree_relog at = do
  (count, block, at') ← decode32_48 at
  some (Entry.bfree_relog block count, at')
decode_entry Code.leaf_redirect at = do
  (a, b, at') ← decode48s at
  some (Entry.leaf_redirect a b, at')
decode_entry Code.bnode_redirect at = do
  (a, b, at') ← decode48s at
  some (Entry.bnode_redirect a b, at')
decode_entry Code.leaf_free at = do (block, at') ← decode48 at; some (Entry.leaf_free block, at')
decode_entry Code.bnode_free at = do (block, at') ← decode48 at; some (Entry.bnode_free block, at')
decode_entry Code.freeblocks at = do (count, at') ← decode48 at; some (Entry.freeblocks count, at')
decode_entry Code.bnode_root at = decode_root at
decode_entry Code.bnode_split at = do
  (pos, src, dst, at') ← decode16_48s at
  some (Entry.bnode_split src pos dst, at')
decode_entry Code.bnode_add at = do
  (parent, child, key, at') ← decode48s₃ at
  some (Entry.bnode_add parent child key, at')
decode_entry Code.bnode_update at = do
  (parent, child, key, at') ← decode48s₃ at
  some (Entry.bnode_update parent child key, at')
decode_entry Code.bnode_merge at = do
  (src, dst, at') ← decode48s at
  some (Entry.bnode_merge src dst, at')
decode_entry Code.bnode_del at = do
  (count, bnode, key, at') ← decode16_48s at
  some (Entry.bnode_del bnode key count, at')
decode_entry Code.bnode_adjust at = do
  (bnode, from, to, at') ← decode48s₃ at
  some (Entry.bnode_adjust bnode from to, at')
decode_entry Code.orphan_add at = do
  (version, inum, at') ← decode16_48 at
  some (Entry.orphan_add version inum, at')
decode_entry Code.orphan_del at = do
  (version, inum, at') ← decode16_48 at
  some (Entry.orphan_del version inum, at')
decode_entry Code.unify at = some (Entry.unify, at)
decode_entry Code.delta at = some (Entry.delta, at)

-- the code of a byte; `none` is a byte that is no code
abbrev pub all_codes : List Code
all_codes =
    Code.balloc ∷ Code.bfree ∷ Code.bfree_on_unify ∷ Code.bfree_relog ∷ Code.leaf_redirect
    ∷ Code.leaf_free ∷ Code.bnode_redirect ∷ Code.bnode_root ∷ Code.bnode_split ∷ Code.bnode_add
    ∷ Code.bnode_update ∷ Code.bnode_merge ∷ Code.bnode_del ∷ Code.bnode_adjust ∷ Code.bnode_free
    ∷ Code.orphan_add ∷ Code.orphan_del ∷ Code.freeblocks ∷ Code.unify ∷ Code.delta ∷ []

abbrev pub find_code : ℕ → List Code → Option Code
find_code n [] = none
find_code n (c ∷ cs) = if n == code_of c then some c else find_code n cs

unfoldable pub code_at : ℕ → Option Code
code_at n = find_code n all_codes

-- The codes whose cases a stage acts on; the others it steps over by their size.
abbrev pub stage1_acts : Code → Bool
stage1_acts Code.bnode_redirect = true
stage1_acts Code.bnode_root = true
stage1_acts Code.bnode_split = true
stage1_acts Code.bnode_add = true
stage1_acts Code.bnode_update = true
stage1_acts Code.bnode_merge = true
stage1_acts Code.bnode_del = true
stage1_acts Code.bnode_adjust = true
stage1_acts Code.freeblocks = true
stage1_acts _ = false

abbrev pub stage2_acts : Code → Bool
stage2_acts Code.freeblocks = false
stage2_acts Code.bnode_add = false
stage2_acts Code.bnode_update = false
stage2_acts Code.bnode_del = false
stage2_acts Code.bnode_adjust = false
stage2_acts Code.unify = false
stage2_acts Code.delta = false
stage2_acts _ = true

-- go on after a call that returned no error
abbrev pub then_do {ℓ} : {S : Type ℓ} → S × Option ℕ → (S → S × Option ℕ) → S × Option ℕ
then_do (s, none) k = k s
then_do (s, some e) k = (s, some e)

module _ {S : Type 0} (h : Handlers S) where
  unfoldable pub stage1_case : Entry → S → S × Option ℕ
  stage1_case (Entry.bnode_redirect oldblock newblock) s = h.bnode_redirect oldblock newblock s
  stage1_case (Entry.bnode_root root count left right rkey) s =
      h.bnode_root root count left right rkey s
  stage1_case (Entry.bnode_split src pos dst) s = h.bnode_split src pos dst s
  stage1_case (Entry.bnode_add parent child key) s = h.bnode_add parent child key s
  stage1_case (Entry.bnode_update parent child key) s = h.bnode_update parent child key s
  stage1_case (Entry.bnode_merge src dst) s = h.bnode_merge src dst s
  stage1_case (Entry.bnode_del bnode key count) s = h.bnode_del bnode key count s
  stage1_case (Entry.bnode_adjust bnode from to) s = h.bnode_adjust bnode from to s
  stage1_case (Entry.freeblocks count) s = (h.set_freeblocks count s, none)
  stage1_case _ s = (s, none)

  unfoldable pub stage2_case : Entry → S → S × Option ℕ
  stage2_case (Entry.balloc block count) s = h.update_bitmap block count true s
  stage2_case (Entry.bfree_on_unify block count) s = (h.defer_bfree block count s, none)
  stage2_case (Entry.bfree block count) s = h.update_bitmap block count false s
  stage2_case (Entry.bfree_relog block count) s = h.update_bitmap block count false s
  stage2_case (Entry.leaf_redirect oldblock newblock) s =
      then_do (h.update_bitmap newblock 1 true s) (λ s. h.update_bitmap oldblock 1 false s)
  stage2_case (Entry.bnode_redirect oldblock newblock) s =
      then_do (h.update_bitmap newblock 1 true s) (λ s. (h.defer_bfree oldblock 1 s, none))
  stage2_case (Entry.leaf_free block) s = h.update_bitmap block 1 false s
  stage2_case (Entry.bnode_free block) s =
      then_do (h.update_bitmap block 1 false s) (λ s. (h.blockput_free_unify block s, none))
  stage2_case (Entry.bnode_root root count left right rkey) s = h.update_bitmap root 1 true s
  stage2_case (Entry.bnode_split src pos dst) s = h.update_bitmap dst 1 true s
  stage2_case (Entry.bnode_merge src dst) s =
      then_do (h.update_bitmap src 1 false s) (λ s. (h.blockput_free_unify src s, none))
  stage2_case (Entry.orphan_add version inum) s = h.orphan_add version inum s
  stage2_case (Entry.orphan_del version inum) s = h.orphan_del version inum s
  stage2_case _ s = (s, none)

-- `if (err) return err`, and the rest of the pass
abbrev pub after_case : {S : Type 0} → (S → S × Result) → S × Option ℕ → S × Result
after_case next (s, none) = next s
after_case next (s, some e) = (s, failed e)

module _ {S : Type 0} (acts : Code → Bool) (perform : Entry → S → S × Option ℕ) where
  -- One case of the switch: `at` is the data behind the code, and `next` the rest of the loop after so
  -- many more bytes.
  abbrev pub replay_case : (ℕ → List ℕ → S → S × Result) → S → Code → List ℕ → S × Result
  replay_case next s c at =
      if acts c
      then elim (decode_entry c at) [
        | none ↦ (s, overrun)
        | some (e, at') ↦ after_case (next (length at - length at') at') (perform e s)
      ]
      else next (log_size c - 1) (drop (log_size c - 1) at) s

  -- `while (data < log->data + log->bytes)`; `limit` counts the bytes of the data that lie behind it.
  unfoldable pub replay_loop : ℕ → ℕ → List ℕ → S → S × Result
  unfolding decode_entry code_at
  replay_loop zero limit at s = (s, overrun)
  replay_loop (suc fuel) limit [] s = if limit == 0 then (s, done) else (s, overrun)
  replay_loop (suc fuel) limit (byte ∷ at) s =
      if limit == 0 then (s, done) else elim (code_at byte) [
        | none ↦ (s, einval)
        | some c ↦ replay_case (λ n. replay_loop fuel (limit - 1 - n)) s c at
      ]

-- the part of `struct replay` that the passes use: where the latest unify mark stands, if one was found
pub record Found : Type 0 where
  pub unify_index : Option ℕ
  pub unify_pos : ℕ

-- `log_size[code]`, an array of LOG_TYPES = 0x47 entries: 0 for a byte that is no code, and `none` for a
-- read past the array
unfoldable pub log_size_at : ℕ → Option ℕ
unfolding code_at
log_size_at byte = elim (code_at byte) [
  | some c ↦ some (log_size c)
  | none ↦ if ltb byte 0x47 then some 0 else none
]

-- `if (code == LOG_UNIFY && rp->unify_index == -1)`
abbrev pub note_unify : Found → (index pos byte : ℕ) → Found
note_unify found index pos byte =
    if byte == code_of Code.unify
    then elim found.unify_index [
      | none ↦ record { unify_index = some index; unify_pos = pos }
      | some i ↦ found
    ]
    else found

unfoldable pub check_loop : ℕ → (index bytes pos : ℕ) → List ℕ → Found → Found × Result
unfolding log_size_at
check_loop zero index bytes pos at found = (found, overrun)
check_loop (suc fuel) index bytes pos [] found =
    if leb bytes pos then (found, done) else (found, overrun)
check_loop (suc fuel) index bytes pos (byte ∷ at) found =
    let found' = note_unify found index pos byte in
    if leb bytes pos then (found, done) else elim (log_size_at byte) [
      | none ↦ (found', overrun)
      | some size ↦ elim (size == 0) [
        | true ↦ (found', einval)
        | false ↦ check_loop fuel index bytes (pos + size) (drop (size - 1) at) found'
      ]
    ]

-- `magic_ok` is the test of the header's magic.
unfoldable pub replay_check_log :
    (space : ℕ) → Bool → (index : ℕ) → LogBlock → Found → Found × Result
unfolding check_loop
replay_check_log space magic_ok index block found =
    if magic_ok
    then if ltb space block.bytes
      then (found, einval)
      else check_loop (suc block.bytes) index block.bytes 0 block.body found
    else (found, einval)

-- Where a pass starts in a log block; `none` is a block before the latest unify.
abbrev pub start_of : Option ℕ → (index unify_pos : ℕ) → Option ℕ
start_of none index unify_pos = some 0
start_of (some at) index unify_pos =
    if ltb index at then none else if index == at then some unify_pos else some 0

module _ {S : Type 0} (h : Handlers S) (found : Found) where
  abbrev pub pass :
      (Code → Bool) → (Entry → S → S × Option ℕ) → Option ℕ → LogBlock → S → S × Result
  pass acts perform none block s = (s, done)
  pass acts perform (some pos) block s =
      replay_loop acts perform (suc block.bytes) (block.bytes - pos) (drop pos block.body) s

  unfoldable pub replay_log_stage1 : (index blocknr : ℕ) → LogBlock → S → S × Result
  unfolding replay_loop stage1_case
  replay_log_stage1 index blocknr block s =
      pass stage1_acts (stage1_case h) (start_of found.unify_index index found.unify_pos) block s

  unfoldable pub replay_log_stage2 : (index blocknr : ℕ) → LogBlock → S → S × Result
  unfolding replay_loop stage2_case
  replay_log_stage2 index blocknr block s =
      after_case
        (λ s.
          pass stage2_acts (stage2_case h) (start_of found.unify_index index found.unify_pos) block
            (h.defer_bfree blocknr 1 s))
        (h.update_bitmap blocknr 1 true s)

-- go on to the next log block after a pass that ran to its end
abbrev pub after_pass {ℓ} : {S : Type ℓ} → (S → S × Result) → S × Result → S × Result
after_pass next (s, done) = next s
after_pass next (s, r) = (s, r)

-- The blocks of the log with their addresses, from the first one of the cycle on.
unfoldable pub replay_logblocks {ℓ} :
    {S : Type ℓ}
    → ((index blocknr : ℕ) → LogBlock → S → S × Result)
    → ℕ
    → List (ℕ × LogBlock)
    → S
    → S × Result
replay_logblocks stage lognext [] s = (s, done)
replay_logblocks stage lognext ((blocknr, block) ∷ blocks) s =
    after_pass (replay_logblocks stage (lognext + 1) blocks) (stage lognext blocknr block s)
