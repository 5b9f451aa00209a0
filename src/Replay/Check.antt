-- ===== src/Replay/Check.antt =====
-- kernel/replay.c: the check that every log block passes before replay.
use tux3_fuse.Prelude.{
  le→not_ltb, le→leb, ℕ, zero, suc, ◌+◌, ◌-◌, ◌<◌, ◌≡◌, refl, sym, true, false, some, List, [], ◌∷◌,
  ◌++◌, arith, length, length-append, leb, ◌==◌, Bool, Option, none, ap, ◌∙◌, Bool-cases, inl, inr,
}
use mathlib.Core.List.{append_assoc}
use tux3_fuse.Log.{Code, LogBlock, log_size, code_of}
use tux3_fuse.Log.Entry.{Entry, code, stored, length-stored}
use tux3_fuse.Log.Holds.{bytes_of, BlockHolds}
use tux3_fuse.Replay.{Found, done, check_loop, replay_check_log, note_unify, log_size_at}
use tux3_fuse.Replay.Decode.{fields, stored-fields}
use tux3_fuse.Replay.Loop.{log_size-pos, length-fields, drop-append}

-- what the loop notes
unfoldable pub first_unify : ℕ → ℕ → List Entry → Found → Found
first_unify index pos [] found = found
first_unify index pos (e ∷ es) found =
    first_unify index (pos + log_size (code e)) es (note_unify found index pos (code_of (code e)))

log_size_at-code_of : (c : Code) → log_size_at (code_of c) ≡ some (log_size c)
unfolding log_size_at
log_size_at-code_of Code.balloc = refl
log_size_at-code_of Code.bfree = refl
log_size_at-code_of Code.bfree_on_unify = refl
log_size_at-code_of Code.bfree_relog = refl
log_size_at-code_of Code.leaf_redirect = refl
log_size_at-code_of Code.leaf_free = refl
log_size_at-code_of Code.bnode_redirect = refl
log_size_at-code_of Code.bnode_root = refl
log_size_at-code_of Code.bnode_split = refl
log_size_at-code_of Code.bnode_add = refl
log_size_at-code_of Code.bnode_update = refl
log_size_at-code_of Code.bnode_merge = refl
log_size_at-code_of Code.bnode_del = refl
log_size_at-code_of Code.bnode_adjust = refl
log_size_at-code_of Code.bnode_free = refl
log_size_at-code_of Code.orphan_add = refl
log_size_at-code_of Code.orphan_del = refl
log_size_at-code_of Code.freeblocks = refl
log_size_at-code_of Code.unify = refl
log_size_at-code_of Code.delta = refl

check_loop-entries :
    (es : List Entry) (fuel index bytes pos : ℕ) (pad : List ℕ) (found : Found)
    → pos + length (bytes_of es) ≡ bytes
    → length (bytes_of es) < fuel
    → check_loop fuel index bytes pos (bytes_of es ++ pad) found
      ≡ (first_unify index pos es found, done)
unfolding check_loop first_unify
check_loop-entries es zero index bytes pos pad found e h = absurd (omega arith)
check_loop-entries [] (suc fuel) index bytes pos [] found e h =
    rw (le→leb bytes pos (omega arith)) refl
check_loop-entries [] (suc fuel) index bytes pos (x ∷ pad) found e h =
    rw (le→leb bytes pos (omega arith)) refl
check_loop-entries (x ∷ es) (suc fuel) index bytes pos pad found e h =
    rw (stored-fields x, not_done, log_size_at-code_of (code x), not_zero, sym size)
      (rw (append_assoc (fields x) (bytes_of es) pad, drop-append (fields x) (bytes_of es ++ pad))
        (check_loop-entries es fuel index bytes (pos + log_size (code x)) pad
          (note_unify found index pos (code_of (code x)))
          (omega (arith, length-append (stored x) (bytes_of es), length-stored x))
          (omega (
            arith,
            length-append (stored x) (bytes_of es),
            length-stored x,
            log_size-pos (code x),
          ))))
  where
    not_done : leb bytes pos ≡ false
    not_done =
        ground
          (arith, length-append (stored x) (bytes_of es), length-stored x, log_size-pos (code x))

    not_zero : (log_size (code x) == 0) ≡ false
    not_zero = ground (arith, log_size-pos (code x))

    size : length (fields x) ≡ log_size (code x) - 1
    size = omega (arith, length-fields x)

-- The specification: a log call of log_unify, and entries with no such call.
abbrev pub is_mark : Entry → Bool
is_mark Entry.unify = true
is_mark _ = false

abbrev pub NoMark : List Entry → Type 0
NoMark [] = Unit {0}
NoMark (e ∷ es) = (is_mark e ≡ false) × NoMark es

is_mark-code : (e : Entry) → (code_of (code e) == code_of Code.unify) ≡ is_mark e
is_mark-code (Entry.balloc _ _) = refl
is_mark-code (Entry.bfree _ _) = refl
is_mark-code (Entry.bfree_on_unify _ _) = refl
is_mark-code (Entry.bfree_relog _ _) = refl
is_mark-code (Entry.leaf_redirect _ _) = refl
is_mark-code (Entry.leaf_free _) = refl
is_mark-code (Entry.bnode_redirect _ _) = refl
is_mark-code (Entry.bnode_root _ _ _ _ _) = refl
is_mark-code (Entry.bnode_split _ _ _) = refl
is_mark-code (Entry.bnode_add _ _ _) = refl
is_mark-code (Entry.bnode_update _ _ _) = refl
is_mark-code (Entry.bnode_merge _ _) = refl
is_mark-code (Entry.bnode_del _ _ _) = refl
is_mark-code (Entry.bnode_adjust _ _ _) = refl
is_mark-code (Entry.bnode_free _) = refl
is_mark-code (Entry.orphan_add _ _) = refl
is_mark-code (Entry.orphan_del _ _) = refl
is_mark-code (Entry.freeblocks _) = refl
is_mark-code Entry.unify = refl
is_mark-code Entry.delta = refl

-- What is noted after a block with the entries `es`, where `before` was noted in the blocks read before.
abbrev pub IsNoted : (index : ℕ) → List Entry → (before after : Found) → Type 0
IsNoted index es before after =
    ((i : ℕ) → before.unify_index ≡ some i → after ≡ before)
    × (NoMark es → after ≡ before)
    × ((pre post : List Entry)
        → before.unify_index ≡ none
        → es ≡ pre ++ Entry.unify ∷ post
        → NoMark pre
        → after ≡ record { unify_index = some index; unify_pos = length (bytes_of pre) })

noted-before :
    (index pos i : ℕ) (es : List Entry) (at : ℕ)
    → first_unify index pos es (record { unify_index = some i; unify_pos = at })
      ≡ record { unify_index = some i; unify_pos = at }
unfolding first_unify
noted-before index pos i [] at = refl
noted-before index pos i (e ∷ es) at = elim (Bool-cases (code_of (code e) == code_of Code.unify)) [
  | inl mark ↦ rw mark (noted-before index (pos + log_size (code e)) i es at)
  | inr other ↦ rw other (noted-before index (pos + log_size (code e)) i es at)
]

noted-NoMark :
    (index pos : ℕ) (es : List Entry) (found : Found)
    → NoMark es
    → first_unify index pos es found ≡ found
unfolding first_unify
noted-NoMark index pos [] found h = refl
noted-NoMark index pos (e ∷ es) found h =
    rw (is_mark-code e ∙ h.0) (noted-NoMark index (pos + log_size (code e)) es found h.1)

note_unify-other :
    (found : Found) (index pos : ℕ) (e : Entry)
    → is_mark e ≡ false
    → note_unify found index pos (code_of (code e)) ≡ found
note_unify-other found index pos e h = rw (is_mark-code e ∙ h) refl

noted-first :
    (index pos at : ℕ) (pre post : List Entry)
    → NoMark pre
    → first_unify index pos
        (pre ++ Entry.unify ∷ post)
        (record { unify_index = none; unify_pos = at })
      ≡ record { unify_index = some index; unify_pos = pos + length (bytes_of pre) }
unfolding first_unify
noted-first index pos at [] post h =
    noted-before index (pos + 1) index post pos
    ∙ ap (λ (p : ℕ). record { unify_index = some index; unify_pos = p }) (omega arith)
noted-first index pos at (e ∷ pre) post h =
    ap (first_unify index (pos + log_size (code e)) (pre ++ Entry.unify ∷ post))
      (note_unify-other (record { unify_index = none; unify_pos = at }) index pos e h.0)
    ∙ noted-first index (pos + log_size (code e)) at pre post h.1
    ∙ ap (λ (p : ℕ). record { unify_index = some index; unify_pos = p })
        (omega (arith, length-append (stored e) (bytes_of pre), length-stored e))

first_unify-IsNoted :
    (index : ℕ) (es : List Entry) (o : Option ℕ) (at : ℕ)
    → IsNoted index es
        (record { unify_index = o; unify_pos = at })
        (first_unify index 0 es (record { unify_index = o; unify_pos = at }))
first_unify-IsNoted index es o at = (
  λ i e.
      ap (λ (p : Option ℕ). first_unify index 0 es (record { unify_index = p; unify_pos = at })) e
      ∙ noted-before index 0 i es at
      ∙ ap (λ (p : Option ℕ). record { unify_index = p; unify_pos = at }) (sym e),
  noted-NoMark index 0 es (record { unify_index = o; unify_pos = at }),
  λ pre post e split h.
      ap (λ (p : Option ℕ). first_unify index 0 es (record { unify_index = p; unify_pos = at })) e
      ∙ ap
          (λ (l : List Entry).
            first_unify index 0 l (record { unify_index = none; unify_pos = at }))
          split
      ∙ noted-first index 0 at pre post h
      ∙ ap (λ (p : ℕ). record { unify_index = some index; unify_pos = p }) (omega arith),
)

-- `replay_check_log` accepts every block that the log calls left, provided its magic is right. Where no unify
-- mark was found in the blocks read before, it notes the first one in the block, if there is one, with the index
-- of the block and the count of the bytes in front of it; otherwise it changes nothing.
pub replay_check_log-holds :
    (space index : ℕ) (b : LogBlock) (es : List Entry) (found : Found)
    → BlockHolds space b es
    → (after : Found) × (replay_check_log space true index b found ≡ (after, done))
      × IsNoted index es found after
unfolding replay_check_log
replay_check_log-holds space index b es found h = (
  first_unify index 0 es found,
  rw (le→not_ltb space b.bytes h.fits, h.leads)
      (check_loop-entries es (suc b.bytes) index b.bytes 0 _ found (omega (arith, h.counts))
        (omega (arith, h.counts))),
  first_unify-IsNoted index es found.unify_index found.unify_pos,
)
