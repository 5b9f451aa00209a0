-- ===== src/Dir/Delete.antt =====
-- kernel/dir.c: the deletion of an entry takes exactly that one out of the block.
use tux3_fuse.Prelude.{
  subst, ℕ, zero, suc, ◌+◌, ◌-◌, ◌<◌, ◌≡◌, refl, sym, false, Bool-cases, inl, inr, Option, none,
  some, [], ◌∷◌, ◌==◌, length, get_or, arith,
}
use tux3_fuse.Dir.{Dirent, Block, delete_in_block, tux_delete_entry, Answer, ok, failed, errno}
use tux3_fuse.Dir.Block.{IsBlock, Named, named, live, live-deleted, live-used}
use tux3_fuse.Dir.Find.{no_entry}
use tux3_fuse.Dir.Create.{IsInserted, IsInserted-behind}

-- One entry in front of both blocks; its record may be longer in the one.
live-IsInserted :
    (new : Named) (entry : Dirent) (len : ℕ) (before after : Block)
    → IsInserted new (live after) (live before)
    → IsInserted new (live (record entry { rec_len = len } ∷ after)) (live (entry ∷ before))
live-IsInserted new entry len before after h = elim (Bool-cases (length entry.name == 0)) [
  | inl gone ↦
      rw (live-deleted entry before gone, live-deleted (record entry { rec_len = len }) after gone)
        h
  | inr here ↦
      rw (live-used entry before here, live-used (record entry { rec_len = len }) after here)
        (IsInserted-behind new (named entry ∷ []) (live after) (live before) h)
]

-- what is left of a block when the entry at a place is taken out
abbrev pub IsRemoved : (room at : ℕ) → Block → Block → Type 0
IsRemoved room at entries entries' =
    IsBlock room entries'
    × IsInserted (named (get_or entries at no_entry)) (live entries') (live entries)

joined-IsBlock :
    (room : ℕ) (prev entry : Dirent) (rest : Block)
    → IsBlock room (prev ∷ entry ∷ rest)
    → IsBlock room (record prev { rec_len = prev.rec_len + entry.rec_len } ∷ rest)
joined-IsBlock room prev entry rest h =
    let (fits, inside, second) = h in
    let (fits', inside', more) = second in
    let left : room - prev.rec_len - entry.rec_len ≡ room - (prev.rec_len + entry.rec_len) =
      omega arith in
    (omega arith, omega arith, subst (λ (r : ℕ). IsBlock r rest) left more)

pub delete_in_block-IsRemoved :
    (room at : ℕ) (entries : Block)
    → IsBlock room entries
    → at < length entries
    → (length (get_or entries at no_entry).name == 0) ≡ false
    → (entries' : Block) × (delete_in_block at entries ≡ some entries')
      × IsRemoved room at entries entries'
unfolding delete_in_block
delete_in_block-IsRemoved room at [] h b used = absurd (omega arith)
delete_in_block-IsRemoved room zero (entry ∷ rest) h b used =
    let (fits, inside, more) = h in
    (
      _,
      refl,
      (
        (omega arith, inside, more),
        ([], live rest, live-deleted _ rest refl, live-used entry rest used),
      ),
    )
delete_in_block-IsRemoved room (suc zero) (prev ∷ []) h b used = absurd (omega arith)
delete_in_block-IsRemoved room (suc zero) (prev ∷ entry ∷ rest) h b used =
    let (fits, inside, second) = h in
    let longer : (prev.rec_len == 0) ≡ false = ground arith in
    (
      _,
      rw longer refl,
      (
        joined-IsBlock room prev entry rest h,
        live-IsInserted (named entry) prev (prev.rec_len + entry.rec_len) (entry ∷ rest) rest
            ([], live rest, refl, live-used entry rest used),
      ),
    )
delete_in_block-IsRemoved room (suc (suc at)) (this ∷ rest) h b used =
    let (fits, inside, more) = h in
    let longer : (this.rec_len == 0) ≡ false = ground arith in
    let later =
      delete_in_block-IsRemoved (room - this.rec_len) (suc at) rest more (omega arith) used in
    let (rest', e, left) = later in
    let (whole, removed) = left in
    (
      this ∷ rest',
      rw (longer, e) refl,
      ((fits, inside, whole), live-IsInserted _ this this.rec_len rest rest' removed),
    )

module _ (dirty_error : ℕ → Option ℕ) where
  -- what an answer of the deletion says of the block
  abbrev pub IsDeleted : (room at : ℕ) → Block → Answer Block → Type 0
  IsDeleted room at entries (ok entries') = IsRemoved room at entries entries'
  IsDeleted room at entries (errno e) = (b : ℕ) × (dirty_error b ≡ some e)
  IsDeleted room at entries _ = ⊥

  -- The deletion of the entry at a place of a well-formed block, when that entry is in use, either fails with
  -- an error of blockdirty or leaves a well-formed block of the same length, which holds the same names with
  -- their inode numbers and types in the same order, without the one of that entry.
  pub tux_delete_entry-IsDeleted :
      (room block at : ℕ) (entries : Block)
      → IsBlock room entries
      → at < length entries
      → (length (get_or entries at no_entry).name == 0) ≡ false
      → IsDeleted room at entries (tux_delete_entry dirty_error block at entries)
  unfolding tux_delete_entry
  tux_delete_entry-IsDeleted room block at entries h b used =
      let (entries', e, removed) = delete_in_block-IsRemoved room at entries h b used in
      subst
        (λ (o : Option Block). IsDeleted room at entries (elim o [
          | none ↦ failed
          | some after ↦ elim (dirty_error block) [ none ↦ ok after | some e ↦ errno e ]
        ]))
        (sym e) (go entries' removed (dirty_error block) refl)
    where
      go :
          (entries' : Block)
          → IsRemoved room at entries entries'
          → (o : Option ℕ) → dirty_error block ≡ o
          → IsDeleted room at entries (elim o [ none ↦ ok entries' | some e ↦ errno e ])
      go entries' removed none e = removed
      go entries' removed (some x) e = (block, e)
