-- ===== src/Dir/Create.antt =====
-- kernel/dir.c: a new name goes into a directory beside the names that it holds.
use tux3_fuse.Prelude.{
  subst, ℕ, ◌+◌, ◌-◌, ◌*◌, ◌≤◌, ◌<◌, ◌≡◌, refl, ap, ◌∙◌, sym, Bool, true, false, ◌&&◌, ◌||◌,
  Bool-cases, inl, inr, Option, none, some, List, [], ◌∷◌, ◌++◌, ltb, leb, ◌==◌, if◌then◌else◌,
  length, arith, ◌%◌, ◌^◌,
}
use mathlib.Core.List.{append_assoc}
use tux3_fuse.Prelude.Slices.{take-all}
use tux3_fuse.Dir.{
  Dirent, Block, short, tux_rec_len_to_disk, tux_rec_len, is_deleted, same_bytes, tux_type_by_mode,
  carve, Walk, passed, zero_length, stopped, create_in_block, Created, behind_block, dirtied,
  create_in_blocks, tux_create_entry, Answer, ok, enoent, eio, enotempty, failed, errno,
}
use tux3_fuse.Dir.Block.{
  IsBlock, AreBlocks, Named, named, live, live-deleted, live-used, live_dir, lookup, lookup-insert,
}

-- One element more, anywhere in a list.
abbrev pub IsInserted : Named → List Named → List Named → Type 0
IsInserted new old after =
    (xs : List Named) × (ys : List Named) × (old ≡ xs ++ ys) × (after ≡ xs ++ new ∷ ys)

pub IsInserted-behind :
    (new : Named) (front old after : List Named)
    → IsInserted new old after
    → IsInserted new (front ++ old) (front ++ after)
IsInserted-behind new front old after h =
    let (xs, ys, e, e') = h in
    (
      front ++ xs,
      ys,
      ap (λ (t : List Named). front ++ t) e ∙ sym (append_assoc front xs ys),
      ap (λ (t : List Named). front ++ t) e' ∙ sym (append_assoc front xs (new ∷ ys)),
    )

IsInserted-before :
    (new : Named) (back old after : List Named)
    → IsInserted new old after
    → IsInserted new (old ++ back) (after ++ back)
IsInserted-before new back old after h =
    let (xs, ys, e, e') = h in
    (
      xs,
      ys ++ back,
      ap (λ (t : List Named). t ++ back) e ∙ append_assoc xs ys back,
      ap (λ (t : List Named). t ++ back) e' ∙ append_assoc xs (new ∷ ys) back,
    )

module _ (name : List ℕ) (named_at_all : 0 < length name) (byte : length name < 2 ^ 8)
    (inum mode : ℕ) where
  stored_name : short name ≡ name
  stored_name =
      let whole : length name % 2 ^ 8 ≡ length name = omega (arith, byte) in
      take-all name (length name % 2 ^ 8) (omega (arith, whole))

  abbrev new : Named
  new = (name, (inum, tux_type_by_mode mode))

  -- the entries in place of one that has the space
  carve-IsBlock :
      (room : ℕ) (entry : Dirent) (rest : Block)
      → IsBlock room (entry ∷ rest)
      → ((is_deleted entry && leb (tux_rec_len (length name)) entry.rec_len)
          || leb (tux_rec_len (length entry.name) + tux_rec_len (length name)) entry.rec_len)
        ≡ true
      → IsBlock room (carve entry name inum mode ++ rest)
  carve-IsBlock room entry rest h space =
      let (fits, inside, more) = h in
      elim (Bool-cases (is_deleted entry)) [
        | inl gone ↦ rw (gone, stored_name) (ground (arith, space, gone), inside, more)
        | inr here ↦
            let wide : tux_rec_len (length entry.name) + tux_rec_len (length name) ≤ entry.rec_len =
              ground (arith, space, here) in
            let left : room - entry.rec_len
                ≡ room
                  - tux_rec_len (length entry.name)
                  - (entry.rec_len - tux_rec_len (length entry.name)) =
              omega arith in
            rw (here, stored_name)
              (
                omega arith,
                omega arith,
                (omega arith, omega arith, subst (λ (r : ℕ). IsBlock r rest) left more),
              )
      ]

  carve-IsInserted :
      (entry : Dirent) (rest : Block)
      → IsInserted new (live (entry ∷ rest)) (live (carve entry name inum mode ++ rest))
  unfolding is_deleted
  carve-IsInserted entry rest =
      let filled_in : (length name == 0) ≡ false = ground arith in
      elim (Bool-cases (length entry.name == 0)) [
        | inl gone ↦
            rw (gone, stored_name)
              ([], live rest, live-deleted entry rest gone, live-used _ rest filled_in)
        | inr here ↦
            rw (here, stored_name)
              (
                named entry ∷ [],
                live rest,
                live-used entry rest here,
                live-used _ _ here
                    ∙ ap (λ (t : List Named). named entry ∷ t) (live-used _ rest filled_in),
              )
      ]

  abbrev IsMade : (room : ℕ) → Block → Walk (Block × ℕ) → Type 0
  IsMade room entries passed = Unit {0}
  IsMade room entries zero_length = ⊥
  IsMade room entries (stopped (entries', offset)) =
      IsBlock room entries' × IsInserted new (live entries) (live entries')

  IsMade-behind :
      (room : ℕ) (entry : Dirent) (rest : Block) (w : Walk (Block × ℕ))
      → IsBlock room (entry ∷ rest)
      → IsMade (room - entry.rec_len) rest w
      → IsMade room (entry ∷ rest) (elim w [
        | passed ↦ passed
        | zero_length ↦ zero_length
        | stopped (entries, at) ↦ stopped (entry ∷ entries, at)
      ])
  unfolding live
  IsMade-behind room entry rest passed h m = tt
  IsMade-behind room entry rest zero_length h m = elim m [ ]
  IsMade-behind room entry rest (stopped (entries, at)) h m =
      let (fits, inside, more) = h in
      let (whole, added) = m in
      (
        (fits, inside, whole),
        elim (Bool-cases (is_deleted entry)) [
          | inl gone ↦ rw gone added
          | inr here ↦
              rw here (IsInserted-behind new (named entry ∷ []) (live rest) (live entries) added)
        ],
      )

  create_in_block-IsMade :
      (room offset : ℕ) (entries : Block)
      → IsBlock room entries
      → IsMade room entries
          (create_in_block (tux_rec_len (length name)) room name inum mode offset entries)
  unfolding create_in_block
  create_in_block-IsMade room offset [] h = tt
  create_in_block-IsMade room offset (entry ∷ rest) h =
      let (fits, inside, more) = h in
      let later =
        create_in_block-IsMade (room - entry.rec_len) (offset + entry.rec_len) rest more in
      let longer : (entry.rec_len == 0) ≡ false = ground arith in
      let space =
        (is_deleted entry && leb (tux_rec_len (length name)) entry.rec_len)
        || leb (tux_rec_len (length entry.name) + tux_rec_len (length name)) entry.rec_len in
      elim (Bool-cases (ltb room (tux_rec_len (length name)))) [
        | inl short ↦ rw short tt
        | inr long ↦ elim (Bool-cases space) [
          | inl fitting ↦
              rw (long, longer, fitting)
                (carve-IsBlock room entry rest h fitting, carve-IsInserted entry rest)
          | inr full ↦ rw (long, longer, full) (IsMade-behind room entry rest _ h later)
        ]
      ]

  module _ (blocksize : ℕ) (dirty_error : ℕ → Option ℕ) (read_fails : ℕ → Bool)
      (reads : (b : ℕ) → read_fails b ≡ false) where
    abbrev IsMadeIn : List Block → Answer Created → Type 0
    IsMadeIn blocks (ok (blocks', where_)) =
        AreBlocks blocksize blocks' × IsInserted new (live_dir blocks) (live_dir blocks')
    IsMadeIn blocks (errno e) = (b : ℕ) × (dirty_error b ≡ some e)
    IsMadeIn blocks _ = ⊥

    IsMadeIn-dirtied :
        (block : ℕ) (blocks blocks' : List Block) (where_ : ℕ)
        → AreBlocks blocksize blocks'
        → IsInserted new (live_dir blocks) (live_dir blocks')
        → IsMadeIn blocks (dirtied blocksize read_fails dirty_error block (blocks', where_))
    IsMadeIn-dirtied block blocks blocks' where_ whole added = go (dirty_error block) refl
      where
        go :
            (o : Option ℕ)
            → dirty_error block ≡ o
            → IsMadeIn blocks (elim o [ none ↦ ok (blocks', where_) | some e ↦ errno e ])
        go none e = (whole, added)
        go (some x) e = (block, e)

    IsMadeIn-behind :
        (entries : Block) (blocks : List Block) (answer : Answer Created)
        → IsBlock blocksize entries
        → IsMadeIn blocks answer
        → IsMadeIn (entries ∷ blocks) (behind_block entries answer)
    unfolding live_dir
    IsMadeIn-behind entries blocks (ok (blocks', where_)) one h =
        let (whole, added) = h in
        (
          (one, whole),
          IsInserted-behind new (live entries) (live_dir blocks) (live_dir blocks') added,
        )
    IsMadeIn-behind entries blocks (errno e) one h = h
    IsMadeIn-behind entries blocks eio one h = elim h [ ]
    IsMadeIn-behind entries blocks enoent one h = elim h [ ]
    IsMadeIn-behind entries blocks enotempty one h = elim h [ ]
    IsMadeIn-behind entries blocks failed one h = elim h [ ]

    IsMadeIn-block :
        (block : ℕ) (entries : Block) (blocks : List Block) (w : Walk (Block × ℕ))
        (later : Answer Created)
        → AreBlocks blocksize (entries ∷ blocks)
        → IsMade blocksize entries w
        → IsMadeIn blocks later
        → IsMadeIn (entries ∷ blocks) (elim w [
          | passed ↦ behind_block entries later
          | zero_length ↦ failed
          | stopped (entries', offset) ↦
              dirtied blocksize read_fails dirty_error block
                (entries' ∷ blocks, block * blocksize + offset)
        ])
    unfolding live_dir
    IsMadeIn-block block entries blocks passed later h m more =
        IsMadeIn-behind entries blocks later h.0 more
    IsMadeIn-block block entries blocks zero_length later h m more = elim m [ ]
    IsMadeIn-block block entries blocks (stopped (entries', offset)) later h m more =
        let (whole, added) = m in
        IsMadeIn-dirtied block (entries ∷ blocks) (entries' ∷ blocks) (block * blocksize + offset)
          (whole, h.1)
          (IsInserted-before new (live_dir blocks) (live entries) (live entries') added)

    create_in_blocks-IsMadeIn :
        (block : ℕ) (blocks : List Block)
        → tux_rec_len (length name) ≤ blocksize
        → blocksize ≤ 2 ^ 16
        → AreBlocks blocksize blocks
        → IsMadeIn blocks
            (create_in_blocks blocksize read_fails dirty_error name inum mode block blocks)
    unfolding create_in_blocks live_dir live tux_rec_len_to_disk
    create_in_blocks-IsMadeIn block [] wide small h = go (dirty_error block) refl
      where
        go :
            (o : Option ℕ)
            → dirty_error block ≡ o
            → IsMadeIn [] (elim o [
              | some e ↦ errno e
              | none ↦ elim (tux_rec_len_to_disk blocksize) [
                | none ↦ failed
                | some dlen ↦ ok (
                  (record {
                    rec_len = blocksize;
                    inum = inum;
                    kind = tux_type_by_mode mode;
                    name = short name;
                  }
                        ∷ [])
                      ∷ [],
                  block * blocksize,
                )
              ]
            ])
        go (some e) h' = (block, h')
        go none h' =
            let fits : ltb (2 ^ 16) blocksize ≡ false = ground (arith, small) in
            rw (fits, stored_name)
              (
                ((wide, omega arith, omega arith), tt),
                ([], [], refl, ap (λ (t : List Named). t ++ []) (live-used _ [] (ground arith))),
              )
    create_in_blocks-IsMadeIn block (entries ∷ blocks) wide small h = rw (reads block) (
        IsMadeIn-block block entries blocks _ _ h (create_in_block-IsMade blocksize 0 entries h.0)
          (create_in_blocks-IsMadeIn (block + 1) blocks wide small h.1))

    -- what the answer of the creation says of the directory and of a name `m` in it
    abbrev pub IsAdded : (m : List ℕ) → List Block → Answer Created → Type 0
    IsAdded m blocks (ok (blocks', where_)) =
        AreBlocks blocksize blocks'
        × (lookup m (live_dir blocks') ≡ (
            if same_bytes m name
            then some (inum, tux_type_by_mode mode)
            else lookup m (live_dir blocks)))
    IsAdded m blocks (errno e) = (b : ℕ) × (dirty_error b ≡ some e)
    IsAdded m blocks _ = ⊥

    IsMadeIn-IsAdded :
        (m : List ℕ) (blocks : List Block) (answer : Answer Created)
        → lookup name (live_dir blocks) ≡ none
        → IsMadeIn blocks answer
        → IsAdded m blocks answer
    IsMadeIn-IsAdded m blocks (ok (blocks', where_)) absent h =
        let (whole, added) = h in
        let (xs, ys, e, e') = added in
        (
          whole,
          ap (λ (t : List Named). lookup m t) e'
              ∙ rw e (
                  lookup-insert name m (inum, tux_type_by_mode mode) xs ys
                    (ap (λ (t : List Named). lookup name t) (sym e) ∙ absent)),
        )
    IsMadeIn-IsAdded m blocks (errno e) absent h = h
    IsMadeIn-IsAdded m blocks eio absent h = elim h [ ]
    IsMadeIn-IsAdded m blocks enoent absent h = elim h [ ]
    IsMadeIn-IsAdded m blocks enotempty absent h = elim h [ ]
    IsMadeIn-IsAdded m blocks failed absent h = elim h [ ]

    -- In a directory of well-formed blocks that can all be read and that does not hold the name, which is not
    -- empty, has at most 255 bytes and fits a block of at most 2^16 bytes with its entry, a creation either fails with an error of blockdirty or leaves
    -- well-formed blocks, which hold the name with the new inode number and the type of the mode, and hold
    -- every other name as before.
    pub tux_create_entry-IsAdded :
        (m : List ℕ) (blocks : List Block)
        → tux_rec_len (length name) ≤ blocksize
        → blocksize ≤ 2 ^ 16
        → AreBlocks blocksize blocks
        → lookup name (live_dir blocks) ≡ none
        → IsAdded m blocks (tux_create_entry blocksize read_fails dirty_error name inum mode blocks)
    unfolding tux_create_entry
    tux_create_entry-IsAdded m blocks wide small h absent =
        IsMadeIn-IsAdded m blocks _ absent (create_in_blocks-IsMadeIn 0 blocks wide small h)
