-- ===== src/Dir/Block.antt =====
-- kernel/dir.c: well-formed blocks of a directory, and the names that they hold.
use tux3_fuse.Prelude.{
  ℕ, suc, ◌-◌, ◌≤◌, ◌≡◌, refl, ap, ap₂, Bool, true, false, ◌&&◌, not, Bool-cases, inl, inr, Option,
  none, some, List, [], ◌∷◌, ◌++◌, ◌==◌, if◌then◌else◌, length, arith,
}
use tux3_fuse.Dir.{Dirent, Block, tux_rec_len, is_deleted, same_bytes, tux_match}

-- The records fill the `room` bytes up to the end of the block, each with space for its name.
abbrev pub IsBlock : (room : ℕ) → Block → Type 0
IsBlock room [] = room ≡ 0
IsBlock room (entry ∷ rest) =
    (tux_rec_len (length entry.name) ≤ entry.rec_len)
    × (entry.rec_len ≤ room)
    × IsBlock (room - entry.rec_len) rest

abbrev pub AreBlocks : (blocksize : ℕ) → List Block → Type 0
AreBlocks blocksize [] = Unit {0}
AreBlocks blocksize (entries ∷ blocks) = IsBlock blocksize entries × AreBlocks blocksize blocks

-- what an entry in use stands for: its name, with the inode number and the type
abbrev pub Named : Type 0
Named = List ℕ × (ℕ × ℕ)

abbrev pub named : Dirent → Named
named entry = (entry.name, (entry.inum, entry.kind))

unfoldable pub live : Block → List Named
live [] = []
live (entry ∷ rest) =
    let later = live rest in if is_deleted entry then later else named entry ∷ later

pub live-deleted :
    (entry : Dirent) (rest : Block)
    → (length entry.name == 0) ≡ true
    → live (entry ∷ rest) ≡ live rest
unfolding live is_deleted
live-deleted entry rest h = rw h refl

pub live-used :
    (entry : Dirent) (rest : Block)
    → (length entry.name == 0) ≡ false
    → live (entry ∷ rest) ≡ named entry ∷ live rest
unfolding live is_deleted
live-used entry rest h = rw h refl

unfoldable pub live_dir : List Block → List Named
live_dir [] = []
live_dir (entries ∷ blocks) = live entries ++ live_dir blocks

-- the first entry of a name
abbrev pub lookup : List ℕ → List Named → Option (ℕ × ℕ)
lookup name [] = none
lookup name ((other, value) ∷ rest) =
    let later = lookup name rest in if same_bytes name other then some value else later

pub same_bytes-length : (xs ys : List ℕ) → same_bytes xs ys ≡ true → length xs ≡ length ys
same_bytes-length [] [] h = refl
same_bytes-length (x ∷ xs) (y ∷ ys) h = ap suc (same_bytes-length xs ys (ground arith))
same_bytes-length [] (y ∷ ys) h = absurd (ground (arith, h))
same_bytes-length (x ∷ xs) [] h = absurd (ground (arith, h))

-- The test of the lookup is the one of the names, on an entry in use.
pub tux_match-same_bytes :
    (entry : Dirent) (name : List ℕ)
    → tux_match entry name ≡ (not (is_deleted entry) && same_bytes name entry.name)
unfolding tux_match
tux_match-same_bytes entry name = elim (Bool-cases (same_bytes name entry.name)) [
  | inl same ↦ ground (arith, same, same_bytes-length name entry.name same)
  | inr other ↦ ground (arith, other)
]

pub lookup-append :
    (name : List ℕ) (xs ys : List Named)
    → lookup name (xs ++ ys) ≡ elim (lookup name xs) [ none ↦ lookup name ys | some v ↦ some v ]
lookup-append name [] ys = refl
lookup-append name ((other, value) ∷ xs) ys = elim (Bool-cases (same_bytes name other)) [
  | inl same ↦ rw same refl
  | inr differs ↦ rw differs (lookup-append name xs ys)
]

pub same_bytes-eq : (xs ys : List ℕ) → same_bytes xs ys ≡ true → xs ≡ ys
same_bytes-eq [] [] h = refl
same_bytes-eq (x ∷ xs) (y ∷ ys) h =
    ap₂ (λ (a : ℕ) (b : List ℕ). a ∷ b) (ground arith) (same_bytes-eq xs ys (ground arith))
same_bytes-eq [] (y ∷ ys) h = absurd (ground (arith, h))
same_bytes-eq (x ∷ xs) [] h = absurd (ground (arith, h))

-- A name put anywhere among others that do not have it.
pub lookup-insert :
    (name m : List ℕ) (value : ℕ × ℕ) (xs ys : List Named)
    → lookup name (xs ++ ys) ≡ none
    → lookup m (xs ++ (name, value) ∷ ys)
      ≡ (if same_bytes m name then some value else lookup m (xs ++ ys))
lookup-insert name m value [] ys absent = refl
lookup-insert name m value ((other, v) ∷ xs) ys absent = elim (Bool-cases (same_bytes name other)) [
  | inl same ↦ absurd (taken (lookup name (xs ++ ys)) (same_bytes name other) same absent)
  | inr differs ↦
      let rest = lookup-insert name m value xs ys (ground (arith, absent, differs)) in
      elim (Bool-cases (same_bytes m other)) [
        | inl here ↦
            let apart : same_bytes m name ≡ false = elim (Bool-cases (same_bytes m name)) [
              | inl both ↦ absurd (
                  clash (same_bytes m other) (same_bytes name other)
                    (ap (λ (t : List ℕ). same_bytes t other) (same_bytes-eq m name both)) here
                    differs)
              | inr e ↦ e
            ] in
            rw (here, apart) refl
        | inr there ↦ rw there rest
      ]
]
  where
    taken : (next : Option (ℕ × ℕ)) (b : Bool) → b ≡ true → (if b then some v else next) ≡ none → ⊥
    taken next b e h = ground (arith, e, h)

    clash : (a b : Bool) → a ≡ b → a ≡ true → b ≡ false → ⊥
    clash a b e h k = ground (arith, e, h, k)
