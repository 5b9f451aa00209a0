-- ===== src/Dir/Tests.antt =====
-- A directory of two blocks of 64 bytes: "a" and "bc" with a deleted entry between them, and ".".
use tux3_fuse.Prelude.{
  ℕ, ◌^◌, ◌≡◌, refl, Bool, true, false, Option, none, some, List, [], ◌∷◌, if◌then◌else◌, arith,
}
use tux3_fuse.Dir.{
  Dirent, Block, tux_find_entry, find_in_blocks, find_in_block, tux_create_entry, tux_delete_entry,
  tux_dir_is_empty, tux_match, is_deleted, tux_rec_len_to_disk, tux_rec_len_from_disk, ok,
  enotempty,
}
use tux3_fuse.Dir.Block.{AreBlocks, live, live_dir, lookup}
use tux3_fuse.Dir.Find.{IsFound, tux_find_entry-IsFound}
use tux3_fuse.Dir.Create.{IsAdded, tux_create_entry-IsAdded}
use tux3_fuse.Dir.Delete.{IsDeleted, tux_delete_entry-IsDeleted}
use tux3_fuse.Dir.Empty.{only_dots, tux_dir_is_empty-only_dots}

abbrev entry_of : (len inum : ℕ) → List ℕ → Dirent
entry_of len inum name = record { rec_len = len; inum = inum; kind = 1; name = name }

abbrev first_block : Block
first_block = entry_of 16 7 (97 ∷ []) ∷ entry_of 16 0 [] ∷ entry_of 32 8 (98 ∷ 99 ∷ []) ∷ []

abbrev second_block : Block
second_block = entry_of 64 3 (46 ∷ []) ∷ []

abbrev directory : List Block
directory = first_block ∷ second_block ∷ []

directory-AreBlocks : AreBlocks 64 directory
directory-AreBlocks = (
  (omega arith, omega arith, (omega arith, omega arith, (omega arith, omega arith, refl))),
  ((omega arith, omega arith, refl), tt),
)

abbrev readable : ℕ → Bool
readable b = false

abbrev clean : ℕ → Option ℕ
clean b = none

find_bc : tux_find_entry 64 readable (98 ∷ 99 ∷ []) directory ≡ ok (0, 2)
unfolding tux_find_entry find_in_blocks find_in_block tux_match is_deleted
find_bc = refl

longest_record : tux_rec_len_to_disk (2 ^ 16) ≡ some 65535
unfolding tux_rec_len_to_disk
longest_record = refl

longest_record_back : tux_rec_len_from_disk 65535 ≡ 2 ^ 16
unfolding tux_rec_len_from_disk
longest_record_back = refl

tux_find_entry-IsFound_example :
    IsFound (46 ∷ []) 0 directory (tux_find_entry 64 readable (46 ∷ []) directory)
tux_find_entry-IsFound_example =
    tux_find_entry-IsFound 64 (46 ∷ []) readable (λ b. refl) directory directory-AreBlocks

absent : lookup (100 ∷ []) (live_dir directory) ≡ none
unfolding live live_dir is_deleted
absent = refl

tux_create_entry-IsAdded_example :
    IsAdded
      (100 ∷ [])
      (omega arith)
      (omega arith)
      9
      32768
      64
      clean
      readable
      (λ b. refl)
      (97 ∷ [])
      directory
      (tux_create_entry 64 readable clean (100 ∷ []) 9 32768 directory)
tux_create_entry-IsAdded_example =
    tux_create_entry-IsAdded (100 ∷ []) (omega arith) (omega arith) 9 32768 64 clean readable
      (λ b. refl) (97 ∷ []) directory (omega arith) (omega arith) directory-AreBlocks absent

tux_delete_entry-IsDeleted_example :
    IsDeleted clean 64 2 first_block (tux_delete_entry clean 0 2 first_block)
tux_delete_entry-IsDeleted_example =
    tux_delete_entry-IsDeleted clean 64 0 2 first_block directory-AreBlocks.0 (omega arith) refl

tux_dir_is_empty-only_dots_example :
    tux_dir_is_empty 64 readable 3 directory
    ≡ (if only_dots 3 (live_dir directory) then ok true else enotempty)
tux_dir_is_empty-only_dots_example =
    tux_dir_is_empty-only_dots 64 3 readable (λ b. refl) directory directory-AreBlocks
