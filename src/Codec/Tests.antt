-- ===== src/Codec/Tests.antt =====
-- kernel/tux3.h: numbers of 48 and 64 bits, written and read.
use tux3_fuse.Prelude.{◌≡◌, refl, some, none, [], ◌∷◌}
use tux3_fuse.Codec.{encode48, decode48, decode64}

encode48_runs : encode48 0x010203040506 ≡ 1 ∷ 2 ∷ 3 ∷ 4 ∷ 5 ∷ 6 ∷ []
unfolding encode48
encode48_runs = refl

decode48_runs : decode48 (1 ∷ 2 ∷ 3 ∷ 4 ∷ 5 ∷ 6 ∷ 7 ∷ []) ≡ some (0x010203040506, 7 ∷ [])
unfolding decode48
decode48_runs = refl

decode64_past_end : decode64 (1 ∷ 2 ∷ 3 ∷ 4 ∷ 5 ∷ 6 ∷ 7 ∷ []) ≡ none
unfolding decode64
decode64_past_end = refl
