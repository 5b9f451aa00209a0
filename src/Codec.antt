-- ===== src/Codec.antt =====
-- kernel/tux3.h: the byte order of what is stored, `encode16` to `encode64` and their inverses. What
-- is written comes out as the bytes at increasing addresses; a read takes them off the bytes that are
-- left, and `none` is a read past the end.
pub mod Tests
use tux3_fuse.Prelude.{
  ℕ, ◌+◌, ◌*◌, ◌/◌, ◌%◌, ◌^◌, ◌<◌, ◌≡◌, refl, ap, ◌∙◌, Option, none, some, List, [], ◌∷◌, ◌++◌,
  bit_or, arith,
}
use tux3_fuse.Prelude.Digits.{bit_or_fields}

infixl 5 ◌>>=◌
abbrev pub ◌>>=◌ {ℓ κ} : {A : Type ℓ} {B : Type κ} → Option A → (A → Option B) → Option B
none >>= f = none
some a >>= f = f a

unfoldable pub encode16 : ℕ → List ℕ
encode16 v = (v / 2 ^ 8 % 2 ^ 8) ∷ (v % 2 ^ 8) ∷ []

unfoldable pub encode32 : ℕ → List ℕ
encode32 v = (v / 2 ^ 24 % 2 ^ 8) ∷ (v / 2 ^ 16 % 2 ^ 8) ∷ (v / 2 ^ 8 % 2 ^ 8) ∷ (v % 2 ^ 8) ∷ []

unfoldable pub encode64 : ℕ → List ℕ
unfolding encode32
encode64 v = encode32 (v / 2 ^ 32) ++ encode32 v

unfoldable pub encode48 : ℕ → List ℕ
unfolding encode16 encode32
encode48 v = encode16 (v / 2 ^ 32) ++ encode32 v

unfoldable pub decode16 : List ℕ → Option (ℕ × List ℕ)
decode16 (a ∷ b ∷ at) = some (a * 2 ^ 8 + b, at)
decode16 _ = none

unfoldable pub decode32 : List ℕ → Option (ℕ × List ℕ)
decode32 (a ∷ b ∷ c ∷ d ∷ at) = some (a * 2 ^ 24 + b * 2 ^ 16 + c * 2 ^ 8 + d, at)
decode32 _ = none

unfoldable pub decode64 : List ℕ → Option (ℕ × List ℕ)
unfolding decode32
decode64 at = do (hi, at') ← decode32 at; (lo, at'') ← decode32 at'; some (hi * 2 ^ 32 + lo, at'')

unfoldable pub decode48 : List ℕ → Option (ℕ × List ℕ)
unfolding decode16 decode32
decode48 at = do
  (part1, at') ← decode16 at
  (part2, at'') ← decode32 at'
  some (bit_or (part1 * 2 ^ 32) part2, at'')

pub decode16-encode16 :
    (v : ℕ) (rest : List ℕ) → v < 2 ^ 16 → decode16 (encode16 v ++ rest) ≡ some (v, rest)
unfolding encode16 decode16
decode16-encode16 v rest h = ground arith

pub decode32-encode32 :
    (v : ℕ) (rest : List ℕ) → v < 2 ^ 32 → decode32 (encode32 v ++ rest) ≡ some (v, rest)
unfolding encode32 decode32
decode32-encode32 v rest h = ground arith

-- A value of 64 bits is read back, whatever follows it.
pub decode64-encode64 :
    (v : ℕ) (rest : List ℕ) → v < 2 ^ 64 → decode64 (encode64 v ++ rest) ≡ some (v, rest)
unfolding encode64 decode64
decode64-encode64 v rest h = ground arith

-- A value of 48 bits is read back, whatever follows it.
pub decode48-encode48 :
    (v : ℕ) (rest : List ℕ) → v < 2 ^ 48 → decode48 (encode48 v ++ rest) ≡ some (v, rest)
unfolding encode48 decode48
decode48-encode48 v rest h = ground (arith, bit_or_fields 32 (v / 2 ^ 32) (v % 2 ^ 32))
