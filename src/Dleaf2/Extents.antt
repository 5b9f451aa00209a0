-- ===== src/Dleaf2/Extents.antt =====
-- kernel/dleaf2.c: the map from logical to physical blocks that the entries of a leaf stand for.
use tux3_fuse.Prelude.{
  subst, ℕ, zero, suc, ◌+◌, ◌-◌, ◌^◌, ◌≤◌, ◌<◌, ◌≡◌, refl, ap, ◌∙◌, [], ◌∷◌, ◌++◌, ltb, ◌==◌,
  if◌then◌else◌, length, take, drop, arith,
}
use tux3_fuse.Dleaf2.{DiskExtent, Table, entry, get_logical, get_extent, physical_of}

-- The physical block of logical block `l`, 0 for a hole: an entry reaches up to the next one, the last
-- one (the sentinel) maps nothing.
unfoldable pub block_from : (l start block : ℕ) → Table → ℕ
block_from l start block [] = 0
block_from l start block (d ∷ rest) =
    let later = block_from l (get_logical d) (physical_of d) rest in
    if ltb l (get_logical d) then (if block == 0 then 0 else block + (l - start)) else later

unfoldable pub block_at : Table → ℕ → ℕ
block_at table l = block_from l 0 0 table

pub get_extent-logical : (d : DiskExtent) → (get_extent d).logical ≡ get_logical d
unfolding get_extent get_logical
get_extent-logical d = refl

pub get_logical-bound : (d : DiskExtent) → get_logical d < 2 ^ 48
unfolding get_logical
get_logical-bound d = omega arith

pub block_at-nil : (l : ℕ) → block_at [] l ≡ 0
unfolding block_at block_from
block_at-nil l = refl

-- The logical addresses from `n` on do not decrease.
abbrev pub IsAscending : ℕ → Table → Type 0
IsAscending n [] = Unit {0}
IsAscending n (d ∷ rest) = (n ≤ get_logical d) × IsAscending (get_logical d) rest

abbrev pub IsBelow : ℕ → Table → Type 0
IsBelow n [] = Unit {0}
IsBelow n (d ∷ rest) = (get_logical d ≤ n) × IsBelow n rest

pub IsAscending-bound :
    (n : ℕ) (xs : Table) (d : DiskExtent) (zs : Table)
    → IsAscending n (xs ++ d ∷ zs)
    → n ≤ get_logical d
IsAscending-bound n [] d zs h = h.0
IsAscending-bound n (x ∷ xs) d zs h =
    omega (arith, h.0, IsAscending-bound (get_logical x) xs d zs h.1)

pub IsAscending-IsBelow :
    (n : ℕ) (xs : Table) (d : DiskExtent) (zs : Table)
    → IsAscending n (xs ++ d ∷ zs)
    → IsBelow (get_logical d) xs
IsAscending-IsBelow n [] d zs h = tt
IsAscending-IsBelow n (x ∷ xs) d zs h =
    (IsAscending-bound (get_logical x) xs d zs h.1, IsAscending-IsBelow (get_logical x) xs d zs h.1)

-- A lookup across an entry `d`: below it the entries after it do not count, and any entry at its address
-- can end the table.
pub block_from-cut :
    (l start block : ℕ) (xs : Table) (d s : DiskExtent) (zs : Table)
    → IsBelow (get_logical d) xs
    → get_logical s ≡ get_logical d
    → block_from l start block (xs ++ d ∷ zs) ≡ (
        if ltb l (get_logical d)
        then block_from l start block (xs ++ s ∷ [])
        else block_from l (get_logical d) (physical_of d) zs)
unfolding block_from
block_from-cut l start block [] d s zs h e = ground arith
block_from-cut l start block (x ∷ xs) d s zs h e =
    ground (arith, h.0, block_from-cut l (get_logical x) (physical_of x) xs d s zs h.1 e)

-- Nothing is mapped at or above the last entry.
pub block_from-last :
    (l start block : ℕ) (xs : Table) (d : DiskExtent)
    → IsBelow (get_logical d) xs
    → get_logical d ≤ l
    → block_from l start block (xs ++ d ∷ []) ≡ 0
unfolding block_from
block_from-last l start block [] d h b = ground arith
block_from-last l start block (x ∷ xs) d h b =
    ground (arith, h.0, block_from-last l (get_logical x) (physical_of x) xs d h.1 b)

-- where a hole starts does not matter
pub block_from-hole :
    (l start start' : ℕ) (zs : Table) → block_from l start 0 zs ≡ block_from l start' 0 zs
unfolding block_from
block_from-hole l start start' [] = refl
block_from-hole l start start' (z ∷ zs) = ground arith

-- Below the first entry there is a hole.
pub block_from-before :
    (l n start : ℕ) (zs : Table) → IsAscending n zs → l < n → block_from l start 0 zs ≡ 0
unfolding block_from
block_from-before l n start [] h b = refl
block_from-before l n start (z ∷ zs) h b = ground (arith, h.0)

pub cut_at :
    (table : Table) (i : ℕ)
    → i < length table
    → table ≡ take i table ++ entry table i ∷ drop (suc i) table
cut_at [] i h = absurd (omega arith)
cut_at (x ∷ xs) zero h = refl
cut_at (x ∷ xs) (suc i) h = ap (λ (t : Table). x ∷ t) (cut_at xs i (omega arith))

pub drop_at :
    (table : Table) (i : ℕ) → i < length table → drop i table ≡ entry table i ∷ drop (suc i) table
drop_at [] i h = absurd (omega arith)
drop_at (x ∷ xs) zero h = refl
drop_at (x ∷ xs) (suc i) h = drop_at xs i (omega arith)

pub cut_last :
    (table : Table) (n : ℕ) → length table ≡ suc n → table ≡ take n table ++ entry table n ∷ []
cut_last [] n h = absurd (omega (arith, h))
cut_last (x ∷ []) zero h = refl
cut_last (x ∷ []) (suc n) h = absurd (omega (arith, h))
cut_last (x ∷ y ∷ ys) zero h = absurd (omega (arith, h))
cut_last (x ∷ y ∷ ys) (suc n) h = ap (λ (t : Table). x ∷ t) (cut_last (y ∷ ys) n (omega (arith, h)))

pub cut_IsBelow :
    (table : Table) (i : ℕ)
    → i < length table
    → IsAscending 0 table
    → IsBelow (get_logical (entry table i)) (take i table)
cut_IsBelow table i b h =
    IsAscending-IsBelow 0 (take i table) (entry table i) (drop (suc i) table)
      (subst (λ (t : Table). IsAscending 0 t) (cut_at table i b) h)

pub block_from_cons :
    (l start block : ℕ) (z : DiskExtent) (zs : Table)
    → block_from l start block (z ∷ zs) ≡ (
        if ltb l (get_logical z)
        then (if block == 0 then 0 else block + (l - start))
        else block_from l (get_logical z) (physical_of z) zs)
unfolding block_from
block_from_cons l start block z zs = refl

-- A table cut at an entry: its lower part with any entry `s` at that address as the end, and the rest.
pub block_at-cut :
    (table : Table) (i : ℕ) (s : DiskExtent) (l : ℕ)
    → i < length table
    → IsAscending 0 table
    → get_logical s ≡ get_logical (entry table i)
    → block_at table l ≡ (
        if ltb l (get_logical (entry table i))
        then block_at (take i table ++ s ∷ []) l
        else block_at (drop i table) l)
unfolding block_at
block_at-cut table i s l b h e =
    let whole : block_from l 0 0 table
        ≡ block_from l 0 0 (take i table ++ entry table i ∷ drop (suc i) table) =
      ap (λ (t : Table). block_from l 0 0 t) (cut_at table i b) in
    let upper : block_from l 0 0 (drop i table)
        ≡ block_from l 0 0 (entry table i ∷ drop (suc i) table) =
      ap (λ (t : Table). block_from l 0 0 t) (drop_at table i b) in
    let cut =
      block_from-cut l 0 0 (take i table) (entry table i) s (drop (suc i) table)
        (cut_IsBelow table i b h) e in
    ground (arith, whole, cut, upper, block_from_cons l 0 0 (entry table i) (drop (suc i) table))

-- At the last entry and above nothing is mapped.
pub block_at-last :
    (table : Table) (n l : ℕ)
    → length table ≡ suc n
    → IsAscending 0 table
    → get_logical (entry table n) ≤ l
    → block_at table l ≡ 0
unfolding block_at
block_at-last table n l e h b =
    ap (λ (t : Table). block_from l 0 0 t) (cut_last table n e)
    ∙ block_from-last l 0 0 (take n table) (entry table n)
        (cut_IsBelow table n (omega (arith, e)) h) b
