-- ===== src/Balloc/Range.antt =====
-- Where a block's bit lies: in which bitmap block, and at which offset.
use tux3_fuse.Prelude.{ℕ, ◌+◌, ◌*◌, ◌/◌, ◌%◌, ◌≤◌, ◌<◌, ◌≡◌, ◌&&◌, arith, ◌==◌}
use tux3_fuse.Prelude.Division.{div-mod-eq, mod-lt, mul-step}
use tux3_fuse.Bitmap.Set.{in_range}

module _ (m mapblock o o' b : ℕ) (pos : 0 < m) (le : o ≤ m) (le' : o' ≤ m) where
  -- A range inside one bitmap block, seen from the whole volume.
  pub in_range-block :
      in_range (mapblock * m + o) (mapblock * m + o') b
      ≡ ((b / m == mapblock) && in_range o o' (b % m))
  in_range-block = ground (
    arith,
    div-mod-eq b m pos,
    mod-lt b m pos,
    mul-step (b / m) mapblock m,
    mul-step mapblock (b / m) m,
  )
