-- ===== src/Merkle/Build.antt =====
-- renterhost/consts.go and consts_dev.go: the size of a sector is chosen at build time. The code
-- of package merkle relies on its being a power of two.
use us.Prelude.{ℕ, ◌*◌, ◌^◌, ◌≤◌, arith}

-- A sector of 2 ^ height segments of 64 bytes.
pub record Build : Type 0 where
  pub height : ℕ
  pub fits : height ≤ 16

-- SectorSize = 1 << 22.
abbrev pub release : Build
release = record { height = 16; fits = omega arith }

-- SectorSize = 1 << 18, under the build tag dev.
abbrev pub dev : Build
dev = record { height = 12; fits = omega arith }

module _ ⦃build : Build⦄ where
  unfoldable pub segments_per_sector : ℕ
  segments_per_sector = 2 ^ build.height

  unfoldable pub sector_size : ℕ
  unfolding segments_per_sector
  sector_size = 64 * segments_per_sector
