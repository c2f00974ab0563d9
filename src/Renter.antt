-- ===== src/Renter.antt =====
-- Package renter: the data of a shard in the sectors of a host.
pub mod Windows
pub mod Redundancy
pub mod SectorBuilder
pub mod Sections
mod Tests
