-- ===== src/Merkle.antt =====
-- Package merkle and the part of merkle/blake2b that it calls.
pub mod Hash
pub mod Forest
pub mod ProofStack
pub mod Tree
pub mod AppendStack
pub mod Build
pub mod Roots
pub mod Reader
pub mod Size
pub mod RangeProof
pub mod Collision
mod Tests
