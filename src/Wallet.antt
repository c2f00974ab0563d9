-- ===== src/Wallet.antt =====
-- Package wallet.
pub mod Funding
pub mod Types
pub mod Address
pub mod Store
pub mod Filter
pub mod SeedWallet
pub mod Bip39
pub mod Relevant
pub mod LimboOutputs
mod Tests
