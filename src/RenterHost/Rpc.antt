-- ===== src/RenterHost/Rpc.antt =====
-- The requests and responses of renterhost/session.go.
pub mod Errors
pub mod Response
pub mod FormContract
pub mod RenewAndClear
pub mod Lock
pub mod Read
pub mod ReadResponse
pub mod SectorRoots
pub mod Write
pub mod WriteResponse
