-- ===== src/RenterHost.antt =====
-- Package renterhost: the objects of the renter-host protocol and their transport.
pub mod Buffer
pub mod Currency
pub mod Object
pub mod Rpc
pub mod Messages
pub mod Handshake
pub mod Session
pub mod HashRevision
mod Tests
