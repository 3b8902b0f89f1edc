-- ===== src/Server.antt =====
-- src/feGEMClass.cxx: what a frontend thread does with a connection.
pub mod State
pub mod Commands
pub mod Prefixes
pub mod EventSize
pub mod Settled
pub mod Reading
pub mod Arrival
mod Tests
