-- ===== src/Frontend.antt =====
-- src/feGEMClass.cxx: what a frontend thread does with the banks of a message, and with a
-- connection.
pub mod State
pub mod Kinds
pub mod Lines
pub mod Elog
pub mod Strings
pub mod Banks
pub mod Serve
pub mod Handlers
pub mod Keeps
pub mod Connections
pub mod Values
pub mod Answers
pub mod Messages
pub mod Refusals
pub mod Samples
mod Tests
