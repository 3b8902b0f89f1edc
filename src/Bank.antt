-- ===== src/Bank.antt =====
-- libGEM/include/GEM_BANK.h: the banks that clients send.
pub mod Endian
pub mod Time
pub mod Title
pub mod Finish
pub mod Sanitise
pub mod Layout
pub mod Header
pub mod Walk
mod Tests
