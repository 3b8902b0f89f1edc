-- ===== src/Passage.antt =====
-- The way of a bank from a client's message through ServeHost (src/feGEMClass.cxx) into a MIDAS event
-- and from there into a tree (libGEM/src/feGEM_module.cxx).
pub mod Fields
pub mod Update
pub mod Event
pub mod Filed
pub mod Walked
mod Tests
