-- ===== src/Periodicity.antt =====
-- src/PeriodicityManager.cxx: how often a frontend thread looks for a connection.
pub mod Manager
pub mod Periods
pub mod Events
pub mod Callers
mod Tests
