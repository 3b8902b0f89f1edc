-- ===== src/History.antt =====
-- src/HistoryLogger.cxx: the variables that are written to the history.
pub mod Plot
pub mod Variable
pub mod Logger
pub mod Throttle
pub mod Overflow
mod Tests
