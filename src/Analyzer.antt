-- ===== src/Analyzer.antt =====
-- libGEM/src/feGEM_module.cxx and libGEM/src/TStoreGEMEvent.cxx: the analyzer's reader of banks.
pub mod Dispatch
pub mod FileHeader
pub mod Store
pub mod Writer
pub mod TreeNames
pub mod Filing
pub mod Rows
mod Tests
