-- ===== src/Launch.antt =====
-- src/feGEMmain.cxx and the constructors and Init functions of src/feGEMWorker.cxx and
-- src/feGEMSupervisor.cxx: how the frontend starts.
pub mod Arguments
pub mod SettingsPath
pub mod Worker
pub mod Status
pub mod Ready
pub mod Start
mod Tests
