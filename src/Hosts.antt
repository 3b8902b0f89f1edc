-- ===== src/Hosts.antt =====
-- src/AllowedHosts.cxx and include/AllowedHosts.h.
pub mod Pattern
pub mod Glob
pub mod Soundness
pub mod Registry
pub mod Decisions
pub mod Mirror
pub mod Odb
mod Tests
