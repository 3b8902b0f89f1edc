-- ===== src/Supervisor.antt =====
-- src/feGEMSupervisor.cxx: the list of workers, their ports and the start of a worker.
pub mod Workers
pub mod Places
pub mod Assignment
pub mod Ports
pub mod Starts
pub mod Arrays
mod Tests
