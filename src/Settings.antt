-- ===== src/Settings.antt =====
-- src/SettingsFileDatabase.cxx and include/SettingsFileDatabase.h: files that clients save on the
-- server and load back.
pub mod Base64
pub mod Hex
pub mod Names
pub mod Files
pub mod Reload
mod Tests
