-- ===== src/Config.antt =====
-- src/nextme/config/: the configuration that the modelled code reads, and the state kept on disk.
pub mod Schema
pub mod StateStore
pub mod Tests
