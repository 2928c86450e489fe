-- ===== src/Memory.antt =====
-- src/nextme/memory/: what the agent remembers of a user.
pub mod Schema
pub mod Manager
pub mod Tests
