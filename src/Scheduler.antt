-- ===== src/Scheduler.antt =====
-- The scheduler of src/nextme/scheduler/: its tables, the engine that fires due tasks, and the
-- `/schedule` command.
pub mod Schema
pub mod Db
pub mod Engine
pub mod Commands
pub mod Replies
pub mod Tests
