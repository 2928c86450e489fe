-- ===== src/Core.antt =====
-- src/nextme/core/: sessions and the dispatcher, over the types of src/nextme/protocol/types.py.
pub mod Types
pub mod Session
pub mod Dispatcher
pub mod Routing
pub mod Worker
pub mod Dispatch
pub mod Commands
pub mod Replies
pub mod Tests
