-- ===== src/Acl.antt =====
-- Access control: src/nextme/acl/ and the `/acl` commands of src/nextme/core/commands.py.
pub mod Schema
pub mod Db
pub mod Manager
pub mod Commands
pub mod Cards
pub mod Tests
