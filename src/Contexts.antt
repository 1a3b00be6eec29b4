-- ===== src/Contexts.antt =====
-- kernel/src/context: task contexts, their identifiers, their storage and the scheduler.
pub mod Ids
pub mod Context
pub mod Storage
pub mod Switch
pub mod Spawn
mod Examples
