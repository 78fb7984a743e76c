-- ===== src/Core.antt =====
-- The delegates of src/ddscxx/src/org/eclipse/cyclonedds/core beside the streams and the policies:
-- the exceptions for the C library's return codes, wait sets and their conditions, and the
-- callbacks of listeners.
pub mod Reports
pub mod Waitsets
pub mod Callbacks
mod Runs
pub mod Status
pub mod Listeners
