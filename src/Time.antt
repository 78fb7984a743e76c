-- ===== src/Time.antt =====
-- dds::core::Duration and dds::core::Time (src/dds/core), and the helper that both use.
pub mod Result
pub mod Duration
pub mod Instant
mod Runs
