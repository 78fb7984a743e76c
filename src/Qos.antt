-- ===== src/Qos.antt =====
-- The quality of service of entities: policies, their translation to and from the C library, and
-- the sets of policies that the entities have.
pub mod Kinds
pub mod Conversions
pub mod Policies
pub mod Library
pub mod Properties
pub mod Sets
pub mod Entities
mod Runs
