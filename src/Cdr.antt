-- ===== src/Cdr.antt =====
-- The CDR streams: core/cdr of the sources and headers under org/eclipse/cyclonedds.
pub mod CustomStack
pub mod State
pub mod Stream
pub mod Bytes
pub mod Primitive
pub mod Ready
pub mod Alignment
pub mod Zeroes
pub mod Text
pub mod Properties
pub mod Enums
pub mod V2
pub mod Members
pub mod V1
pub mod Runs
