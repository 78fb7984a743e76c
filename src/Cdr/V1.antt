-- ===== src/Cdr/V1.antt =====
-- xcdr_v1_stream: extended_cdr_v1_ser.hpp and .cpp.
pub mod Headers
pub mod Structs
pub mod Enums
pub mod Entities
pub mod Absent
mod Runs
