-- ===== src/Cdr/V2.antt =====
-- xcdr_v2_stream: extended_cdr_v2_ser.hpp and .cpp.
pub mod Headers
pub mod Overwrite
pub mod Delimiter
pub mod MemberHeader
pub mod Structs
pub mod Enums
pub mod Entities
pub mod Termination
pub mod Loop
mod Runs
