-- ===== src/Qos/Conversions.antt =====
-- The conversions of MiscUtils.cpp between durations, times and sequences of the API and the types
-- of the C library. `infinity` is DDS_INFINITY and `never` is DDS_NEVER, int64_t constants of it.
pub mod RoundTrip
use cyclonedds_cxx.Common.{
  ℕ, ◌+◌, Bool, true, false, List, [], ◌∷◌, ◌==◌, ltb, length, if◌then◌else◌,
}
use cyclonedds_cxx.Common.Int.{ℤ, pos, negsuc, ◌+ℤ◌, ◌-ℤ◌, ◌*ℤ◌, eq_ℤ}
use cyclonedds_cxx.Time.Result.{
  Result, ok, throws, undefined, ◌>>=◌, ns, checked, in_int64, to_uint32, quotient,
}
use cyclonedds_cxx.Time.Duration
use cyclonedds_cxx.Time.Duration.{Duration, infinite}
use cyclonedds_cxx.Time.Instant
use cyclonedds_cxx.Time.Instant.{Time, invalid}

-- `from - ((from / DDS_NSECS_IN_SEC) * DDS_NSECS_IN_SEC)`, as a uint32_t.
abbrev pub nanosec_part : ℤ → ℕ
nanosec_part from = to_uint32 (from -ℤ (quotient from ns *ℤ ns))

-- convertDuration of a dds_duration_t.
unfoldable pub to_duration : ℕ → ℤ → Result Duration
to_duration infinity from =
    if eq_ℤ from (pos infinity)
    then infinite
    else Duration.make (quotient from ns) (nanosec_part from)

-- convertDuration of a Duration.
unfoldable pub from_duration : ℕ → Duration → Result ℤ
from_duration infinity from = infinite >>= λ inf.
    if Duration.equal from inf
    then ok (pos infinity)
    else checked in_int64 (from.sec *ℤ ns +ℤ pos from.nanosec)

-- convertTime of a dds_time_t.
unfoldable pub to_time : ℤ → Result Time
to_time from = Instant.make (quotient from ns) (nanosec_part from)

-- convertTime of a Time, whose seconds have 64 bits.
unfoldable pub from_time : ℕ → Time → Result ℤ
from_time never from = invalid >>= λ inv.
    if Instant.equal from inv
    then ok (pos never)
    else (checked in_int64 (from.sec *ℤ ns) >>= λ nanosecs.
        checked in_int64 (nanosecs +ℤ pos from.nanosec))

-- convertByteSeq to an array and back, of a size cast to int32_t: what does not fit is undefined.
unfoldable pub to_byte_array : List ℕ → Result (List ℕ)
to_byte_array from = if ltb (length from) 0x8000_0000 then ok from else undefined

-- convertStringSeq: a C string ends before its first zero.
unfoldable pub c_string : List ℕ → List ℕ
c_string [] = []
c_string (c ∷ cs) = if c == 0 then [] else c ∷ c_string cs
