-- ===== src/Qos/Conversions/RoundTrip.antt =====
-- Durations and times on the way to the C library and back.
use cyclonedds_cxx.Common.{ℕ, ◌+◌, ◌*◌, ◌≤◌, ◌<◌, ◌≡◌, ◌≢◌, ◌⊎◌, inl, inr, refl, arith}
use cyclonedds_cxx.Common.Int.{ℤ, pos, negsuc, ◌+ℤ◌, ◌-ℤ◌, ◌*ℤ◌}
use cyclonedds_cxx.Time.Result.{ok, ns, max_int32, invalid_nanosec}
use cyclonedds_cxx.Time.Duration
use cyclonedds_cxx.Time.Duration.{Duration, infinite}
use cyclonedds_cxx.Time.Instant
use cyclonedds_cxx.Time.Instant.{Time, time, invalid}
use cyclonedds_cxx.Qos.Conversions.{to_duration, from_duration, to_time, from_time}

-- A duration that is not negative, with less than a second of nanoseconds or infinite.
abbrev pub IsDuration : Duration → Type 0
IsDuration d =
    (s : ℕ) × (d.sec ≡ pos s)
    × (s < 0x8000_0000)
    × ((d.nanosec < ns) ⊎ ((s ≡ max_int32) × (d.nanosec ≡ invalid_nanosec)))

-- DDS_INFINITY is beyond any number of nanoseconds that a finite duration stands for.
abbrev pub IsInfinity : ℕ → Type 0
IsInfinity infinity = 0x8000_0000 * ns ≤ infinity

-- A duration that is not negative, with less than a second of nanoseconds or infinite, comes
-- back from the C library as it was.
pub to_duration-from_duration :
    (infinity : ℕ) (d : Duration)
    → IsInfinity infinity
    → IsDuration d
    → (z : ℤ) × (from_duration infinity d ≡ ok z) × (to_duration infinity z ≡ ok d)
unfolding to_duration from_duration infinite Duration.make Duration.set_sec Duration.set_nanosec
    Duration.equal ◌+ℤ◌ ◌-ℤ◌ ◌*ℤ◌
to_duration-from_duration infinity d far (s, e, hs, inl h) =
    (pos (s * ns + d.nanosec), ground arith, ground arith)
to_duration-from_duration infinity d far (s, e, hs, inr h) =
    (pos infinity, ground arith, ground arith)

-- A time since 1970 with less than a second of nanoseconds, of less than 2^63 nanoseconds in all,
-- comes back from the C library as it was.
pub to_time-from_time :
    (never s n : ℕ)
    → s * ns + n < 0x8000_0000_0000_0000
    → n < ns
    → (z : ℤ) × (from_time never (time (pos s) n) ≡ ok z) × (to_time z ≡ ok (time (pos s) n))
unfolding to_time from_time invalid Instant.make Instant.set_nanosec Instant.equal ◌+ℤ◌ ◌-ℤ◌ ◌*ℤ◌
to_time-from_time never s n fits h = (pos (s * ns + n), ground arith, ground arith)

to_time_ne_invalid : (z : ℤ) → to_time z ≢ ok (time (negsuc 0) invalid_nanosec)
unfolding to_time Instant.make Instant.set_nanosec ◌-ℤ◌ ◌*ℤ◌
to_time_ne_invalid (pos n) = ground arith
to_time_ne_invalid (negsuc n) = ground arith

-- The invalid time is DDS_NEVER to the C library, and no time of the C library comes back as it.
pub invalid_time_lost :
    (never : ℕ)
    → (inv : Time) × (invalid ≡ ok inv)
      × (from_time never inv ≡ ok (pos never))
      × ((z : ℤ) → to_time z ≢ ok inv)
unfolding from_time invalid Instant.make Instant.set_nanosec Instant.equal
invalid_time_lost never = (time (negsuc 0) invalid_nanosec, refl, refl, to_time_ne_invalid)
