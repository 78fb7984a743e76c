-- ===== src/Time/Runs.antt =====
-- The theorems on durations and times at concrete inputs.
use cyclonedds_cxx.Common.{ℕ, ◌+◌, ◌<◌, ◌≡◌, ◌⊎◌, arith}
use cyclonedds_cxx.Common.Int.{pos}
use cyclonedds_cxx.Time.Result.{ok, ns}
use cyclonedds_cxx.Time.Duration
use cyclonedds_cxx.Time.Duration.{Duration, duration}
use cyclonedds_cxx.Time.Duration.Arithmetic.{IsNormal, total, add-total}
use cyclonedds_cxx.Time.Instant
use cyclonedds_cxx.Time.Instant.{time}
use cyclonedds_cxx.Time.Instant.Arithmetic.{later_by_duration}

add-total_example :
    (t : ℕ) × (u : ℕ) × (Duration.add (duration (pos 1) 700_000_000) (duration (pos 2) 600_000_000)
      ≡ ok (duration (pos t) u))
    × (total t u ≡ total 1 700_000_000 + total 2 600_000_000)
    × (IsNormal t u ⊎ ((700_000_000 + 600_000_000 ≡ ns) × (u ≡ ns)))
add-total_example = add-total 1 700_000_000 2 600_000_000 (omega arith) (omega arith) (omega arith)

abbrev three : Duration
three = duration (pos 3) 5

later_by_duration_example :
    (t : ℕ) × (u : ℕ) × (Instant.add (time (pos 100) 5) (duration (pos 2) 6) ≡ ok (time (pos t) u))
    × (total t u ≡ total 100 5 + total 2 6)
    × ((u < ns) ⊎ ((5 + 6 ≡ ns) × (u ≡ ns)))
later_by_duration_example = later_by_duration 100 5 2 6 (omega arith) (omega arith)
