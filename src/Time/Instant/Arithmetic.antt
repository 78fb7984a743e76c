-- ===== src/Time/Instant/Arithmetic.antt =====
-- Times moved by durations, against the nanoseconds that they stand for.
use cyclonedds_cxx.Common.{
  ℕ, ◌+◌, ◌-◌, ◌≤◌, ◌<◌, ◌≡◌, ◌≢◌, ◌⊎◌, inl, inr, ltb, arith, Bool-cases, ltb→lt, ltb→le,
}
use cyclonedds_cxx.Common.Int.{pos, ◌+ℤ◌, ◌-ℤ◌}
use cyclonedds_cxx.Time.Result.{illegal_operation, ok, throws, ns, max_int32, validate}
use cyclonedds_cxx.Time.Duration.{Duration, duration}
use cyclonedds_cxx.Time.Duration.Arithmetic.{IsNormal, total, validate_normal}
use cyclonedds_cxx.Time.Instant.{time, add, subtract}

-- Seconds and nanoseconds of a time since 1970 that the arithmetic accepts: the one second that
-- a Duration keeps for infinity is not accepted.
abbrev pub IsUsual : ℕ → ℕ → Type 0
IsUsual s n = (s < 0x2000_0000_0000_0000) × (s ≢ max_int32) × (n < ns)

validate_usual : (s n : ℕ) → IsUsual s n → validate (pos s) n ≡ ok tt
unfolding validate
validate_usual s n h = ground arith

-- A time since 1970, below second 2 ^ 61 and not in second 0x7fffffff, and a finite duration that
-- is not negative add up to the sum of their nanoseconds. The nanoseconds of the result are below
-- one second, unless they add up to exactly one second.
pub later_by_duration :
    (s n s' n' : ℕ)
    → IsUsual s n
    → IsNormal s' n'
    → (t : ℕ) × (u : ℕ) × (add (time (pos s) n) (duration (pos s') n') ≡ ok (time (pos t) u))
      × (total t u ≡ total s n + total s' n')
      × ((u < ns) ⊎ ((n + n' ≡ ns) × (u ≡ ns)))
unfolding add ◌+ℤ◌
later_by_duration s n s' n' h h' = elim (Bool-cases (ltb ns (n + n'))) [
  | inl over ↦ (
    s + s' + 1,
    n + n' - ns,
    ground (arith, validate_usual s n, validate_normal s' n'),
    omega (arith, ltb→lt _ _ over),
    ground arith,
  )
  | inr under ↦ (
    s + s',
    n + n',
    ground (arith, validate_usual s n, validate_normal s' n'),
    omega arith,
    ground arith,
  )
]

-- A time since 1970, below second 2 ^ 61 and not in second 0x7fffffff, less a finite duration that
-- is not negative and does not reach before 1970 is the difference of their
-- nanoseconds, in seconds and less than a second of nanoseconds.
pub earlier_by_duration :
    (s n s' n' : ℕ)
    → IsUsual s n
    → IsNormal s' n'
    → total s' n' ≤ total s n
    → (t : ℕ) × (u : ℕ) × (subtract (time (pos s) n) (duration (pos s') n') ≡ ok (time (pos t) u))
      × (total t u + total s' n' ≡ total s n)
      × (u < ns)
unfolding subtract ◌-ℤ◌
earlier_by_duration s n s' n' h h' fits = elim (Bool-cases (ltb n n')) [
  | inl borrows ↦ (
    s - s' - 1,
    n + ns - n',
    ground (arith, validate_usual s n, validate_normal s' n'),
    omega (arith, ltb→lt _ _ borrows),
    omega (arith, ltb→lt _ _ borrows),
  )
  | inr plain ↦ (
    s - s',
    n - n',
    ground (arith, validate_usual s n, validate_normal s' n'),
    omega (arith, ltb→le _ _ plain),
    omega arith,
  )
]

-- All times in second 0x7fffffff after 1970 are refused as infinite, though the seconds of a
-- time have 64 bits.
pub time_in_2038_refused :
    (n : ℕ) (a : Duration)
    → (add (time (pos max_int32) n) a ≡ throws illegal_operation)
      × (subtract (time (pos max_int32) n) a ≡ throws illegal_operation)
unfolding add subtract validate
time_in_2038_refused n a = (ground arith, ground arith)
