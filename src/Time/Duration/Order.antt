-- ===== src/Time/Duration/Order.antt =====
-- Comparisons of durations, and their conversions to and from larger units.
use cyclonedds_cxx.Common.{
  ℕ, ◌+◌, ◌*◌, ◌/◌, ◌%◌, ◌<◌, ◌≡◌, false, not, ◌&&◌, ◌||◌, ltb, ◌==◌, if◌then◌else◌, arith,
}
use cyclonedds_cxx.Common.Int.{pos, negsuc, ◌+ℤ◌, ◌*ℤ◌}
use cyclonedds_cxx.Time.Result.{ok, mis, ms, max_int32}
use cyclonedds_cxx.Time.Duration.{
  Duration, duration, compare, greater, less, equal, less_equal, greater_equal, to_millisecs,
  from_millisecs,
}
use cyclonedds_cxx.Time.Duration.Arithmetic.{IsNormal, total, validate_normal}

-- compare and == of finite durations that are not negative are those of the nanoseconds that they stand for.
pub compare-total :
    (s n s' n' : ℕ)
    → IsNormal s n
    → IsNormal s' n'
    → (compare (duration (pos s) n) (duration (pos s') n') ≡ (
        if ltb (total s' n') (total s n)
        then pos 1
        else if ltb (total s n) (total s' n')
        then negsuc 0
        else pos 0))
      × (equal (duration (pos s) n) (duration (pos s') n') ≡ (total s n == total s' n'))
unfolding compare equal
compare-total s n s' n' h h' = (ground arith, ground arith)

-- Of any two durations, finite or not, exactly one of `<`, `==` and `>` holds, and `<=` and `>=`
-- add `==` to `<` and `>`.
pub compare_trichotomy :
    (d e : Duration)
    → (greater d e ≡ (not (less d e) && not (equal d e)))
      × ((less d e && equal d e) ≡ false)
      × (less_equal d e ≡ (less d e || equal d e))
      × (greater_equal d e ≡ (greater d e || equal d e))
unfolding less_equal greater_equal equal
compare_trichotomy d e = (ground arith, ground arith, ground arith, ground arith)

-- For a number of milliseconds that is not negative and whose seconds are below 0x7fffffff,
-- from_millisecs gives the duration with those seconds and the rest as nanoseconds, and
-- to_millisecs of it gives the number back.
pub to_millisecs-from_millisecs :
    (t : ℕ)
    → t / ms < max_int32
    → (from_millisecs (pos t) ≡ ok (duration (pos (t / ms)) (t % ms * mis)))
      × (to_millisecs (duration (pos (t / ms)) (t % ms * mis)) ≡ ok (pos t))
unfolding from_millisecs to_millisecs ◌*ℤ◌ ◌+ℤ◌
to_millisecs-from_millisecs t h =
    (ground arith, ground (arith, validate_normal (t / ms) (t % ms * mis)))

-- For a finite duration that is not negative, to_millisecs gives its whole milliseconds, and
-- from_millisecs of them gives the duration back without what is below a millisecond.
pub from_millisecs-to_millisecs :
    (s n : ℕ)
    → IsNormal s n
    → (to_millisecs (duration (pos s) n) ≡ ok (pos (s * ms + n / mis)))
      × (from_millisecs (pos (s * ms + n / mis)) ≡ ok (duration (pos s) (n / mis * mis)))
unfolding from_millisecs to_millisecs ◌*ℤ◌ ◌+ℤ◌
from_millisecs-to_millisecs s n h = (ground (arith, validate_normal s n), ground arith)
