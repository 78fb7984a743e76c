-- ===== src/Time/Instant.antt =====
-- dds::core::Time (Time.cpp). The conversions from and to a double are left out.
pub mod Arithmetic
use cyclonedds_cxx.Common.{
  ℕ, ◌+◌, ◌-◌, ◌/◌, ◌%◌, Bool, true, false, not, ◌&&◌, ◌||◌, ltb, ◌==◌, if◌then◌else◌,
}
use cyclonedds_cxx.Common.Int.{ℤ, pos, negsuc, ◌+ℤ◌, ◌-ℤ◌, ◌*ℤ◌, eq_ℤ, ltb_ℤ}
use cyclonedds_cxx.Time.Result.{
  error, Result, ok, throws, undefined, ◌>>=◌, ◌>>◌, ns, mis, ms, invalid_nanosec, in_int64,
  checked, to_uint32, quotient, remainder, validate,
}
use cyclonedds_cxx.Time.Duration.{Duration, validate_duration}

-- sec_ is an int64_t and nsec_ a uint32_t.
pub record Time : Type 0 where
  pub sec : ℤ
  pub nanosec : ℕ

abbrev pub time : ℤ → ℕ → Time
time s n = record { sec = s; nanosec = n }

abbrev set_sec : ℤ → Time → Time
set_sec s t = record t { sec = s }

unfoldable pub set_nanosec : ℕ → Time → Result Time
set_nanosec n t =
    if (not (ltb n ns) && not (n == invalid_nanosec))
      || (eq_ℤ t.sec (negsuc 0) && not (n == invalid_nanosec))
    then throws error
    else ok (record t { nanosec = n })

-- The constructor with arguments.
unfoldable pub make : ℤ → ℕ → Result Time
unfolding set_nanosec
make s n = set_nanosec n (time s 0)

unfoldable pub invalid : Result Time
unfolding make
invalid = make (negsuc 0) invalid_nanosec

unfoldable pub from_microsecs : ℤ → Result Time
unfolding make
from_microsecs us = make (quotient us mis) (to_uint32 (remainder us mis *ℤ ms))

unfoldable pub from_millisecs : ℤ → Result Time
unfolding make
from_millisecs t = make (quotient t ms) (to_uint32 (remainder t ms *ℤ mis))

unfoldable pub greater : Time → Time → Bool
greater t that = ltb_ℤ that.sec t.sec || (eq_ℤ t.sec that.sec && ltb that.nanosec t.nanosec)

unfoldable pub less : Time → Time → Bool
less t that = ltb_ℤ t.sec that.sec || (eq_ℤ t.sec that.sec && ltb t.nanosec that.nanosec)

unfoldable pub equal : Time → Time → Bool
equal t that = eq_ℤ t.sec that.sec && t.nanosec == that.nanosec

unfoldable pub less_equal : Time → Time → Bool
unfolding greater
less_equal t that = not (greater t that)

unfoldable pub greater_equal : Time → Time → Bool
unfolding less
greater_equal t that = not (less t that)

unfoldable pub compare : Time → Time → ℤ
unfolding greater less
compare t that = if greater t that then pos 1 else if less t that then negsuc 0 else pos 0

abbrev pub validate_time : Time → Result (Unit {0})
validate_time t = validate t.sec t.nanosec

-- operator +=
unfoldable pub add : Time → Duration → Result Time
add t a = do
  validate_time t
  validate_duration a
  s ← checked in_int64 (t.sec +ℤ a.sec)
  let dns = (t.nanosec + a.nanosec) % 0x1_0000_0000
  s' ← (if ltb ns dns then checked in_int64 (s +ℤ pos 1) else ok s)
  ok (time s' (if ltb ns dns then dns % ns else dns))

-- operator -=. The last validation is of the object itself, which is unchanged there.
unfoldable pub subtract : Time → Duration → Result Time
unfolding make set_nanosec
subtract t a = do
  validate_time t
  validate_duration a
  s ← checked in_int64 (t.sec -ℤ a.sec)
  tmp ← make s 0
  let borrows = ltb t.nanosec a.nanosec
  s' ← (if borrows then checked in_int64 (tmp.sec -ℤ pos 1) else ok tmp.sec)
  tmp' ←
      set_nanosec (if borrows then t.nanosec + ns - a.nanosec else t.nanosec - a.nanosec)
        (time s' 0)
  validate_time t
  t' ← set_nanosec tmp'.nanosec t
  ok (set_sec tmp'.sec t')

unfoldable pub to_millisecs : Time → Result ℤ
to_millisecs t = do
  validate_time t
  p ← checked in_int64 (t.sec *ℤ ms)
  checked in_int64 (p +ℤ pos (t.nanosec / mis))

unfoldable pub to_microsecs : Time → Result ℤ
to_microsecs t = do
  validate_time t
  p ← checked in_int64 (t.sec *ℤ mis)
  checked in_int64 (p +ℤ pos (t.nanosec / ms))
