-- ===== src/Time/Duration.antt =====
-- dds::core::Duration (Duration.cpp). The conversions from and to a double are left out.
pub mod Arithmetic
pub mod Order
use cyclonedds_cxx.Common.{
  ℕ, ◌+◌, ◌-◌, ◌*◌, ◌/◌, ◌%◌, Bool, true, false, not, ◌&&◌, ◌||◌, ltb, ◌==◌, if◌then◌else◌,
}
use cyclonedds_cxx.Common.Int.{ℤ, pos, negsuc, ◌+ℤ◌, ◌-ℤ◌, ◌*ℤ◌, eq_ℤ, ltb_ℤ}
use cyclonedds_cxx.Time.Result.{
  error, Result, ok, throws, undefined, ◌>>=◌, ◌>>◌, ns, mis, ms, max_int32, invalid_nanosec,
  in_int32, in_int64, checked, to_int32, to_uint32, quotient, remainder, validate,
}

-- sec_ is an int32_t and nsec_ a uint32_t.
pub record Duration : Type 0 where
  pub sec : ℤ
  pub nanosec : ℕ

abbrev pub duration : ℤ → ℕ → Duration
duration s n = record { sec = s; nanosec = n }

unfoldable pub set_sec : ℤ → Duration → Result Duration
set_sec s d = if ltb_ℤ s (pos 0) then throws error else ok (record d { sec = to_int32 s })

unfoldable pub set_nanosec : ℕ → Duration → Result Duration
set_nanosec n d =
    if not (ltb n ns) && not (n == invalid_nanosec)
    then throws error
    else ok (record d { nanosec = n })

-- The two constructors with arguments.
unfoldable pub make : ℤ → ℕ → Result Duration
unfolding set_sec set_nanosec
make s n = set_sec s (duration (pos 0) 0) >>= set_nanosec n

unfoldable pub infinite : Result Duration
unfolding make
infinite = make (pos max_int32) invalid_nanosec

unfoldable pub zero_duration : Result Duration
unfolding make
zero_duration = make (pos 0) 0

unfoldable pub from_microsecs : ℤ → Result Duration
unfolding make
from_microsecs us = make (quotient us mis) (to_uint32 (remainder us mis *ℤ ms))

unfoldable pub from_millisecs : ℤ → Result Duration
unfolding make
from_millisecs t = make (quotient t ms) (to_uint32 (remainder t ms *ℤ mis))

unfoldable pub greater : Duration → Duration → Bool
greater d that = ltb_ℤ that.sec d.sec || (eq_ℤ d.sec that.sec && ltb that.nanosec d.nanosec)

unfoldable pub less : Duration → Duration → Bool
less d that = ltb_ℤ d.sec that.sec || (eq_ℤ d.sec that.sec && ltb d.nanosec that.nanosec)

unfoldable pub equal : Duration → Duration → Bool
equal d that = eq_ℤ d.sec that.sec && d.nanosec == that.nanosec

unfoldable pub less_equal : Duration → Duration → Bool
unfolding greater
less_equal d that = not (greater d that)

unfoldable pub greater_equal : Duration → Duration → Bool
unfolding less
greater_equal d that = not (less d that)

unfoldable pub compare : Duration → Duration → ℤ
unfolding greater less
compare d that = if greater d that then pos 1 else if less d that then negsuc 0 else pos 0

abbrev pub validate_duration : Duration → Result (Unit {0})
validate_duration d = validate d.sec d.nanosec

unfoldable pub to_millisecs : Duration → Result ℤ
to_millisecs d = do validate_duration d; ok (d.sec *ℤ ms +ℤ pos (d.nanosec / mis))

unfoldable pub to_microsecs : Duration → Result ℤ
to_microsecs d = do validate_duration d; ok (d.sec *ℤ mis +ℤ pos (d.nanosec / ms))

-- operator +=
unfoldable pub add : Duration → Duration → Result Duration
add d a = do
  validate_duration d
  validate_duration a
  s ← checked in_int32 (d.sec +ℤ a.sec)
  let dns = (d.nanosec + a.nanosec) % 0x1_0000_0000
  s' ← (if ltb ns dns then checked in_int32 (s +ℤ pos 1) else ok s)
  ok (duration s' (if ltb ns dns then dns % ns else dns))

-- operator -=
unfoldable pub subtract : Duration → Duration → Result Duration
unfolding make set_sec set_nanosec
subtract d a = do
  validate_duration d
  validate_duration a
  tmp ← make (d.sec -ℤ a.sec) 0
  let borrows = ltb d.nanosec a.nanosec
  tmp' ← (if borrows then set_sec (tmp.sec -ℤ pos 1) tmp else ok tmp)
  tmp'' ← set_nanosec (if borrows then d.nanosec + ns - a.nanosec else d.nanosec - a.nanosec) tmp'
  validate_duration tmp''
  set_nanosec tmp''.nanosec d >>= set_sec tmp''.sec

-- The factor of operator *= as an int64_t.
abbrev pub to_int64 : ℕ → ℤ
to_int64 n = if ltb n 0x8000_0000_0000_0000 then pos n else negsuc (0xffff_ffff_ffff_ffff - n)

-- operator *=. Where the product of the seconds is 0 the sign of the factor does not matter.
unfoldable pub multiply : Duration → ℕ → Result Duration
unfolding set_sec set_nanosec
multiply d factor = do
  validate_duration d
  s ← checked in_int64 (
      if ltb factor 0x8000_0000_0000_0000
      then d.sec *ℤ factor
      else pos 0 -ℤ (d.sec *ℤ (0x1_0000_0000_0000_0000 - factor)))
  d1 ← set_sec s d
  let n = d1.nanosec * factor % 0x1_0000_0000_0000_0000
  if ltb ns n
      then (set_sec (d1.sec +ℤ quotient (to_int64 n) ns) d1 >>= set_nanosec (n % ns))
      else set_nanosec n d1

-- operator /
unfoldable pub divide : Duration → ℕ → Result Duration
unfolding to_microsecs from_microsecs
divide d k = do
  validate_duration d
  us ← (if k == 0 then throws error else to_microsecs d)
  from_microsecs (
      if ltb k 0x8000_0000_0000_0000
      then quotient us k
      else pos 0 -ℤ quotient us (0x1_0000_0000_0000_0000 - k))
