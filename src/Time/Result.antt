-- ===== src/Time/Result.antt =====
-- What a call on a Duration or a Time leaves, and the validation of TimeHelper.hpp.
use cyclonedds_cxx.Common.{ℕ, ◌+◌, ◌-◌, ◌/◌, ◌%◌, Bool, not, ◌&&◌, ltb, ◌==◌, if◌then◌else◌}
use cyclonedds_cxx.Common.Int.{ℤ, pos, negsuc, eq_ℤ}

-- ISOCPP_ERROR, ISOCPP_ILLEGAL_OPERATION_ERROR and the other codes that the models throw.
pub data Exception : Type 0 where
  error illegal_operation invalid_argument inconsistent_policy unsupported : Exception
  precondition_not_met null_reference out_of_resources out_of_range : Exception
  not_enabled immutable_policy already_closed timeout : Exception

-- `undefined` where a signed sum or product leaves its type, or an assertion fails. What an object
-- holds after an exception is not represented.
pub data Result (A : Type 0) : Type 0 where
  ok : A → Result A
  throws : Exception → Result A
  undefined : Result A

infixl 5 ◌>>=◌ ◌>>◌
abbrev pub ◌>>=◌ : {A B : Type 0} → Result A → (A → Result B) → Result B
ok a >>= f = f a
throws e >>= f = throws e
undefined >>= f = undefined

abbrev pub ◌>>◌ : {B : Type 0} → Result (Unit {0}) → Result B → Result B
m >> k = m >>= λ _. k

-- The macros NS, MiS and MS.
abbrev pub ns : ℕ
ns = 1_000_000_000

abbrev pub mis : ℕ
mis = 1_000_000

abbrev pub ms : ℕ
ms = 1000

-- The seconds of infinity, and the nanoseconds of what is infinite or invalid.
abbrev pub max_int32 : ℕ
max_int32 = 0x7fff_ffff

abbrev pub invalid_nanosec : ℕ
invalid_nanosec = 0x7fff_ffff

-- A value kept in int32_t or int64_t.
abbrev pub in_int32 : ℤ → Bool
in_int32 (pos n) = ltb n 0x8000_0000
in_int32 (negsuc n) = ltb n 0x8000_0000

abbrev pub in_int64 : ℤ → Bool
in_int64 (pos n) = ltb n 0x8000_0000_0000_0000
in_int64 (negsuc n) = ltb n 0x8000_0000_0000_0000

abbrev pub checked : (ℤ → Bool) → ℤ → Result ℤ
checked fits z = if fits z then ok z else undefined

-- static_cast<int32_t>
abbrev pub to_int32 : ℤ → ℤ
to_int32 (pos n) =
    let w = n % 0x1_0000_0000 in if ltb w 0x8000_0000 then pos w else negsuc (0xffff_ffff - w)
to_int32 (negsuc n) =
    let w = n % 0x1_0000_0000 in if ltb w 0x8000_0000 then negsuc w else pos (0xffff_ffff - w)

-- static_cast<uint32_t>
abbrev pub to_uint32 : ℤ → ℕ
to_uint32 (pos n) = n % 0x1_0000_0000
to_uint32 (negsuc n) = 0xffff_ffff - n % 0x1_0000_0000

-- `/` and `%` of the language, which round towards 0.
abbrev pub quotient : ℤ → ℕ → ℤ
quotient (pos n) k = pos (n / k)
quotient (negsuc n) k = let q = (n + 1) / k in if q == 0 then pos 0 else negsuc (q - 1)

abbrev pub remainder : ℤ → ℕ → ℤ
remainder (pos n) k = pos (n % k)
remainder (negsuc n) k = let r = (n + 1) % k in if r == 0 then pos 0 else negsuc (r - 1)

-- is_valid_for_arithmetic, of the seconds and nanoseconds of a value.
unfoldable pub is_valid_for_arithmetic : ℤ → ℕ → Bool
is_valid_for_arithmetic sec nanosec =
    not (eq_ℤ sec (negsuc 0)) && (not (eq_ℤ sec (pos max_int32)) && ltb nanosec ns)

unfoldable pub validate : ℤ → ℕ → Result (Unit {0})
unfolding is_valid_for_arithmetic
validate sec nanosec =
    if is_valid_for_arithmetic sec nanosec then ok tt else throws illegal_operation
