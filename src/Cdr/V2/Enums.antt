-- ===== src/Cdr/V2/Enums.antt =====
-- The enumerations of xcdr_v2_stream (extended_cdr_v2_ser.hpp).
use cyclonedds_cxx.Common.{ℕ, List}
use cyclonedds_cxx.Cdr.State.{Op}
use cyclonedds_cxx.Cdr.Bytes.{Width}
use cyclonedds_cxx.Cdr.Primitive.{move}
use cyclonedds_cxx.Cdr.Properties.{BitBound}
use cyclonedds_cxx.Cdr.Enums.{read_enum_impl, write_enum_impl, by_bit_bound}

unfoldable pub read_enum : (ℕ → ℕ) → BitBound → ℕ → Op (List ℕ)
read_enum enum_conversion bb n = by_bit_bound bb (λ i. read_enum_impl enum_conversion i n)

unfoldable pub write_enum : Width → BitBound → List ℕ → Op (Unit {0})
write_enum t bb vs = by_bit_bound bb (λ i. write_enum_impl t i vs)

unfoldable pub move_enum : BitBound → ℕ → Op (Unit {0})
move_enum bb n = by_bit_bound bb (λ i. move i n)

unfoldable pub max_enum : BitBound → ℕ → Op (Unit {0})
unfolding move_enum
max_enum bb n = move_enum bb n
