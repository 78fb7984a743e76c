-- ===== src/Cdr/Enums.antt =====
-- read_enum_impl and write_enum_impl of cdr_stream.hpp, and the enumerations of basic_cdr_stream
-- (basic_cdr_ser.hpp). An enumerator is the number that its object holds.
pub mod Copies
pub mod RoundTrip
use cyclonedds_cxx.Common.{ℕ, zero, suc, List, [], ◌∷◌, ◌==◌, if◌then◌else◌}
use cyclonedds_cxx.Cdr.State.{Endianness, Op, pure, fault, ◌>>=◌, ◌>>◌}
use cyclonedds_cxx.Cdr.Bytes.{Width, one, two, four, size, object_bytes, object_value}
use cyclonedds_cxx.Cdr.Primitive.{read, write, move, max}
use cyclonedds_cxx.Cdr.Properties.{
  BitBound, bb_unset, bb_8_bits, bb_16_bits, bb_32_bits, bb_64_bits,
}
use cyclonedds_cxx.Cdr.Text.{head_or_zero}

-- `enum_conversion` is generated for each enumeration, and `i` is the type I.
unfoldable pub read_enum_impl : (ℕ → ℕ) → Width → ℕ → Op (List ℕ)
read_enum_impl enum_conversion i zero = pure []
read_enum_impl enum_conversion i (suc n) = do
  holder ← read i 1
  es ← read_enum_impl enum_conversion i n
  pure (enum_conversion (head_or_zero holder) ∷ es)

abbrev pub first_bytes : ℕ → List ℕ → List ℕ
first_bytes zero bs = []
first_bytes (suc n) [] = []
first_bytes (suc n) (b ∷ bs) = b ∷ first_bytes n bs

-- `*reinterpret_cast<const I*>(ptr)`, where `t` is the type T of the enumeration, which is not
-- smaller than I.
unfoldable pub reinterpreted : Endianness → Width → Width → ℕ → ℕ
reinterpreted native t i v =
    object_value native (first_bytes (size i) (object_bytes native (size t) v))

unfoldable pub write_each : Width → Width → List ℕ → Op (Unit {0})
write_each t i [] = pure tt
write_each t i (v ∷ vs) = do λ s. write i (reinterpreted s.native t i v ∷ []) s; write_each t i vs

unfoldable pub write_enum_impl : Width → Width → List ℕ → Op (Unit {0})
write_enum_impl t i vs = if size t == size i then write i vs else write_each t i vs

-- The enumerations of basic_cdr_stream, in which I is uint32_t.
unfoldable pub read_basic_enum : (ℕ → ℕ) → ℕ → Op (List ℕ)
read_basic_enum enum_conversion n = read_enum_impl enum_conversion four n

unfoldable pub write_basic_enum : Width → List ℕ → Op (Unit {0})
write_basic_enum t vs = write_enum_impl t four vs

unfoldable pub move_basic_enum : ℕ → Op (Unit {0})
move_basic_enum n = move four n

unfoldable pub max_basic_enum : ℕ → Op (Unit {0})
max_basic_enum n = max four n

-- The switch on get_bit_bound<T>() of the XCDR streams, whose default is an assertion.
unfoldable pub by_bit_bound : {A : Type 0} → BitBound → (Width → Op A) → Op A
by_bit_bound bb_8_bits f = f one
by_bit_bound bb_16_bits f = f two
by_bit_bound bb_32_bits f = f four
by_bit_bound bb_unset f = λ _. fault
by_bit_bound bb_64_bits f = λ _. fault
