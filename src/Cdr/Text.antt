-- ===== src/Cdr/Text.antt =====
-- read_string, write_string, move_string and max_string of cdr_stream.hpp. A string is the list
-- of its chars as bytes; `n` is the bound on its length, 0 for none.
pub mod Bounds
pub mod RoundTrip
use cyclonedds_cxx.Common.{
  ℕ, ◌+◌, ◌%◌, min, Bool, true, false, not, ◌&&◌, List, [], ◌∷◌, ◌++◌, length, ltb, ◌==◌,
  if◌then◌else◌,
}
use cyclonedds_cxx.Common.Memory.{poke, peek}
use cyclonedds_cxx.Cdr.State.{
  illegal_field_value, write_bound_exceeded, move_bound_exceeded, SerializationStatus, ok, failed,
  Op, pure, ◌>>=◌, ◌>>◌, require, modify, size_max, word_size, u32_size,
}
use cyclonedds_cxx.Cdr.Stream.{bytes_available, incr_position, raise, set_alignment, set_position}
use cyclonedds_cxx.Cdr.Bytes.{one, four}
use cyclonedds_cxx.Cdr.Primitive.{read, write, move}

-- `N && string_length > N + 1`, in size_t.
abbrev pub exceeds : ℕ → ℕ → Bool
exceeds n string_length = not (n == 0) && ltb ((n + 1) % word_size) string_length

-- `if (N && string_length > N + 1 && str.status(f)) return false;`
unfoldable pub check_bound : ℕ → ℕ → SerializationStatus → Op (Unit {0})
check_bound n string_length f = if exceeds n string_length then raise f else pure tt

unfoldable pub write_string : List ℕ → ℕ → Op (Unit {0})
write_string towrite n s =
    let string_length = length towrite + 1 in
    let body = do
      check_bound n string_length write_bound_exceeded
      write four ((string_length % u32_size) ∷ [])
      bytes_available string_length false
      modify (λ t. record t { buffer = poke t.buffer t.position (towrite ++ (0 ∷ [])) })
      modify (incr_position string_length)
      modify (set_alignment 1)
    in if s.position == size_max then failed s else body s

-- The chars that read_string assigns: `std::min<size_t>(string_length - 1, N ? N : SIZE_MAX)`,
-- the difference in uint32_t.
unfoldable pub chars_read : ℕ → ℕ → ℕ
chars_read string_length n =
    min ((string_length + 0xffff_ffff) % u32_size) (if n == 0 then size_max else n)

-- The part of read_string behind the reading of the length.
unfoldable pub read_chars : ℕ → ℕ → Op (List ℕ)
read_chars string_length n = do
  bytes_available string_length false
  if string_length == 0 then raise illegal_field_value else pure tt
  require (not (exceeds n string_length))
  chars ← λ s. ok (peek s.buffer s.position (chars_read string_length n)) s
  modify (incr_position string_length)
  modify (set_alignment 1)
  pure chars

abbrev pub head_or_zero : List ℕ → ℕ
head_or_zero [] = 0
head_or_zero (x ∷ xs) = x

unfoldable pub read_string : ℕ → Op (List ℕ)
read_string n s =
    let body : Op (List ℕ) = do length_field ← read four 1; read_chars (head_or_zero length_field) n
    in if s.position == size_max then failed s else body s

unfoldable pub move_string : ℕ → ℕ → Op (Unit {0})
move_string chars n s =
    let string_length = chars + 1 in
    let body = do
      check_bound n string_length move_bound_exceeded
      move four 1
      modify (incr_position string_length)
      modify (set_alignment 1)
    in if s.position == size_max then ok tt s else body s

unfoldable pub max_string : ℕ → ℕ → Op (Unit {0})
max_string chars n s = if n == 0 then ok tt (set_position size_max s) else move_string chars n s
