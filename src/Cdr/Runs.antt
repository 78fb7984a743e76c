-- ===== src/Cdr/Runs.antt =====
-- The theorems on the streams at concrete inputs.
use cyclonedds_cxx.Common.{◌-◌, ℕ, ◌%◌, true, List, [], ◌∷◌, ◌≡◌, refl, inl, inr, arith, leb}
use cyclonedds_cxx.Cdr.Enums.{read_enum_impl, write_enum_impl}
use cyclonedds_cxx.Cdr.Enums.RoundTrip.{read_enum_impl-write_enum_impl}
use cyclonedds_cxx.Common.{if◌then◌else◌, ltb}
use cyclonedds_cxx.Common.Memory.{Memory}
use cyclonedds_cxx.Cdr.CustomStack.{top}
use cyclonedds_cxx.Cdr.State.{little_endian, big_endian, Stream, StreamMode, KeyMode, ok, no_faults}
use cyclonedds_cxx.Cdr.Stream.{to_move}
use cyclonedds_cxx.Cdr.Bytes.{two, eight}
use cyclonedds_cxx.Cdr.Primitive.{write, read, move}
use cyclonedds_cxx.Cdr.Primitive.Bounds.{
  behind, written, passed, write_fits, write_iff, write_keeps, is_ok, left_buffer,
}
use cyclonedds_cxx.Cdr.Primitive.RoundTrip.{SameCursor, read-write, IsSizing, move-write}
use cyclonedds_cxx.Cdr.Alignment.{InStep}
use cyclonedds_cxx.Cdr.Primitive.Placement.{write_aligns}
use cyclonedds_cxx.Cdr.Ready.{IsReady}
use cyclonedds_cxx.Cdr.Text.{write_string, read_string}
use cyclonedds_cxx.Cdr.Text.Bounds.{string_written, write_string_fits, write_string_keeps}
use cyclonedds_cxx.Cdr.Text.RoundTrip.{string_passed, read_string-write_string}

abbrev pub blank : Memory
blank a = 0

-- A stream of big-endian data on a little-endian machine, in a buffer of 64 bytes.
abbrev pub stream : StreamMode → Memory → Stream
stream m b = record {
  native = little_endian;
  stream_endianness = big_endian;
  position = 0;
  max_alignment = 4;
  current_alignment = 0;
  buffer_size = 64;
  alignment_offset = 0;
  buffer = b;
  status = no_faults;
  fault_mask = λ f. true;
  mode = m;
  key = KeyMode.not_key;
  swap = true;
  buffer_end = 64 ∷ [];
  e_off = [];
  e_sz = 0 ∷ [];
  align_offs = [];
  consecutives = [];
  delimiters = [];
}

pub stream-IsReady : (m : StreamMode) (b : Memory) → IsReady m 64 (stream m b)
unfolding top
stream-IsReady m b = record {
  mode_is = refl;
  ends = refl;
  end_lt = omega arith;
  within = omega arith;
  heeds_read = refl;
  heeds_write = refl;
  aligns = inl refl;
  offset_within = omega arith;
  swap_is = refl;
}

same_start : (m m' : StreamMode) (b b' : Memory) → SameCursor (stream m b) (stream m' b')
same_start m m' b b' = record {
  position_eq = refl;
  current_alignment_eq = refl;
  alignment_offset_eq = refl;
  max_alignment_eq = refl;
  endianness_eq = refl;
}

abbrev writer : Stream
writer = stream StreamMode.write blank

abbrev words : List ℕ
words = 0x1234 ∷ 0x5678 ∷ []

words_fit : write two words writer ≡ ok tt (written two words writer)
unfolding to_move
words_fit = write_fits (stream-IsReady StreamMode.write blank) two words (omega arith)

abbrev word_reader : Stream
word_reader = stream StreamMode.read (written two words writer).buffer

read-write_example :
    (read two 2 word_reader ≡ ok words (passed two 2 word_reader))
    × SameCursor (written two words writer) (passed two 2 word_reader)
unfolding to_move
read-write_example =
    read-write (stream-IsReady StreamMode.write blank)
      (stream-IsReady StreamMode.read (written two words writer).buffer)
      (same_start StreamMode.write StreamMode.read blank (written two words writer).buffer) two
      words (omega arith) (omega arith) words_fit (λ a lo hi. refl) (omega arith)

moving-IsSizing : IsSizing StreamMode.move (stream StreamMode.move blank)
moving-IsSizing = record { mode_is = refl; sizes = inl refl; aligns = inl refl }

move-write_example :
    (move two 2 (stream StreamMode.move blank)
      ≡ ok tt (passed two 2 (stream StreamMode.move blank)))
    × SameCursor (written two words writer) (passed two 2 (stream StreamMode.move blank))
move-write_example =
    move-write (stream-IsReady StreamMode.write blank) moving-IsSizing
      (same_start StreamMode.write StreamMode.move blank blank) two words (omega arith) words_fit

write_iff_example : is_ok (write two words writer) ≡ leb (behind two 2 writer) 64
write_iff_example = write_iff (stream-IsReady StreamMode.write blank) two words (omega arith)

write_keeps_example : left_buffer blank (write two words writer) 70 ≡ 0
write_keeps_example =
    write_keeps (stream-IsReady StreamMode.write blank) two words (omega arith) 70
      (inr (omega arith))

abbrev at_five : Stream
at_five = record (stream StreamMode.write blank) { position = 5; current_alignment = 1 }

at_five-IsReady : IsReady StreamMode.write 64 at_five
unfolding top
at_five-IsReady = record {
  mode_is = refl;
  ends = refl;
  end_lt = omega arith;
  within = omega arith;
  heeds_read = refl;
  heeds_write = refl;
  aligns = inl refl;
  offset_within = omega arith;
  swap_is = refl;
}

abbrev at_five_written : Stream
at_five_written = written eight (7 ∷ []) at_five

write_aligns_example : ((at_five_written.position - 8 - 0) % 4 ≡ 0) × InStep at_five_written
unfolding to_move
write_aligns_example =
    write_aligns at_five-IsReady eight (7 ∷ []) (omega arith) (inr refl)
      (write_fits at_five-IsReady eight (7 ∷ []) (omega arith))

abbrev text : List ℕ
text = b'o' ∷ b'k' ∷ []

text_written : write_string text 2 writer ≡ ok tt (string_written text writer)
unfolding to_move
text_written =
    write_string_fits (stream-IsReady StreamMode.write blank) text 2 (omega arith) refl
      (omega arith)

abbrev text_reader : Stream
text_reader = stream StreamMode.read (string_written text writer).buffer

read_string-write_string_example :
    (read_string 2 text_reader ≡ ok text (string_passed 2 text_reader))
    × SameCursor (string_written text writer) (string_passed 2 text_reader)
unfolding to_move
read_string-write_string_example =
    read_string-write_string (stream-IsReady StreamMode.write blank)
      (stream-IsReady StreamMode.read (string_written text writer).buffer)
      (same_start StreamMode.write StreamMode.read blank (string_written text writer).buffer) text 2
      (omega arith) text_written (λ a lo hi. refl) (omega arith)

write_string_keeps_example : left_buffer blank (write_string text 1 writer) 64 ≡ 0
write_string_keeps_example =
    write_string_keeps (stream-IsReady StreamMode.write blank) text 1 (omega arith) 64
      (inr (omega arith))

abbrev colour : ℕ → ℕ
colour x = if ltb x 3 then x else 0

read_enum_impl-write_enum_impl_example :
    (read_enum_impl colour two 2 word_reader ≡ ok (0 ∷ 0 ∷ []) (passed two 2 word_reader))
    × SameCursor (written two words writer) (passed two 2 word_reader)
unfolding to_move write_enum_impl
read_enum_impl-write_enum_impl_example =
    read_enum_impl-write_enum_impl (stream-IsReady StreamMode.write blank)
      (stream-IsReady StreamMode.read (written two words writer).buffer)
      (same_start StreamMode.write StreamMode.read blank (written two words writer).buffer) colour
      two 0x1234 (0x5678 ∷ []) (omega arith) (omega arith) words_fit (λ a lo hi. refl) (omega arith)
