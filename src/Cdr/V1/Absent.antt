-- ===== src/Cdr/V1/Absent.antt =====
-- A double behind an absent optional member, in XCDR1: the writer keeps the alignment that
-- push_align_offset set, also after pop_align_offset has put the offset back.
use cyclonedds_cxx.Common.{
  ℕ, ◌/◌, ◌<◌, arith, true, false, List, [], ◌∷◌, Option, none, some, ◌≡◌, ◌==◌, if◌then◌else◌,
}
use cyclonedds_cxx.Common.Memory.{Memory, peek, poke}
use cyclonedds_cxx.Cdr.CustomStack.{push, pop, top, set_top}
use cyclonedds_cxx.Cdr.State.{
  little_endian, Stream, StreamMode, KeyMode, Outcome, ok, failed, fault, Op, pure, ◌>>=◌, ◌>>◌,
  no_faults, masks_meet,
}
use cyclonedds_cxx.Cdr.Stream.{
  cdr_stream, reset, set_buffer, set_mode, align, skip, bytes_available, incr_position, to_move,
  zero_bytes, abort_status, out_of_bounds, raise, add_status, push_member_start, pop_member_start,
  push_align_offset, pop_align_offset,
}
use cyclonedds_cxx.Cdr.Bytes.{
  eight, le_bytes, le_value, backwards, object_bytes, object_value, byte_swap,
}
use cyclonedds_cxx.Cdr.Primitive.{stored, stored_all, loaded, loaded_all, write, read, move}
use cyclonedds_cxx.Cdr.Properties
use cyclonedds_cxx.Cdr.Properties.{Entity, Propvec, entity, BitBound, ext_final, bb_64_bits}
use cyclonedds_cxx.Cdr.Members
use cyclonedds_cxx.Cdr.V2.Headers.{set_size}
use cyclonedds_cxx.Cdr.V2.Structs.{push_member_end, to_popped_end}
use cyclonedds_cxx.Cdr.V1.Headers
use cyclonedds_cxx.Cdr.V1.Structs
use cyclonedds_cxx.Cdr.V1.Entities

abbrev pub blank : Memory
blank a = 0

abbrev pub v1_stream : StreamMode → Memory → Stream
unfolding cdr_stream set_buffer set_mode
v1_stream m b =
    set_mode m KeyMode.not_key
      (set_buffer b 64 (cdr_stream little_endian little_endian 8 no_faults blank))

-- struct { @optional double a; double b; }, as entity_properties_t::finish links it.
abbrev pub optional_then_double : Propvec
unfolding entity
optional_then_double = record {
  count = 3;
  entry = λ i.
      if i == 0
      then record (entity 0 0 false bb_64_bits ext_final false) { first_member = some 1 }
      else if i == 1
      then record (entity 1 0 true bb_64_bits ext_final false) {
        parent = some 0;
        next_on_level = some 2;
      }
      else record (entity 1 1 false bb_64_bits ext_final false) {
        parent = some 0;
        prev_on_level = some 1;
      };
}

-- The generated writer: each member between start_member and finish_member.
unfoldable pub write_absent_and_double : ℕ → Op (Unit {0})
write_absent_and_double v = do
  Structs.start_member (optional_then_double.entry 1) false
  _ ← Structs.finish_member (optional_then_double.entry 1) [] false
  Structs.start_member (optional_then_double.entry 2) true
  write eight (v ∷ [])
  _ ← Structs.finish_member (optional_then_double.entry 2) [] true
  pure tt

unfoldable pub read_first_double : Op (ℕ × List ℕ)
read_first_double = do
  i ← Entities.first_entity optional_then_double (optional_then_double.entry 0)
  Structs.start_member (optional_then_double.entry i) false
  vs ← read eight 1
  pure (i, vs)

abbrev pub out_buffer : {A : Type 0} → Outcome A → Memory
out_buffer (ok a s) = s.buffer
out_buffer (failed s) = blank
out_buffer fault = blank

abbrev pub result : {A : Type 0} → Outcome A → Option A
result (ok a s) = some a
result (failed s) = none
result fault = none

-- The buffer of 64 zeroes once the struct is written to it.
unfoldable pub written_struct : ℕ → Memory
unfolding write_absent_and_double
written_struct v = out_buffer (write_absent_and_double v (v1_stream StreamMode.write blank))

-- All that a run of these calls computes with.
unfoldable pub run : Unit {0}
unfolding push pop top set_top masks_meet cdr_stream reset set_buffer set_mode align skip
    bytes_available incr_position to_move zero_bytes abort_status out_of_bounds raise add_status
    push_member_start pop_member_start push_align_offset pop_align_offset le_bytes le_value
    backwards object_bytes object_value byte_swap stored stored_all loaded loaded_all write read
    move poke peek entity Structs.start_member Structs.finish_member Structs.start_header
    Structs.finish_header Headers.write_header Headers.write_short Headers.extended_header
    Headers.finish_write_header Headers.complete_header Entities.first_entity Entities.first_present
    Entities.field_present Headers.read_header Headers.by_id Properties.first_entity
    Properties.next_entity push_member_end to_popped_end set_size Members.finish_member
run = tt

-- The struct above, with `a` absent and a `b` of any 64 bits, written by the generated calls to a
-- buffer of 64 zeroes from its start on, by a little-endian machine as a little-endian stream: read
-- by the generated calls of the same machine from there, the member found is `b`, and its value is
-- not the one written but its upper four bytes. The reader aligns the double to 8 where the writer
-- did not.
pub absent_then_double :
    (v : ℕ)
    → v < 0x1_0000_0000_0000_0000
    → result (read_first_double (v1_stream StreamMode.read (written_struct v)))
      ≡ some (2, (v / 0x1_0000_0000) ∷ [])
unfolding run written_struct read_first_double
absent_then_double v h = ground arith
