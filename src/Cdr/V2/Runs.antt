-- ===== src/Cdr/V2/Runs.antt =====
-- The theorems on xcdr_v2_stream at concrete inputs.
use cyclonedds_cxx.Common.{ℕ, ◌≤◌, true, false, List, [], ◌∷◌, ◌≡◌, refl, inl, arith}
use cyclonedds_cxx.Common.Memory.{Memory, poke, poke_above}
use cyclonedds_cxx.Cdr.CustomStack.{top}
use cyclonedds_cxx.Cdr.State.{big_endian, little_endian, Stream, StreamMode, ok}
use cyclonedds_cxx.Cdr.Stream.{to_move}
use cyclonedds_cxx.Cdr.Bytes.{four}
use cyclonedds_cxx.Cdr.Primitive.{stored_all}
use cyclonedds_cxx.Cdr.Primitive.Bounds.{passed}
use cyclonedds_cxx.Cdr.Primitive.Wire.{length-stored_all}
use cyclonedds_cxx.Cdr.Properties.{Entity, Propvec, entity, bb_32_bits, ext_mutable, ext_final}
use cyclonedds_cxx.Cdr.Ready.{IsReady}
use cyclonedds_cxx.Cdr.Runs.{blank, stream, stream-IsReady}
use cyclonedds_cxx.Cdr.V2.Delimiter.{IsBody, finished, read_d_header-finish_d_header}
use cyclonedds_cxx.Cdr.V2.Entities.{member_loop, rounds}
use cyclonedds_cxx.Cdr.V2.Headers.{
  em_header, finish_d_header, read_d_header, finish_em_header, read_em_header,
}
use cyclonedds_cxx.Cdr.V2.Loop.{NoFault, member_loop-rounds}
use cyclonedds_cxx.Cdr.V2.MemberHeader.{IsMember, member_finished, read_em_header-finish_em_header}
use cyclonedds_cxx.Cdr.V2.Termination.{IsReading}

-- A member of a mutable struct with id 5, which has to be understood.
abbrev member : Entity
unfolding entity
member = record (entity 1 5 false bb_32_bits ext_final true) { p_ext = ext_mutable }

-- A stream at `p`, where a delimiter was begun at 0 and a member header at 0.
abbrev written_to : ℕ → Memory → Stream
written_to p b = record (stream StreamMode.write b) {
  position = p;
  e_off = 8 ∷ [];
  delimiters = 0 ∷ [];
}

written_to-IsReady : (p : ℕ) (b : Memory) → p ≤ 64 → IsReady StreamMode.write 64 (written_to p b)
unfolding top
written_to-IsReady p b h = record {
  mode_is = refl;
  ends = refl;
  end_lt = omega arith;
  within = h;
  heeds_read = refl;
  heeds_write = refl;
  aligns = inl refl;
  offset_within = omega arith;
  swap_is = refl;
}

abbrev zero_word : List ℕ
zero_word = stored_all little_endian true four (0 ∷ [])

abbrev begun : Memory
begun = poke blank 0 zero_word

filled-IsBody : IsBody 64 0 (written_to 10 begun)
filled-IsBody = record {
  ready = written_to-IsReady 10 begun (omega arith);
  behind_header = omega arith;
  not_too_long = omega arith;
  offset_before = omega arith;
  base = blank;
  header_kept = λ a lo hi. refl;
}

abbrev delimited_reader : Stream
delimited_reader = stream StreamMode.read (finished 0 [] (written_to 10 begun)).buffer

read_d_header-finish_d_header_example :
    (finish_d_header (written_to 10 begun) ≡ ok tt (finished 0 [] (written_to 10 begun)))
    × (read_d_header delimited_reader
        ≡ ok tt (record (passed four 1 delimited_reader) { buffer_end = 10 ∷ 64 ∷ [] }))
unfolding to_move
read_d_header-finish_d_header_example =
    read_d_header-finish_d_header filled-IsBody [] refl
      (stream-IsReady StreamMode.read (finished 0 [] (written_to 10 begun)).buffer) refl refl
      (omega arith) (omega arith) (λ a lo hi. refl)

abbrev header_word : List ℕ
header_word = stored_all little_endian true four (em_header true 5 ∷ [])

abbrev header_begun : Memory
header_begun = poke (poke blank 4 zero_word) 0 header_word

member-IsMember : IsMember 64 0 member (written_to 12 header_begun)
unfolding top entity
member-IsMember = record {
  ready = written_to-IsReady 12 header_begun (omega arith);
  start = refl;
  behind_header = omega arith;
  not_too_far = omega arith;
  offset_before = omega arith;
  base = poke blank 4 zero_word;
  base' = blank;
  header_kept = λ a lo hi. refl;
  length_kept = λ a lo hi.
      poke_above (poke blank 4 zero_word) 0 header_word a (
        omega
          (arith, length-stored_all little_endian big_endian four refl (em_header true 5 ∷ [])));
}

abbrev member_reader : Stream
member_reader = stream StreamMode.read (member_finished 0 (written_to 12 header_begun)).buffer

read_em_header-finish_em_header_example :
    (finish_em_header (written_to 12 header_begun)
      ≡ ok tt (member_finished 0 (written_to 12 header_begun)))
    × (read_em_header member_reader
        ≡ ok
            (record {
              m_id = 5;
              must_understand = true;
              implementation_extension = false;
              ignore = false;
            })
            (record member_reader { position = 8; current_alignment = 4; e_sz = 4 ∷ [] }))
unfolding to_move entity
read_em_header-finish_em_header_example =
    read_em_header-finish_em_header member-IsMember
      (stream-IsReady StreamMode.read (member_finished 0 (written_to 12 header_begun)).buffer) 0 []
      refl refl (omega arith) refl (λ a lo hi. refl)

abbrev two_members : Propvec
unfolding entity
two_members = record { count = 2; entry = λ i. member }

reader-IsReading : IsReading 64 0 [] (stream StreamMode.read blank)
reader-IsReading = record {
  ready = stream-IsReady StreamMode.read blank;
  offset_is = refl;
  sz = 0;
  sizes = refl;
  sz_lt = omega arith;
}

member_loop-rounds_example : NoFault (
    member_loop
      (rounds (stream StreamMode.read blank))
      true
      two_members
      1
      (stream StreamMode.read blank))
member_loop-rounds_example = member_loop-rounds reader-IsReading true two_members 1
