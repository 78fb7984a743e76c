-- ===== src/Cdr/Stream.antt =====
-- The members of cdr_stream (cdr_stream.cpp and the inline ones of cdr_stream.hpp).
use cyclonedds_cxx.Common.{ℕ, zero, suc, ◌+◌, ◌-◌, ◌%◌, min, Bool, true, false, not}
use cyclonedds_cxx.Common.{[], ◌∷◌, ltb, ◌==◌, if◌then◌else◌, none, some}
use cyclonedds_cxx.Common.Memory.{Memory, poke}
use cyclonedds_cxx.Cdr.CustomStack.{push, pop, top}
use cyclonedds_cxx.Cdr.State.{
  Endianness, endianness_ne, SerializationStatus, read_bound_exceeded, write_bound_exceeded, Mask,
  no_faults, mask_or, masks_meet, StreamMode, KeyMode, Stream, ok, failed, fault, Op, pure, ◌>>=◌,
  ◌>>◌, modify, checked, size_max, word_size, u32_size,
}

-- The constructor: `max_align` is 8 for basic_cdr_stream and xcdr_v1_stream, 4 for xcdr_v2_stream.
-- m_buffer_end has no initialiser, so it starts empty.
unfoldable pub cdr_stream : Endianness → Endianness → ℕ → Mask → Memory → Stream
cdr_stream native end max_align ignore_faults memory = record {
  native = native;
  stream_endianness = end;
  position = 0;
  max_alignment = max_align;
  current_alignment = 1;
  buffer_size = 0;
  alignment_offset = 0;
  buffer = memory;
  status = no_faults;
  fault_mask = λ f. not (ignore_faults f);
  mode = StreamMode.unset;
  key = KeyMode.unset;
  swap = endianness_ne native end;
  buffer_end = [];
  e_off = [];
  e_sz = [];
  align_offs = [];
  consecutives = [];
  delimiters = [];
}

-- reset, of cdr_stream and of xcdr_v2_stream. `m_buffer_end = m_buffer_size` and `m_e_sz = 0`
-- construct a stack that holds the one value.
unfoldable pub reset : Stream → Stream
reset s = record s {
  position = 0;
  current_alignment = 0;
  alignment_offset = 0;
  status = no_faults;
  buffer_end = s.buffer_size ∷ [];
  e_off = [];
  e_sz = 0 ∷ [];
  align_offs = [];
  consecutives = [];
  delimiters = [];
}

unfoldable pub set_buffer : Memory → ℕ → Stream → Stream
unfolding reset
set_buffer toset size s = reset (record s { buffer = toset; buffer_size = size })

unfoldable pub set_mode : StreamMode → KeyMode → Stream → Stream
unfolding reset
set_mode m k s = reset (record s { mode = m; key = k })

unfoldable pub abort_status : Stream → Bool
unfolding masks_meet
abort_status s = masks_meet s.status s.fault_mask

unfoldable pub add_status : SerializationStatus → Stream → Stream
add_status toadd s = record s { status = mask_or s.status toadd }

-- `if (status(toadd)) return false;`
unfoldable pub raise : SerializationStatus → Op (Unit {0})
unfolding add_status abort_status
raise toadd s = let s' = add_status toadd s in if abort_status s' then failed s' else ok tt s'

unfoldable pub incr_position : ℕ → Stream → Stream
incr_position incr_by s =
    if s.position == size_max then s else record s { position = (s.position + incr_by) % word_size }

abbrev pub set_position : ℕ → Stream → Stream
set_position p s = record s { position = p }

abbrev pub set_alignment : ℕ → Stream → Stream
set_alignment a s = record s { current_alignment = a }

-- The switch of bytes_available on the mode, once the bound is passed.
unfoldable pub out_of_bounds : StreamMode → Bool → Op (Unit {0})
unfolding raise
out_of_bounds StreamMode.read peek = if peek then failed else raise read_bound_exceeded
out_of_bounds StreamMode.write peek = if peek then failed else raise write_bound_exceeded
out_of_bounds StreamMode.unset peek = pure tt
out_of_bounds StreamMode.move peek = pure tt
out_of_bounds StreamMode.max peek = pure tt

unfoldable pub bytes_available : ℕ → Bool → Op (Unit {0})
unfolding out_of_bounds top
bytes_available n peek s = elim (top s.buffer_end) [
  | none ↦ fault
  | some end ↦
      if ltb end ((s.position + n) % word_size) then out_of_bounds s.mode peek s else ok tt s
]

-- The bytes that the cursor has to move for the alignment `al`, from m_alignment_offset on.
unfoldable pub to_move : ℕ → ℕ → ℕ → ℕ
to_move al position offset =
    let refpos = (position + word_size - offset) % word_size in (al - refpos % al) % al

-- `memset(get_cursor(), 0, n)`
unfoldable pub zero_bytes : ℕ → ℕ → Memory → Memory
zero_bytes zero p m = m
zero_bytes (suc n) p m = zero_bytes n (suc p) (poke m p (0 ∷ []))

-- The part of align behind `if (tomove)`.
unfoldable pub skip : ℕ → Bool → Op (Unit {0})
unfolding incr_position bytes_available zero_bytes poke
skip n add_zeroes s =
    let checks = do
      bytes_available n false
      modify (λ t. if add_zeroes then record t { buffer = zero_bytes n t.position t.buffer } else t)
      modify (incr_position n)
    in elim s.mode [
      | StreamMode.read ↦ checks s
      | StreamMode.write ↦ checks s
      | _ ↦ ok tt (incr_position n s)
    ]

unfoldable pub align : ℕ → Bool → Op (Unit {0})
unfolding skip to_move
align newalignment add_zeroes s =
    let al = min newalignment s.max_alignment in
    let n = to_move al s.position s.alignment_offset in
    let s' = set_alignment al s in
    if newalignment == s.current_alignment
    then ok tt s
    else if n == 0
    then ok tt s'
    else skip n add_zeroes s'

unfoldable pub is_key : Op Bool
is_key s = elim s.key [
  | KeyMode.unset ↦ fault
  | KeyMode.not_key ↦ ok false s
  | KeyMode.unsorted ↦ ok true s
  | KeyMode.sorted ↦ ok true s
]

unfoldable pub push_member_start : Op (Unit {0})
unfolding push
push_member_start = do
  szs ← λ s. checked (push 0 s.e_sz) s
  offs ← λ s. checked (push (s.position % u32_size) s.e_off) s
  modify (λ s. record s { e_sz = szs; e_off = offs })

unfoldable pub pop_member_start : Op (Unit {0})
unfolding pop
pop_member_start = do
  (sz, szs) ← λ s. checked (pop s.e_sz) s
  (off, offs) ← λ s. checked (pop s.e_off) s
  modify (λ s. record s { e_sz = szs; e_off = offs })

unfoldable pub push_align_offset : Op (Unit {0})
unfolding push
push_align_offset = do
  offs ← λ s. checked (push s.alignment_offset s.align_offs) s
  modify (λ s. record s {
    align_offs = offs;
    alignment_offset = s.position % u32_size;
    current_alignment = 8;
  })

unfoldable pub pop_align_offset : Op (Unit {0})
unfolding pop
pop_align_offset = do
  (off, offs) ← λ s. checked (pop s.align_offs) s
  modify (λ s. record s { align_offs = offs; alignment_offset = off })
