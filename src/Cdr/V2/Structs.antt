-- ===== src/Cdr/V2/Structs.antt =====
-- start_member, finish_member, start_struct, finish_struct, start_consecutive and
-- finish_consecutive of xcdr_v2_stream.
use cyclonedds_cxx.Common.{
  ℕ, ◌+◌, ◌%◌, Bool, true, false, not, ◌&&◌, ◌||◌, List, [], ◌∷◌, if◌then◌else◌,
}
use cyclonedds_cxx.Cdr.CustomStack.{push, pop, top}
use cyclonedds_cxx.Cdr.State.{
  StreamMode, Consecutives, fault, Op, pure, ◌>>=◌, ◌>>◌, modify, checked, word_size,
}
use cyclonedds_cxx.Cdr.Stream.{push_member_start, pop_member_start}
use cyclonedds_cxx.Cdr.Properties.{is_mutable, is_final, Entity, Propvec}
use cyclonedds_cxx.Cdr.Members
use cyclonedds_cxx.Cdr.Members.{check_struct_completeness}
use cyclonedds_cxx.Cdr.V2.Headers.{
  write_d_header, finish_d_header, read_d_header, move_d_header, write_optional_tag,
  move_optional_tag, write_em_header, finish_em_header, move_em_header,
}

abbrev pub d_header_necessary : Entity → Bool
d_header_necessary props = not (is_final props.e_ext)

abbrev pub em_header_necessary : Entity → Bool
em_header_necessary props = is_mutable props.p_ext

abbrev pub list_necessary : Entity → Bool
list_necessary props = is_mutable props.e_ext

abbrev pub when : Bool → Op (Unit {0}) → Op (Unit {0})
when b m = if b then m else pure tt

-- `m_buffer_end.push(position() + m_e_sz.top())`
unfoldable pub push_member_end : Op (Unit {0})
push_member_end = do
  sz ← λ s. checked (top s.e_sz) s
  ends ← λ s. checked (push ((s.position + sz) % word_size) s.buffer_end) s
  modify (λ s. record s { buffer_end = ends })

-- `position(m_buffer_end.pop())`
unfoldable pub to_popped_end : Op (Unit {0})
to_popped_end = do
  (end, ends) ← λ s. checked (pop s.buffer_end) s
  modify (λ s. record s { buffer_end = ends; position = end })

unfoldable pub push_consecutives : Consecutives → Op (Unit {0})
push_consecutives c = do
  cs ← λ s. checked (push c s.consecutives) s
  modify (λ s. record s { consecutives = cs })

unfoldable pub pop_consecutives : Op Consecutives
pop_consecutives = do
  (c, cs) ← λ s. checked (pop s.consecutives) s
  modify (λ s. record s { consecutives = cs })
  pure c

-- The switch of start_member on the mode.
unfoldable pub start_header : StreamMode → Entity → Bool → Op (Unit {0})
start_header StreamMode.write prop is_set =
    if em_header_necessary prop
    then when is_set (write_em_header prop)
    else when prop.is_optional (write_optional_tag is_set)
start_header StreamMode.move prop is_set =
    if em_header_necessary prop
    then when is_set move_em_header
    else when prop.is_optional move_optional_tag
start_header StreamMode.max prop is_set =
    if em_header_necessary prop
    then when is_set move_em_header
    else when prop.is_optional move_optional_tag
start_header StreamMode.read prop is_set = when (em_header_necessary prop) push_member_end
start_header StreamMode.unset prop is_set = pure tt

unfoldable pub start_member : Entity → Bool → Op (Unit {0})
start_member prop is_set = do
  λ s. start_header s.mode prop is_set s
  push_consecutives (record { is_array = false; d_header_present = false })
  push_member_start

-- The switch of finish_member on the mode.
unfoldable pub finish_header : StreamMode → Entity → Bool → Op (Unit {0})
finish_header StreamMode.write prop is_set =
    when (em_header_necessary prop && is_set) finish_em_header
finish_header StreamMode.read prop is_set = when (em_header_necessary prop) to_popped_end
finish_header StreamMode.unset prop is_set = pure tt
finish_header StreamMode.move prop is_set = pure tt
finish_header StreamMode.max prop is_set = pure tt

unfoldable pub finish_member : Entity → List ℕ → Bool → Op (List ℕ)
finish_member prop member_ids is_set = do
  λ s. finish_header s.mode prop is_set s
  _ ← pop_consecutives
  pop_member_start
  Members.finish_member prop member_ids is_set

-- The switches by which a delimiter is begun and ended.
unfoldable pub begin_delimited : StreamMode → Op (Unit {0})
begin_delimited StreamMode.write = write_d_header
begin_delimited StreamMode.move = move_d_header
begin_delimited StreamMode.max = move_d_header
begin_delimited StreamMode.read = read_d_header
begin_delimited StreamMode.unset = pure tt

unfoldable pub start_struct : Entity → Op (Unit {0})
start_struct props = when (d_header_necessary props) (λ s. begin_delimited s.mode s)

unfoldable pub finish_by_mode : StreamMode → Propvec → Entity → List ℕ → Op (Unit {0})
finish_by_mode StreamMode.write pv props member_ids =
    when (d_header_necessary props) finish_d_header
finish_by_mode StreamMode.read pv props member_ids = do
  check_struct_completeness pv props member_ids
  when (d_header_necessary props) to_popped_end
finish_by_mode StreamMode.unset pv props member_ids = pure tt
finish_by_mode StreamMode.move pv props member_ids = pure tt
finish_by_mode StreamMode.max pv props member_ids = pure tt

unfoldable pub finish_struct : Propvec → Entity → List ℕ → Op (Unit {0})
finish_struct pv props member_ids s = finish_by_mode s.mode pv props member_ids s

-- Whether the innermost of the consecutive entries is an array.
abbrev pub in_array : List Consecutives → Bool
in_array [] = false
in_array (c ∷ cs) = c.is_array

abbrev pub is_unset_mode : StreamMode → Bool
is_unset_mode StreamMode.unset = true
is_unset_mode StreamMode.read = false
is_unset_mode StreamMode.write = false
is_unset_mode StreamMode.move = false
is_unset_mode StreamMode.max = false

unfoldable pub start_consecutive : Bool → Bool → Op (Unit {0})
start_consecutive is_array primitive s =
    let d_hdr_necessary = not primitive && (not is_array || not (in_array s.consecutives)) in
    let header = if is_unset_mode s.mode then (λ _. fault) else begin_delimited s.mode in
    (do
      when d_hdr_necessary header
      push_consecutives (record { is_array = is_array; d_header_present = d_hdr_necessary }))
      s

unfoldable pub end_delimited : StreamMode → Op (Unit {0})
end_delimited StreamMode.write = finish_d_header
end_delimited StreamMode.move = pure tt
end_delimited StreamMode.max = pure tt
end_delimited StreamMode.read = to_popped_end
end_delimited StreamMode.unset = λ _. fault

unfoldable pub finish_consecutive : Op (Unit {0})
finish_consecutive = do c ← pop_consecutives; when c.d_header_present (λ s. end_delimited s.mode s)
