-- ===== src/Cdr/V1/Headers.antt =====
-- The parameter headers of xcdr_v1_stream, and the end of a parameter list.
use cyclonedds_cxx.Common.{
  ℕ, ◌+◌, ◌-◌, ◌/◌, ◌%◌, Bool, true, false, not, ◌||◌, [], ◌∷◌, ltb, ◌==◌, if◌then◌else◌,
}
use cyclonedds_cxx.Cdr.CustomStack.{top}
use cyclonedds_cxx.Cdr.State.{
  invalid_pl_entry, ok, Op, pure, ◌>>=◌, ◌>>◌, modify, checked, u32_size, u16_size,
}
use cyclonedds_cxx.Cdr.Stream.{align, bytes_available, set_position, set_alignment, add_status}
use cyclonedds_cxx.Cdr.Bytes.{two, four}
use cyclonedds_cxx.Cdr.Primitive.{read, write, move}
use cyclonedds_cxx.Cdr.Text.{head_or_zero}
use cyclonedds_cxx.Cdr.Properties.{is_mutable, is_unset, Entity}
use cyclonedds_cxx.Cdr.V2.Headers.{Header, set_size, u32_between}
use cyclonedds_cxx.Cdr.V2.Structs.{when}

abbrev pub pid_extended : ℕ
pid_extended = 0x3f01

abbrev pub pid_list_end : ℕ
pid_list_end = 0x3f02

abbrev pub pid_ignore : ℕ
pid_ignore = 0x3f03

abbrev pub pid_flag_must_understand : ℕ
pid_flag_must_understand = 0x4000

abbrev pub pl_extended_flag_must_understand : ℕ
pl_extended_flag_must_understand = 0x4000_0000

unfoldable pub extended_header : Entity → Bool
extended_header props = is_unset props.e_bb || not (ltb props.m_id pid_extended)

-- A header as it is read, and whether it ends the list.
abbrev pub ReadHeader : Type 0
ReadHeader = Header × Bool

-- The second half of an extended header.
unfoldable pub read_extended : Op ReadHeader
read_extended = do
  bytes_available 8 false
  hs ← read four 1
  ls ← read four 1
  set_size (head_or_zero ls)
  let memberheader = head_or_zero hs
  pure (
    record {
      m_id = memberheader % 0x1000_0000;
      must_understand = memberheader / 0x4000_0000 % 2 == 1;
      implementation_extension = memberheader / 0x8000_0000 % 2 == 1;
      ignore = false;
    },
    false,
  )

abbrev pub short_header : ℕ → Bool → Header
short_header smallid ignored = record {
  m_id = smallid % 0x4000;
  must_understand = smallid / 0x4000 % 2 == 1;
  implementation_extension = smallid / 0x8000 % 2 == 1;
  ignore = ignored;
}

-- The switch on the id of a header; its masks and flags are those of extended_cdr_v1_ser.cpp.
unfoldable pub by_id : ℕ → Op ReadHeader
by_id smallid s =
    let id = smallid % 0x4000 in
    if id == pid_list_end
    then ok (short_header smallid false, true) s
    else if id == pid_ignore
    then ok (short_header smallid true, false) s
    else if id == pid_extended
    then read_extended s
    else ok (short_header smallid false, false)
        (if ltb pid_ignore id then add_status invalid_pl_entry s else s)

unfoldable pub read_header : Op ReadHeader
read_header = do
  align 4 false
  bytes_available 4 false
  ids ← read two 1
  lengths ← read two 1
  set_size (head_or_zero lengths)
  by_id (head_or_zero ids)

abbrev pub large_id : Entity → ℕ
large_id props =
    props.m_id % 0x1000_0000
    + (if props.must_understand then pl_extended_flag_must_understand else 0)

abbrev pub small_id : Entity → ℕ
small_id props =
    (props.m_id + (if props.must_understand then pid_flag_must_understand else 0)) % u16_size

unfoldable pub write_extended : Entity → Op (Unit {0})
write_extended props = do
  write two ((pid_extended + pid_flag_must_understand) ∷ [])
  write two (8 ∷ [])
  write four (large_id props ∷ [])
  write four (0 ∷ [])

unfoldable pub write_short : Entity → Op (Unit {0})
write_short props = do write two (small_id props ∷ []); write two (0 ∷ [])

unfoldable pub write_header : Entity → Op (Unit {0})
write_header props = do
  align 4 true
  if extended_header props then write_extended props else write_short props

-- The size goes into the last four bytes of an extended header, and into the last two of another.
unfoldable pub complete_header : Bool → ℕ → ℕ → Op (Unit {0})
complete_header true off e_sz = do
  modify (set_position ((off + u32_size - 4) % u32_size))
  write four (e_sz ∷ [])
complete_header false off e_sz = do
  modify (set_position ((off + u32_size - 2) % u32_size))
  modify (set_alignment 2)
  write two ((e_sz % u16_size) ∷ [])

unfoldable pub finish_write_header : Entity → Op (Unit {0})
finish_write_header props = do
  when (is_mutable props.p_ext) (align 4 true)
  off ← λ s. checked (top s.e_off) s
  λ s.
      (do
        complete_header (extended_header props) off (u32_between off s.position)
        modify (set_position s.position)
        modify (set_alignment s.current_alignment))
        s

unfoldable pub write_final_list_entry : Op (Unit {0})
write_final_list_entry = do
  align 4 true
  write two ((pid_flag_must_understand + pid_list_end) ∷ [])
  write two (0 ∷ [])

unfoldable pub move_final_list_entry : Op (Unit {0})
move_final_list_entry = move four 1

unfoldable pub move_header : Entity → Op (Unit {0})
move_header props = do move four 1; when (extended_header props) (do move four 1; move four 1)
