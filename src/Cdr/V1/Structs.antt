-- ===== src/Cdr/V1/Structs.antt =====
-- start_member, finish_member and finish_struct of xcdr_v1_stream.
use cyclonedds_cxx.Common.{ℕ, Bool, not, ◌||◌, List}
use cyclonedds_cxx.Cdr.State.{StreamMode, failed, Op, pure, ◌>>◌}
use cyclonedds_cxx.Cdr.Stream.{
  push_member_start, pop_member_start, push_align_offset, pop_align_offset,
}
use cyclonedds_cxx.Cdr.Properties.{is_mutable, Entity, Propvec}
use cyclonedds_cxx.Cdr.Members
use cyclonedds_cxx.Cdr.Members.{check_struct_completeness}
use cyclonedds_cxx.Cdr.V1.Headers.{
  write_header, finish_write_header, move_header, write_final_list_entry, move_final_list_entry,
}
use cyclonedds_cxx.Cdr.V2.Structs.{when, list_necessary, push_member_end, to_popped_end}

abbrev pub header_necessary : Entity → Bool
header_necessary props = is_mutable props.p_ext || props.is_optional

-- A mutable struct has no header for a member that is not set.
abbrev pub with_header : Entity → Bool → Bool
with_header prop is_set = not (is_mutable prop.p_ext) || is_set

-- The switch of start_member on the mode.
unfoldable pub start_header : StreamMode → Entity → Bool → Op (Unit {0})
start_header StreamMode.write prop is_set = when (with_header prop is_set) (write_header prop)
start_header StreamMode.move prop is_set = when (with_header prop is_set) (move_header prop)
start_header StreamMode.max prop is_set = when (with_header prop is_set) (move_header prop)
start_header StreamMode.read prop is_set = push_member_end
start_header StreamMode.unset prop is_set = pure tt

unfoldable pub start_member : Entity → Bool → Op (Unit {0})
start_member prop is_set = do
  when (header_necessary prop) (do λ s. start_header s.mode prop is_set s; push_align_offset)
  push_member_start

-- The switch of finish_member on the mode.
unfoldable pub finish_header : StreamMode → Entity → Bool → Op (Unit {0})
finish_header StreamMode.write prop is_set =
    when (with_header prop is_set) (finish_write_header prop)
finish_header StreamMode.read prop is_set = to_popped_end
finish_header StreamMode.move prop is_set = pure tt
finish_header StreamMode.max prop is_set = pure tt
finish_header StreamMode.unset prop is_set = pure tt

unfoldable pub finish_member : Entity → List ℕ → Bool → Op (List ℕ)
finish_member prop member_ids is_set = do
  when (header_necessary prop) (do pop_align_offset; λ s. finish_header s.mode prop is_set s)
  pop_member_start
  Members.finish_member prop member_ids is_set

unfoldable pub finish_by_mode : StreamMode → Propvec → Entity → List ℕ → Op (Unit {0})
finish_by_mode StreamMode.write pv props member_ids =
    when (list_necessary props) write_final_list_entry
finish_by_mode StreamMode.move pv props member_ids =
    when (list_necessary props) move_final_list_entry
finish_by_mode StreamMode.max pv props member_ids =
    when (list_necessary props) move_final_list_entry
finish_by_mode StreamMode.read pv props member_ids = check_struct_completeness pv props member_ids
finish_by_mode StreamMode.unset pv props member_ids = failed

unfoldable pub finish_struct : Propvec → Entity → List ℕ → Op (Unit {0})
finish_struct pv props member_ids s = finish_by_mode s.mode pv props member_ids s
