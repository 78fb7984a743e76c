-- ===== src/Cdr/Members.antt =====
-- finish_member, finish_struct and check_struct_completeness of cdr_stream (cdr_stream.cpp), and
-- start_struct of basic_cdr_stream (basic_cdr_ser.cpp).
pub mod Completeness
pub mod Level
mod Runs
use cyclonedds_cxx.Common.{
  ℕ, zero, suc, Bool, true, false, not, ◌&&◌, ◌||◌, Option, none, some, List, [], ◌∷◌, ◌==◌,
  if◌then◌else◌,
}
use cyclonedds_cxx.Cdr.State.{
  must_understand_fail, unsupported_xtypes, StreamMode, KeyMode, ok, failed, fault, Op, pure, ◌>>◌,
}
use cyclonedds_cxx.Cdr.Stream.{raise, abort_status}
use cyclonedds_cxx.Cdr.Properties.{Entity, Propvec, next_entity}

-- member_id_set, a std::set<uint32_t>.
abbrev pub contains : List ℕ → ℕ → Bool
contains [] id = false
contains (x ∷ ids) id = x == id || contains ids id

abbrev pub insert : ℕ → List ℕ → List ℕ
insert id ids = if contains ids id then ids else id ∷ ids

unfoldable pub finish_member : Entity → List ℕ → Bool → Op (List ℕ)
finish_member props member_ids is_set =
    pure (if is_set then insert props.m_id member_ids else member_ids)

abbrev pub necessary : Entity → Bool
necessary e = e.must_understand || e.is_key

-- The loop of check_struct_completeness from the entry `p` on. The fuel is the length of the
-- vector, which no chain of entries exceeds.
unfoldable pub check_members : ℕ → Propvec → KeyMode → List ℕ → Option ℕ → Op (Unit {0})
check_members zero pv key member_ids none s = ok tt s
check_members zero pv key member_ids (some i) s = fault
check_members (suc fuel) pv key member_ids none s = ok tt s
check_members (suc fuel) pv key member_ids (some i) s =
    let rest = check_members fuel pv key member_ids (next_entity key (pv.entry i)) in
    let check =
      if necessary (pv.entry i) && not (contains member_ids (pv.entry i).m_id)
      then raise must_understand_fail
      else pure tt in
    (check >> rest) s

abbrev pub is_read : StreamMode → Bool
is_read StreamMode.read = true
is_read StreamMode.unset = false
is_read StreamMode.write = false
is_read StreamMode.move = false
is_read StreamMode.max = false

unfoldable pub check_struct_completeness : Propvec → Entity → List ℕ → Op (Unit {0})
check_struct_completeness pv props member_ids s =
    let check = check_members pv.count pv s.key member_ids props.first_member in
    if not (is_read s.mode) || abort_status s then failed s else check s

-- finish_struct of cdr_stream, which basic_cdr_stream inherits.
unfoldable pub finish_struct : Propvec → Entity → List ℕ → Op (Unit {0})
finish_struct pv props member_ids s =
    if is_read s.mode then check_struct_completeness pv props member_ids s else ok tt s

abbrev pub is_sorted : KeyMode → Bool
is_sorted KeyMode.sorted = true
is_sorted KeyMode.unset = false
is_sorted KeyMode.not_key = false
is_sorted KeyMode.unsorted = false

-- basic_cdr_stream::start_struct
unfoldable pub start_struct : Entity → Op (Unit {0})
start_struct props s =
    (if not (is_sorted s.key) && props.xtypes_necessary then raise unsupported_xtypes else pure tt)
      s
