-- ===== src/Cdr/V2/Entities.antt =====
-- first_entity and next_entity of xcdr_v2_stream: which member comes next on a stream. A null
-- pointer is `failed`.
use cyclonedds_cxx.Common.{
  ℕ, zero, suc, ◌+◌, Bool, true, false, not, Option, none, some, ◌==◌, if◌then◌else◌,
}
use cyclonedds_cxx.Cdr.CustomStack.{top}
use cyclonedds_cxx.Cdr.State.{
  must_understand_fail, Stream, ok, failed, fault, Op, pure, ◌>>=◌, ◌>>◌, modify, checked,
}
use cyclonedds_cxx.Cdr.Stream.{bytes_available, incr_position, set_alignment, raise}
use cyclonedds_cxx.Cdr.Bytes.{one}
use cyclonedds_cxx.Cdr.Primitive.{read}
use cyclonedds_cxx.Cdr.Text.{head_or_zero}
use cyclonedds_cxx.Cdr.Properties
use cyclonedds_cxx.Cdr.Properties.{
  Extensibility, ext_appendable, ext_final, ext_mutable, Entity, Propvec, search_from,
}
use cyclonedds_cxx.Cdr.Members.{is_read}
use cyclonedds_cxx.Cdr.V2.Headers.{Header, read_em_header}
use cyclonedds_cxx.Cdr.V2.Structs.{when, list_necessary}

abbrev pub is_appendable : Extensibility → Bool
is_appendable ext_appendable = true
is_appendable ext_final = false
is_appendable ext_mutable = false

-- A pointer that may be null.
abbrev pub found : Option ℕ → Op ℕ
found none s = failed s
found (some i) s = ok i s

-- The tag of an optional member, read as a bool; another member is always there.
unfoldable pub field_present : Entity → Op Bool
field_present prop s =
    let tag : Op Bool = do b ← read one 1; pure (not (head_or_zero b == 0))
    in if prop.is_optional then tag s else ok true s

-- `while ((prop = cdr_stream::next_entity(prop)))`, where no list of members is on the stream.
unfoldable pub next_present : ℕ → Propvec → Option ℕ → Op ℕ
next_present zero pv none s = failed s
next_present zero pv (some j) s = fault
next_present (suc fuel) pv none s = failed s
next_present (suc fuel) pv (some j) s =
    let onwards = next_present fuel pv (Properties.next_entity s.key (pv.entry j)) in
    (do
      when (is_appendable (pv.entry j).p_ext) (bytes_available 1 true)
      fieldpresent ← field_present (pv.entry j)
      if fieldpresent then pure j else onwards)
      s

-- The do-while loop of first_entity, which does not look for the end of an appendable struct.
unfoldable pub first_present : ℕ → Propvec → Option ℕ → Op ℕ
first_present zero pv none s = failed s
first_present zero pv (some j) s = fault
first_present (suc fuel) pv none s = failed s
first_present (suc fuel) pv (some j) s =
    let onwards = first_present fuel pv (Properties.next_entity s.key (pv.entry j)) in
    (do fieldpresent ← field_present (pv.entry j); if fieldpresent then pure j else onwards) s

-- The entry with this id, forward from `i` and, if `back`, then backward from `i`.
unfoldable pub search_both : Bool → Propvec → ℕ → ℕ → Stream → Option ℕ
search_both back pv i id s =
    elim (search_from (suc pv.count) (Properties.next_entity s.key) pv id (some i)) [
      | some p ↦ some p
      | none ↦
          if back
          then search_from (suc pv.count) (Properties.previous_entity s.key) pv id (some i)
          else none
    ]

-- `incr_position(m_e_sz.top()); alignment(0);`
unfoldable pub skip_member : Op (Unit {0})
skip_member = do
  sz ← λ s. checked (top s.e_sz) s
  modify (incr_position sz)
  modify (set_alignment 0)

-- A round of the loop over the members on the stream once a header is read: `none` is
-- `continue`.
unfoldable pub take_member : Bool → Propvec → ℕ → Header → ℕ → Op (Option ℕ)
take_member back pv i temp sz s =
    let missing : Op (Option ℕ) = do
      when temp.must_understand (raise must_understand_fail)
      skip_member
      pure none
    in let ignored : Op (Option ℕ) = do skip_member; pure none
      in if sz == 0
        then ok none s
        else if temp.ignore
        then ignored s
        else elim (search_both back pv i temp.m_id s) [ some p ↦ ok (some p) s | none ↦ missing s ]

unfoldable pub read_member : Bool → Propvec → ℕ → Op (Option ℕ)
read_member back pv i = do
  bytes_available 4 true
  temp ← read_em_header
  sz ← λ s. checked (top s.e_sz) s
  take_member back pv i temp sz

-- `while (1)`, with fuel: every round takes four bytes at least.
unfoldable pub member_loop : ℕ → Bool → Propvec → ℕ → Op ℕ
member_loop zero back pv i s = fault
member_loop (suc fuel) back pv i s = elim (read_member back pv i s) [
  | ok (some p) s' ↦ ok p s'
  | ok none s' ↦ member_loop fuel back pv i s'
  | failed s' ↦ failed s'
  | fault ↦ fault
]

-- Rounds enough for the bytes up to the end of what may be read.
abbrev pub rounds : Stream → ℕ
rounds s = elim (top s.buffer_end) [ none ↦ 1 | some end ↦ end + 1 ]

unfoldable pub next_entity : Propvec → ℕ → Op ℕ
next_entity pv i s =
    if not (is_read s.mode)
    then found (Properties.next_entity s.key (pv.entry i)) s
    else elim (pv.entry i).parent [
      | none ↦ fault
      | some parent ↦
          if list_necessary (pv.entry parent)
          then member_loop (rounds s) true pv i s
          else next_present pv.count pv (Properties.next_entity s.key (pv.entry i)) s
    ]

unfoldable pub first_entity : Propvec → Entity → Op ℕ
first_entity pv props s = elim (Properties.first_entity s.key props) [
  | none ↦ failed s
  | some i ↦
      if not (is_read s.mode)
      then ok i s
      else if list_necessary props
      then member_loop (rounds s) false pv i s
      else first_present pv.count pv (some i) s
]
