-- ===== src/Cdr/V1/Entities.antt =====
-- first_entity and next_entity of xcdr_v1_stream: which member comes next on a stream. A null
-- pointer is `failed`.
use cyclonedds_cxx.Common.{
  ℕ, zero, suc, Bool, true, false, not, Option, none, some, ◌==◌, if◌then◌else◌,
}
use cyclonedds_cxx.Cdr.CustomStack.{top}
use cyclonedds_cxx.Cdr.State.{ok, failed, fault, Op, pure, ◌>>=◌, ◌>>◌, checked}
use cyclonedds_cxx.Cdr.Stream.{bytes_available}
use cyclonedds_cxx.Cdr.Properties
use cyclonedds_cxx.Cdr.Properties.{Entity, Propvec}
use cyclonedds_cxx.Cdr.Members.{is_read}
use cyclonedds_cxx.Cdr.V1.Headers.{read_header}
use cyclonedds_cxx.Cdr.V2.Structs.{when, list_necessary}
use cyclonedds_cxx.Cdr.V2.Entities.{found, is_appendable, take_member, rounds}

-- Whether the member is on the stream: an optional one has a header, whose size is 0 where the
-- member is absent. A header that ends the list is a null pointer.
unfoldable pub field_present : Entity → Op Bool
field_present prop s =
    let header : Op Bool = do
      (temp, is_final) ← read_header
      sz ← λ t. checked (top t.e_sz) t
      λ t. if is_final then failed t else ok (not (sz == 0)) t
    in if prop.is_optional then header s else ok true s

-- `while ((prop = cdr_stream::next_entity(prop)))`, where no list of members is on the stream.
unfoldable pub next_present : ℕ → Propvec → Option ℕ → Op ℕ
next_present zero pv none s = failed s
next_present zero pv (some j) s = fault
next_present (suc fuel) pv none s = failed s
next_present (suc fuel) pv (some j) s =
    let onwards = next_present fuel pv (Properties.next_entity s.key (pv.entry j)) in
    (do
      when (is_appendable (pv.entry j).p_ext) (bytes_available 1 true)
      fieldpresent ← field_present (pv.entry j)
      if fieldpresent then pure j else onwards)
      s

-- The do-while loop of first_entity.
unfoldable pub first_present : ℕ → Propvec → Option ℕ → Op ℕ
first_present zero pv none s = failed s
first_present zero pv (some j) s = fault
first_present (suc fuel) pv none s = failed s
first_present (suc fuel) pv (some j) s =
    let onwards = first_present fuel pv (Properties.next_entity s.key (pv.entry j)) in
    (do fieldpresent ← field_present (pv.entry j); if fieldpresent then pure j else onwards) s

-- One round of the loop over the members on the stream: `none` is `continue`. From the test of
-- the size on it is the round of xcdr_v2_stream.
unfoldable pub read_member : Bool → Propvec → ℕ → Op (Option ℕ)
read_member back pv i = do
  (temp, is_final) ← read_header
  sz ← λ s. checked (top s.e_sz) s
  λ s. if is_final then failed s else take_member back pv i temp sz s

-- `while (1)`, with fuel: every round takes four bytes at least.
unfoldable pub member_loop : ℕ → Bool → Propvec → ℕ → Op ℕ
member_loop zero back pv i s = fault
member_loop (suc fuel) back pv i s = elim (read_member back pv i s) [
  | ok (some p) s' ↦ ok p s'
  | ok none s' ↦ member_loop fuel back pv i s'
  | failed s' ↦ failed s'
  | fault ↦ fault
]

unfoldable pub next_entity : Propvec → ℕ → Op ℕ
next_entity pv i s =
    if not (is_read s.mode)
    then found (Properties.next_entity s.key (pv.entry i)) s
    else elim (pv.entry i).parent [
      | none ↦ fault
      | some parent ↦
          if list_necessary (pv.entry parent)
          then member_loop (rounds s) true pv i s
          else next_present pv.count pv (Properties.next_entity s.key (pv.entry i)) s
    ]

unfoldable pub first_entity : Propvec → Entity → Op ℕ
first_entity pv props s = elim (Properties.first_entity s.key props) [
  | none ↦ failed s
  | some i ↦
      if not (is_read s.mode)
      then ok i s
      else if list_necessary props
      then member_loop (rounds s) false pv i s
      else first_present pv.count pv (some i) s
]
