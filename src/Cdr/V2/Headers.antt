-- ===== src/Cdr/V2/Headers.antt =====
-- The headers of xcdr_v2_stream: delimiters, member headers and optional tags.
use cyclonedds_cxx.Common.{
  ℕ, ◌+◌, ◌-◌, ◌*◌, ◌/◌, ◌%◌, Bool, true, false, [], ◌∷◌, ◌==◌, if◌then◌else◌,
}
use cyclonedds_cxx.Cdr.CustomStack.{push, pop, top, set_top}
use cyclonedds_cxx.Cdr.State.{
  ok, failed, fault, Op, pure, ◌>>=◌, ◌>>◌, modify, checked, word_size, u32_size,
}
use cyclonedds_cxx.Cdr.Stream.{align, bytes_available, set_position, set_alignment}
use cyclonedds_cxx.Cdr.Bytes.{one, four}
use cyclonedds_cxx.Cdr.Primitive.{read, write, move}
use cyclonedds_cxx.Cdr.Text.{head_or_zero}
use cyclonedds_cxx.Cdr.Properties.{Entity}

-- A call whose result the code does not look at.
abbrev pub unheeded : Op (Unit {0}) → Op (Unit {0})
unheeded m s = elim (m s) [ ok a s' ↦ ok tt s' | failed s' ↦ ok tt s' | fault ↦ fault ]

-- A difference of two sizes, cut to uint32_t.
abbrev pub u32_between : ℕ → ℕ → ℕ
u32_between from to = (to + word_size - from) % word_size % u32_size

-- Writes `v` over the four bytes at `p`, and puts the cursor and the alignment back.
unfoldable pub overwrite : ℕ → ℕ → Op (Unit {0})
overwrite p v s =
    (do
      modify (set_position p)
      modify (set_alignment 4)
      write four (v ∷ [])
      modify (set_position s.position)
      modify (set_alignment s.current_alignment))
      s

unfoldable pub write_d_header : Op (Unit {0})
write_d_header = do
  unheeded (align 4 true)
  ds ← λ s. checked (push s.position s.delimiters) s
  modify (λ s. record s { delimiters = ds })
  write four (0 ∷ [])

unfoldable pub finish_d_header : Op (Unit {0})
finish_d_header = do
  (d_off, ds) ← λ s. checked (pop s.delimiters) s
  modify (λ s. record s { delimiters = ds })
  λ s.
      let d_sz = u32_between (d_off + 4) s.position in
      if d_sz == 0 then ok tt s else overwrite d_off d_sz s

unfoldable pub read_d_header : Op (Unit {0})
read_d_header = do
  d_sz ← read four 1
  ends ← λ s. checked (push ((s.position + head_or_zero d_sz) % word_size) s.buffer_end) s
  modify (λ s. record s { buffer_end = ends })

unfoldable pub move_d_header : Op (Unit {0})
move_d_header = move four 1

unfoldable pub write_optional_tag : Bool → Op (Unit {0})
write_optional_tag present = write one ((if present then 1 else 0) ∷ [])

unfoldable pub move_optional_tag : Op (Unit {0})
move_optional_tag = move one 1

-- id_mask is 0x0FFFFFFF, nextint 0x40000000 and must_understand 0x80000000.
unfoldable pub em_header : Bool → ℕ → ℕ
em_header understand id = (if understand then 0x8000_0000 else 0) + id % 0x1000_0000 + 0x4000_0000

unfoldable pub write_em_header : Entity → Op (Unit {0})
write_em_header props = do
  write four (em_header props.must_understand props.m_id ∷ [])
  write four (0 ∷ [])

unfoldable pub move_em_header : Op (Unit {0})
move_em_header = do move four 1; move four 1

unfoldable pub finish_em_header : Op (Unit {0})
finish_em_header = do
  off ← λ s. checked (top s.e_off) s
  λ s.
      let e_sz = u32_between off s.position in
      if e_sz == 0 then ok tt s else overwrite ((off + u32_size - 4) % u32_size) e_sz s

-- What a header sets in the entity_properties_t that the reading loops pass down.
pub record Header : Type 0 where
  pub m_id : ℕ
  pub must_understand : Bool
  pub implementation_extension : Bool
  pub ignore : Bool

-- `m_e_sz.top() = sz`, where the stack holds uint32_t.
unfoldable pub set_size : ℕ → Op (Unit {0})
set_size sz = do
  szs ← λ s. checked (set_top (sz % u32_size) s.e_sz) s
  modify (λ s. record s { e_sz = szs })

-- The length codes with a factor: the size of the whole is `factor` times the next integer, and
-- 4 for that integer, which is read again as a part of the member.
unfoldable pub read_factor : ℕ → Op (Unit {0})
read_factor factor = do
  n ← read four 1
  set_size ((head_or_zero n * factor % u32_size + 4) % u32_size)
  modify (λ s. set_position ((s.position + word_size - 4) % word_size) s)

unfoldable pub read_next : Op (Unit {0})
read_next = do n ← read four 1; set_size (head_or_zero n)

-- The switch on `emheader & lc_mask`.
unfoldable pub read_length : ℕ → Op (Unit {0})
read_length lc =
    if lc == 0
    then set_size 1
    else if lc == 1
    then set_size 2
    else if lc == 2
    then set_size 4
    else if lc == 3
    then set_size 8
    else if lc == 4
    then read_next
    else if lc == 5
    then read_factor 1
    else if lc == 6
    then read_factor 4
    else read_factor 8

unfoldable pub read_em_header : Op Header
read_em_header s =
    let align_bytes = (4 - s.position % 4) % 4 in
    (do
      bytes_available (4 + align_bytes) true
      hs ← read four 1
      let emheader = head_or_zero hs
      read_length (emheader / 0x1000_0000 % 8)
      pure (record {
        m_id = emheader % 0x1000_0000;
        must_understand = emheader / 0x8000_0000 % 2 == 1;
        implementation_extension = false;
        ignore = false;
      }))
      s
