-- ===== src/Cdr/V2/MemberHeader.antt =====
-- The header in front of a member of a mutable struct: its id, whether it has to be understood,
-- and the size that finish_em_header completes.
use cyclonedds_cxx.Common.{
  ℕ, ◌+◌, ◌-◌, ◌/◌, ◌%◌, ◌≤◌, ◌<◌, List, [], ◌∷◌, ◌≡◌, refl, arith, inl, inr, Bool, true, false,
  if◌then◌else◌, ◌==◌, ◌∙◌, some, ap, Bool-cases, sym, ==_iff,
}
use mathlib.Core.Path.{ap₂}
use cyclonedds_cxx.Common.Memory.{Memory, poke, poke_below, Agrees}
use cyclonedds_cxx.Cdr.CustomStack.{top, set_top}
use cyclonedds_cxx.Cdr.State.{Stream, StreamMode, ok, endianness_ne, u32_size}
use cyclonedds_cxx.Cdr.Bytes.{four}
use cyclonedds_cxx.Cdr.Primitive.{stored_all, read}
use cyclonedds_cxx.Cdr.Primitive.RoundTrip.{read_stored}
use cyclonedds_cxx.Cdr.Ready.{IsReady, IsReady-advance, new_alignment_four, peek_fits}
use cyclonedds_cxx.Cdr.Properties.{Entity}
use cyclonedds_cxx.Cdr.V2.Headers.{
  em_header, finish_em_header, set_size, read_next, read_length, read_em_header, u32_between,
}
use cyclonedds_cxx.Cdr.V2.Delimiter.{delimiter_at}
use cyclonedds_cxx.Cdr.V2.Overwrite.{overwritten, overwrite_fits}

-- The fields of the 32-bit header come apart again, whatever the id.
pub em_header_fields :
    (u : Bool) (id : ℕ)
    → (em_header u id < 0x1_0000_0000)
      × (em_header u id / 0x1000_0000 % 8 ≡ 4)
      × (em_header u id % 0x1000_0000 ≡ id % 0x1000_0000)
      × ((em_header u id / 0x8000_0000 % 2 == 1) ≡ u)
unfolding em_header
em_header_fields true id = (omega arith, omega arith, omega arith, ground arith)
em_header_fields false id = (omega arith, omega arith, omega arith, ground arith)

-- What the streaming of the member leaves between the calls: `d` is where the header of `e`
-- starts, and its two words are as write_em_header left them.
pub record IsMember (end d : ℕ) (e : Entity) (s : Stream) : Type 0 where
  pub ready : IsReady StreamMode.write end s
  pub start : top s.e_off ≡ some (d + 8)
  pub behind_header : d + 8 ≤ s.position
  pub not_too_far : s.position < 0x1_0000_0000
  pub offset_before : s.alignment_offset ≤ d
  pub base : Memory
  pub base' : Memory
  pub header_kept :
      Agrees s.buffer
        (poke base d (stored_all s.native s.swap four (em_header e.must_understand e.m_id ∷ [])))
        d
        (d + 4)
  pub length_kept :
      Agrees s.buffer
        (poke base' (d + 4) (stored_all s.native s.swap four (0 ∷ [])))
        (d + 4)
        (d + 8)

abbrev pub member_size : ℕ → Stream → ℕ
member_size d s = s.position - (d + 8)

abbrev pub member_finished : ℕ → Stream → Stream
member_finished d s = if member_size d s == 0 then s else overwritten (d + 4) (member_size d s) s

module _ {end d : ℕ} {e : Entity} {s : Stream} (k : IsMember end d e s) where
  pub finish_em_header_fits : finish_em_header s ≡ ok tt (member_finished d s)
  unfolding finish_em_header
  finish_em_header_fits =
      let r = k.ready in
      let size_eq : u32_between (d + 8) s.position ≡ member_size d s =
        omega (arith, r.end_lt, r.within, k.behind_header, k.not_too_far) in
      let at : (d + 8 + u32_size - 4) % u32_size ≡ d + 4 =
        omega (arith, k.behind_header, k.not_too_far) in
      ground (
        arith,
        k.start,
        size_eq,
        at,
        overwrite_fits r (d + 4) (member_size d s) (omega arith) (omega arith),
      )

  header_stored :
      (base : Memory) × Agrees
        (member_finished d s).buffer
        (poke base d (stored_all s.native s.swap four (em_header e.must_understand e.m_id ∷ [])))
        d
        (d + 4)
  header_stored = (
    k.base,
    λ a lo hi. elim (Bool-cases (member_size d s == 0)) [
      | inl empty ↦ rw empty (k.header_kept a lo hi)
      | inr more ↦ rw more (
          poke_below s.buffer (d + 4) (stored_all s.native s.swap four (member_size d s ∷ [])) a hi
          ∙ k.header_kept a lo hi)
    ],
  )

  size_stored :
      (base : Memory) × Agrees
        (member_finished d s).buffer
        (poke base (d + 4) (stored_all s.native s.swap four (member_size d s ∷ [])))
        (d + 4)
        (d + 8)
  size_stored = elim (Bool-cases (member_size d s == 0)) [
    | inl empty ↦ (
      k.base',
      λ a lo hi. rw empty (
          k.length_kept a lo hi
          ∙ ap (λ n. poke k.base' (d + 4) (stored_all s.native s.swap four (n ∷ [])) a)
              (sym ((==_iff _ _).0 empty))),
    )
    | inr more ↦ (s.buffer, λ a lo hi. rw more)
  ]

  -- Where the writer is behind a member whose header write_em_header put at d (IsMember),
  -- finish_em_header succeeds, and read_em_header of a reader in the same byte order that stands
  -- at the header, with its eight bytes as the writer left them within its buffer, returns the id
  -- modulo 2 ^ 28, whether the member has to be understood, and the size that the member took.
  pub read_em_header-finish_em_header :
      {end' : ℕ} {t : Stream} (rt : IsReady StreamMode.read end' t) (x : ℕ) (rest : List ℕ)
      → delimiter_at t ≡ d
      → t.stream_endianness ≡ s.stream_endianness
      → d + 8 ≤ end'
      → t.e_sz ≡ x ∷ rest
      → Agrees t.buffer (member_finished d s).buffer d (d + 8)
      → (finish_em_header s ≡ ok tt (member_finished d s))
        × (read_em_header t
            ≡ ok
                (record {
                  m_id = e.m_id % 0x1000_0000;
                  must_understand = e.must_understand;
                  implementation_extension = false;
                  ignore = false;
                })
                (record t {
                  position = d + 8;
                  current_alignment = 4;
                  e_sz = member_size d s ∷ rest;
                }))
  unfolding read_em_header read_length read_next set_size set_top
  read_em_header-finish_em_header {t = t} rt x rest at same_end fits sizes same =
      let (base, header) = header_stored in
      let (base', sized) = size_stored in
      let h = em_header e.must_understand e.m_id in
      let v = member_size d s in
      let (h_lt, code, id_eq, understood) = em_header_fields e.must_understand e.m_id in
      let swap_eq : s.swap ≡ endianness_ne s.native t.stream_endianness =
        k.ready.swap_is ∙ ap (endianness_ne s.native) (sym same_end) in
      let four_eq = new_alignment_four rt in
      let t1 = record t { position = d + 4; current_alignment = 4 } in
      let r1 = IsReady-advance rt (inl refl) (d + 4) 4 t.buffer (omega arith) (omega arith) in
      let first : read four 1 t ≡ ok (h ∷ []) t1 =
        read_stored rt s.native base four (h ∷ []) (omega arith) (omega arith) (λ a lo hi.
          same a (omega arith) (omega arith)
          ∙ header a (omega arith) (omega arith)
          ∙ ap₂ (λ p sw. poke base p (stored_all s.native sw four (h ∷ [])) a) (sym at) swap_eq)
        ∙ ground (arith, at, four_eq) in
      let second : read four 1 t1 ≡ ok (v ∷ []) (record t1 { position = d + 8 }) =
        read_stored r1 s.native base' four (v ∷ []) (omega (arith, k.not_too_far)) (omega arith)
          (λ a lo hi.
            same a (omega arith) (omega arith)
            ∙ sized a (omega arith) (omega arith)
            ∙ ap₂ (λ p sw. poke base' p (stored_all s.native sw four (v ∷ [])) a) (omega arith)
                swap_eq)
        ∙ ground arith in
      (
        finish_em_header_fits,
        ground (
          arith,
          peek_fits rt (inl refl) (4 + (4 - t.position % 4) % 4) (omega arith),
          first,
          second,
          code,
          id_eq,
          understood,
          sizes,
        ),
      )
