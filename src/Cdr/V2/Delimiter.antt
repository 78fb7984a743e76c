-- ===== src/Cdr/V2/Delimiter.antt =====
-- The delimiter in front of an appendable or mutable struct and of a sequence: what the writer
-- completes tells the reader where the writer stopped.
use cyclonedds_cxx.Common.{
  ℕ, ◌+◌, ◌-◌, ◌≤◌, ◌<◌, List, [], ◌∷◌, ◌≡◌, refl, arith, inl, inr, true, if◌then◌else◌, ◌==◌, ◌∙◌,
  length, ap, Bool-cases, sym, ==_iff,
}
use mathlib.Core.Path.{ap₂}
use cyclonedds_cxx.Common.Memory.{Memory, poke, Agrees}
use cyclonedds_cxx.Cdr.CustomStack.{push, pop, maximum_depth}
use cyclonedds_cxx.Cdr.State.{Stream, StreamMode, ok, endianness_ne}
use cyclonedds_cxx.Cdr.Stream.{zero_bytes}
use cyclonedds_cxx.Cdr.Bytes.{four}
use cyclonedds_cxx.Cdr.Primitive.{stored_all}
use cyclonedds_cxx.Cdr.Primitive.Bounds.{passed, write_fits}
use cyclonedds_cxx.Cdr.Primitive.RoundTrip.{read_stored}
use cyclonedds_cxx.Cdr.Ready.{IsReady, IsReady-advance, padding, align_fits, new_alignment_four}
use cyclonedds_cxx.Cdr.V2.Headers.{write_d_header, finish_d_header, read_d_header, u32_between}
use cyclonedds_cxx.Cdr.V2.Overwrite.{overwritten, overwrite_fits}

-- Where the delimiter of a stream at `s` starts, and the stream behind it.
abbrev pub delimiter_at : Stream → ℕ
delimiter_at s = s.position + padding 4 s

abbrev pub delimited : Stream → Stream
delimited s = record s {
  position = delimiter_at s + 4;
  current_alignment = 4;
  delimiters = delimiter_at s ∷ s.delimiters;
  buffer =
      poke (zero_bytes (padding 4 s) s.position s.buffer) (delimiter_at s)
        (stored_all s.native s.swap four (0 ∷ []));
}

module _ {end : ℕ} {s : Stream} (r : IsReady StreamMode.write end s) where
  IsReady-push : (ds : List ℕ) → IsReady StreamMode.write end (record s { delimiters = ds })
  IsReady-push ds = ground arith

module _ {end : ℕ} {s : Stream} (r : IsReady StreamMode.write end s) where
  pub write_d_header_fits :
      length s.delimiters < maximum_depth
      → delimiter_at s + 4 ≤ end
      → write_d_header s ≡ ok tt (delimited s)
  unfolding write_d_header push
  write_d_header_fits room fits =
      let p = delimiter_at s in
      let b = zero_bytes (padding 4 s) s.position s.buffer in
      let ready =
        IsReady-push (IsReady-advance r (inr refl) p 4 b (omega arith) (omega arith))
          (p ∷ s.delimiters) in
      unfold zero_bytes in
      ground (
        arith,
        new_alignment_four r,
        align_fits r (inr refl) 4 true (omega arith),
        write_fits ready four (0 ∷ []) (omega arith),
      )

-- What the members between the two calls leave: a ready stream further on, on the same machine,
-- with the delimiter on its stack and its four bytes as write_d_header left them.
pub record IsBody (end d : ℕ) (s : Stream) : Type 0 where
  pub ready : IsReady StreamMode.write end s
  pub behind_header : d + 4 ≤ s.position
  pub not_too_long : s.position < d + 4 + 0x1_0000_0000
  pub offset_before : s.alignment_offset ≤ d
  pub base : Memory
  pub header_kept :
      Agrees s.buffer (poke base d (stored_all s.native s.swap four (0 ∷ []))) d (d + 4)

-- finish_d_header with `ds` left of the stack.
abbrev pub body_size : ℕ → Stream → ℕ
body_size d s = s.position - (d + 4)

abbrev pub finished : ℕ → List ℕ → Stream → Stream
finished d ds s = record (if body_size d s == 0 then s else overwritten d (body_size d s) s) {
  delimiters = ds;
}

module _ {end d : ℕ} {s : Stream} (k : IsBody end d s) (ds : List ℕ)
    (on_stack : s.delimiters ≡ d ∷ ds) where
  pub finish_d_header_fits : finish_d_header s ≡ ok tt (finished d ds s)
  unfolding finish_d_header pop
  finish_d_header_fits =
      let r = k.ready in
      let size_eq : u32_between (d + 4) s.position ≡ body_size d s =
        omega (arith, r.end_lt, r.within, k.behind_header, k.not_too_long) in
      ground (
        arith,
        size_eq,
        overwrite_fits (IsReady-push r ds) d (body_size d s) (omega arith) (omega arith),
      )

  -- After finish_d_header the four bytes hold the size of the body, also where it is 0.
  size_stored :
      (base : Memory) × Agrees
        (finished d ds s).buffer
        (poke base d (stored_all s.native s.swap four (body_size d s ∷ [])))
        d
        (d + 4)
  size_stored = elim (Bool-cases (body_size d s == 0)) [
    | inl empty ↦ (
      k.base,
      λ a lo hi. rw empty (
          k.header_kept a lo hi
          ∙ ap (λ n. poke k.base d (stored_all s.native s.swap four (n ∷ [])) a)
              (sym ((==_iff _ _).0 empty))),
    )
    | inr more ↦ (s.buffer, λ a lo hi. rw more)
  ]

  -- Where the writer is behind a body whose delimiter write_d_header left at d (IsBody),
  -- finish_d_header succeeds, and read_d_header of a reader in the same byte order that stands at
  -- the delimiter, with its four bytes as the writer left them within its buffer and room on its
  -- stack, takes as the end of what it may read the place where the writer stood.
  pub read_d_header-finish_d_header :
      {end' : ℕ} {t : Stream} (rt : IsReady StreamMode.read end' t)
      → delimiter_at t ≡ d
      → t.stream_endianness ≡ s.stream_endianness
      → d + 4 ≤ end'
      → length t.buffer_end < maximum_depth
      → Agrees t.buffer (finished d ds s).buffer d (d + 4)
      → (finish_d_header s ≡ ok tt (finished d ds s))
        × (read_d_header t
            ≡ ok tt (record (passed four 1 t) { buffer_end = s.position ∷ t.buffer_end }))
  unfolding read_d_header push
  read_d_header-finish_d_header {t = t} rt at same_end fits room same =
      let (base, holds) = size_stored in
      let v = body_size d s in
      let value =
        read_stored rt s.native base four (v ∷ []) (omega (arith, k.not_too_long)) (omega arith)
          (λ a lo hi.
            same a (omega arith) (omega arith)
            ∙ holds a (omega arith) (omega arith)
            ∙ ap₂ (λ p sw. poke base p (stored_all s.native sw four (v ∷ [])) a) (sym at)
                (k.ready.swap_is ∙ ap (endianness_ne s.native) (sym same_end))) in
      (finish_d_header_fits, ground (arith, value, k.ready.end_lt, k.ready.within, k.behind_header))
