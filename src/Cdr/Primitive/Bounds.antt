-- ===== src/Cdr/Primitive/Bounds.antt =====
-- What read, write and move do to a stream: exactly when they succeed, and the state they leave.
use cyclonedds_cxx.Common.{
  ℕ, ◌+◌, ◌*◌, ◌≤◌, ◌<◌, Bool, true, false, List, ◌≡◌, refl, arith, ltb, ◌⊎◌, inl, inr, length, ◌∙◌,
  Bool-cases, leb, ltb→lt, ltb→le,
}
use cyclonedds_cxx.Common.Memory.{Memory, poke, poke_outside}
use cyclonedds_cxx.Cdr.State.{Stream, StreamMode, Outcome, ok, failed, fault}
use cyclonedds_cxx.Cdr.Stream.{zero_bytes}
use cyclonedds_cxx.Cdr.Bytes.{Width, size}
use cyclonedds_cxx.Cdr.Primitive.{stored_all, write}
use cyclonedds_cxx.Cdr.Alignment.{padding_lt}
use cyclonedds_cxx.Cdr.Zeroes.{zero_bytes_outside}
use cyclonedds_cxx.Cdr.Primitive.Wire.{length-stored_all}
use cyclonedds_cxx.Cdr.Ready.{
  IsReady, new_alignment, padding, align_fits, bytes_available_fits, bytes_available_refuses,
  align_refuses, incr_position_lem, IsReady-advance,
}

-- The cursor behind `n` values of width `w`, and the stream once they are written there.
abbrev pub behind : Width → ℕ → Stream → ℕ
behind w n s = s.position + padding (size w) s + size w * n

abbrev pub written : Width → List ℕ → Stream → Stream
written w vs s = record s {
  position = behind w (length vs) s;
  current_alignment = new_alignment (size w) s;
  buffer =
      poke (zero_bytes (padding (size w) s) s.position s.buffer) (s.position + padding (size w) s)
        (stored_all s.native s.swap w vs);
}

abbrev pub passed : Width → ℕ → Stream → Stream
passed w n s = record s { position = behind w n s; current_alignment = new_alignment (size w) s }

abbrev pub is_ok : {A : Type 0} → Outcome A → Bool
is_ok (ok a s) = true
is_ok (failed s) = false
is_ok fault = false

-- The memory in which a call leaves the stream.
abbrev pub left_buffer : {A : Type 0} → Memory → Outcome A → Memory
left_buffer b (ok a s) = s.buffer
left_buffer b (failed s) = s.buffer
left_buffer b fault = b

module _ {end : ℕ} {s : Stream} (r : IsReady StreamMode.write end s) where
  pub write_fits :
      (w : Width) (vs : List ℕ)
      → behind w (length vs) s ≤ end
      → write w vs s ≡ ok tt (written w vs s)
  unfolding write
  write_fits w vs h =
      let p = s.position + padding (size w) s in
      let a = new_alignment (size w) s in
      let b = zero_bytes (padding (size w) s) s.position s.buffer in
      let b' = poke b p (stored_all s.native s.swap w vs) in
      ground (
        arith,
        align_fits r (inr refl) (size w) true (omega arith),
        bytes_available_fits (IsReady-advance r (inr refl) p a b (omega arith) (omega arith))
            (inr refl) (size w * length vs) h,
        incr_position_lem (IsReady-advance r (inr refl) p a b' (omega arith) (omega arith))
            (inr refl) (size w * length vs) h,
      )

  pub written_keeps :
      (w : Width) (vs : List ℕ) (a : ℕ)
      → behind w (length vs) s ≤ end
      → (a < s.position) ⊎ (end ≤ a)
      → (written w vs s).buffer a ≡ s.buffer a
  written_keeps w vs a fits h =
      let n = padding (size w) s in
      let bs = stored_all s.native s.swap w vs in
      poke_outside (zero_bytes n s.position s.buffer) (s.position + n) bs a
        (omega (arith, length-stored_all s.native s.stream_endianness w r.swap_is vs))
      ∙ zero_bytes_outside n s.position s.buffer a (omega arith)

  pub write_refuses :
      (w : Width) (vs : List ℕ)
      → size w * length vs < 0x2000_0000_0000_0000
      → end < behind w (length vs) s
      → (s' : Stream) × (write w vs s ≡ failed s')
        × ((a : ℕ) → (a < s.position) ⊎ (end ≤ a) → s'.buffer a ≡ s.buffer a)
  unfolding write
  write_refuses w vs small over =
      let p = s.position + padding (size w) s in
      let a = new_alignment (size w) s in
      let b = zero_bytes (padding (size w) s) s.position s.buffer in
      elim (Bool-cases (ltb end p)) [
        | inl far ↦
            let (s', e, same) =
              align_refuses r (inr refl) (size w) true (omega (arith, padding_lt r w))
                (ltb→lt _ _ far) in
            (s', ground arith, λ x h. rw same)
        | inr near ↦
            let fits : p ≤ end = ltb→le _ _ near in
            let (s', e, same) =
              bytes_available_refuses (IsReady-advance r (inr refl) p a b (omega arith) fits)
                (inr refl) (size w * length vs) (omega arith) over in
            (
              s',
              ground (arith, align_fits r (inr refl) (size w) true fits),
              λ x h.
                  rw same
                    (zero_bytes_outside (padding (size w) s) s.position s.buffer x (omega arith)),
            )
      ]

  -- On a stream that is ready to write, write of fewer than 2 ^ 61 bytes returns true exactly when
  -- the values fit behind their padding.
  pub write_iff :
      (w : Width) (vs : List ℕ)
      → size w * length vs < 0x2000_0000_0000_0000
      → is_ok (write w vs s) ≡ leb (behind w (length vs) s) end
  write_iff w vs small = elim (Bool-cases (ltb end (behind w (length vs) s))) [
    | inl over ↦ let (s', e, _) = write_refuses w vs small (ltb→lt _ _ over) in rw e (ground arith)
    | inr fits ↦ rw (write_fits w vs (ltb→le _ _ fits)) (ground arith)
  ]

  -- On a stream that is ready to write, whether or not it succeeds, write of fewer than 2 ^ 61
  -- bytes changes no byte below the cursor and none from the end of the buffer on.
  pub write_keeps :
      (w : Width) (vs : List ℕ)
      → size w * length vs < 0x2000_0000_0000_0000
      → (a : ℕ) → (a < s.position) ⊎ (end ≤ a)
      → left_buffer s.buffer (write w vs s) a ≡ s.buffer a
  write_keeps w vs small a h = elim (Bool-cases (ltb end (behind w (length vs) s))) [
    | inl over ↦ let (s', e, keeps) = write_refuses w vs small (ltb→lt _ _ over) in rw e (keeps a h)
    | inr fits ↦ rw (write_fits w vs (ltb→le _ _ fits)) (written_keeps w vs a (ltb→le _ _ fits) h)
  ]
