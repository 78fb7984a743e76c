-- ===== src/Cdr/Text/Bounds.antt =====
-- What write_string and move_string do to a stream.
use cyclonedds_cxx.Common.{
  ℕ, ◌+◌, ◌%◌, ◌≤◌, ◌<◌, true, false, not, ◌&&◌, List, [], ◌∷◌, ◌++◌, ◌≡◌, refl, arith, ltb, inl,
  inr, ◌⊎◌, length, Bool-cases, leb, ltb→lt, ltb→le, ◌∙◌, length-append,
}
use cyclonedds_cxx.Common.Memory.{poke, poke_outside}
use cyclonedds_cxx.Cdr.State.{Stream, StreamMode, ok, failed, write_bound_exceeded, u32_size}
use cyclonedds_cxx.Cdr.Stream.{add_status}
use cyclonedds_cxx.Cdr.Bytes.{four}
use cyclonedds_cxx.Cdr.Primitive.Bounds.{
  behind, written, write_fits, write_refuses, is_ok, left_buffer, written_keeps,
}
use cyclonedds_cxx.Cdr.Ready.{
  IsReady, raise_heeded, bytes_available_fits, bytes_available_refuses, incr_position_lem,
  IsReady-advance,
}
use cyclonedds_cxx.Cdr.Text.{exceeds, check_bound, write_string}

-- The cursor behind a string of `k` chars.
abbrev pub behind_string : ℕ → Stream → ℕ
behind_string k s = behind four 1 s + (k + 1)

abbrev pub string_written : List ℕ → Stream → Stream
string_written text s =
    let t = written four ((length text + 1) ∷ []) s in
    record t {
      position = behind_string (length text) s;
      current_alignment = 1;
      buffer = poke t.buffer t.position (text ++ (0 ∷ []));
    }

module _ {end : ℕ} {s : Stream} (r : IsReady StreamMode.write end s) where
  pub write_string_fits :
      (text : List ℕ) (n : ℕ)
      → length text + 1 < 0x1_0000_0000
      → exceeds n (length text + 1) ≡ false
      → behind_string (length text) s ≤ end
      → write_string text n s ≡ ok tt (string_written text s)
  unfolding write_string check_bound
  write_string_fits text n small within h =
      let len = length text + 1 in
      let head = (len % u32_size) ∷ [] in
      let t = written four head s in
      let ready =
        IsReady-advance r (inr refl) t.position t.current_alignment t.buffer (omega arith)
          (omega arith) in
      let b = poke t.buffer t.position (text ++ (0 ∷ [])) in
      let ready' =
        IsReady-advance ready (inr refl) t.position t.current_alignment b (omega arith)
          (omega arith) in
      ground (
        arith,
        write_fits r four head (omega arith),
        bytes_available_fits ready (inr refl) len (omega arith),
        incr_position_lem ready' (inr refl) len (omega arith),
      )

  -- write_string refuses what exceeds its bound, and what does not fit the buffer.
  pub write_string_refuses :
      (text : List ℕ) (n : ℕ)
      → length text + 1 < 0x1_0000_0000
      → (exceeds n (length text + 1) ≡ true) ⊎ (end < behind_string (length text) s)
      → (s' : Stream) × (write_string text n s ≡ failed s')
        × ((a : ℕ) → (a < s.position) ⊎ (end ≤ a) → s'.buffer a ≡ s.buffer a)
  unfolding write_string check_bound
  write_string_refuses text n small why = elim (Bool-cases (exceeds n (length text + 1))) [
    | inl long ↦ (
      add_status write_bound_exceeded s,
      ground (arith, raise_heeded write_bound_exceeded s r.heeds_write),
      unfold add_status in λ a h. refl,
    )
    | inr short ↦ elim (Bool-cases (ltb end (behind four 1 s))) [
      | inl over ↦
          let (s', e, keeps) =
            write_refuses r four (((length text + 1) % u32_size) ∷ []) (omega arith)
              (ltb→lt _ _ over) in
          (s', ground arith, keeps)
      | inr fits ↦
          let len = length text + 1 in
          let head = (len % u32_size) ∷ [] in
          let t = written four head s in
          let fits' = ltb→le _ _ fits in
          let ready =
            IsReady-advance r (inr refl) t.position t.current_alignment t.buffer (omega arith)
              fits' in
          let (s', e, same) =
            bytes_available_refuses ready (inr refl) len (omega arith) (ground arith) in
          (
            s',
            ground (arith, write_fits r four head fits'),
            λ a h. rw same (written_keeps r four head a fits' h),
          )
    ]
  ]

  -- On a stream that is ready to write, write_string of fewer than 2 ^ 32 - 1 bytes returns true
  -- exactly when the string with its terminating zero is within its bound and fits the buffer
  -- behind its length.
  pub write_string_iff :
      (text : List ℕ) (n : ℕ)
      → length text + 1 < 0x1_0000_0000
      → is_ok (write_string text n s)
        ≡ (not (exceeds n (length text + 1)) && leb (behind_string (length text) s) end)
  write_string_iff text n small = elim (Bool-cases (exceeds n (length text + 1))) [
    | inl long ↦ let (s', e, _) = write_string_refuses text n small (inl long) in rw (e, long)
    | inr short ↦ elim (Bool-cases (ltb end (behind_string (length text) s))) [
      | inl over ↦
          let (s', e, _) = write_string_refuses text n small (inr (ltb→lt _ _ over)) in
          rw (e, short) (ground arith)
      | inr fits ↦ rw (write_string_fits text n small short (ltb→le _ _ fits), short) (ground arith)
    ]
  ]

  -- On a stream that is ready to write, whatever it returns, write_string of fewer than 2 ^ 32 - 1
  -- bytes changes no byte below the cursor and none from the end of the buffer on.
  pub write_string_keeps :
      (text : List ℕ) (n : ℕ)
      → length text + 1 < 0x1_0000_0000
      → (a : ℕ) → (a < s.position) ⊎ (end ≤ a)
      → left_buffer s.buffer (write_string text n s) a ≡ s.buffer a
  write_string_keeps text n small a h = elim (Bool-cases (exceeds n (length text + 1))) [
    | inl long ↦
        let (s', e, keeps) = write_string_refuses text n small (inl long) in rw e (keeps a h)
    | inr short ↦ elim (Bool-cases (ltb end (behind_string (length text) s))) [
      | inl over ↦
          let (s', e, keeps) = write_string_refuses text n small (inr (ltb→lt _ _ over)) in
          rw e (keeps a h)
      | inr fits ↦
          let head = (length text + 1) ∷ [] in
          rw (write_string_fits text n small short (ltb→le _ _ fits)) (
            poke_outside (written four head s).buffer (behind four 1 s) (text ++ (0 ∷ [])) a
              (omega (arith, ltb→le _ _ fits, length-append text (0 ∷ [])))
            ∙ written_keeps r four head a (omega (arith, ltb→le _ _ fits)) h)
    ]
  ]
