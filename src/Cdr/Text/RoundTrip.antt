-- ===== src/Cdr/Text/RoundTrip.antt =====
-- read_string gives back what write_string wrote, and move_string goes as far.
use cyclonedds_cxx.Common.{
  ℕ, ◌+◌, ◌≤◌, ◌<◌, false, List, [], ◌∷◌, ◌++◌, ◌≡◌, refl, arith, ltb, inl, inr, length, Bool-cases,
  ltb→lt, ltb→le, ap, ◌∙◌, sym, subst,
}
use cyclonedds_cxx.Common.Memory.{Agrees, peek, poke, poke_below, peek-Agrees, peek-poke_left}
use cyclonedds_cxx.Cdr.State.{Stream, StreamMode, ok}
use cyclonedds_cxx.Cdr.Stream.{incr_position}
use cyclonedds_cxx.Cdr.Bytes.{four}
use cyclonedds_cxx.Cdr.Primitive.{read}
use cyclonedds_cxx.Cdr.Primitive.Bounds.{behind, written, passed, write_fits}
use cyclonedds_cxx.Cdr.Primitive.RoundTrip.{
  SameCursor, SameCursor-behind, read-write, IsSizing, move_sizes,
}
use cyclonedds_cxx.Cdr.Ready.{IsReady, bytes_available_fits, incr_position_lem, IsReady-advance}
use cyclonedds_cxx.Cdr.Text.{
  exceeds, chars_read, read_chars, read_string, check_bound, write_string, move_string,
}
use cyclonedds_cxx.Cdr.Text.Bounds.{
  behind_string, string_written, write_string_fits, write_string_refuses,
}

-- The stream behind a string of `k` chars.
abbrev pub string_passed : ℕ → Stream → Stream
string_passed k s = record s { position = behind_string k s; current_alignment = 1 }

module _ {end : ℕ} {t : Stream} (r : IsReady StreamMode.read end t) where
  -- A length field that its string fulfils.
  read_string_fits :
      (k n : ℕ)
      → k + 1 < 0x1_0000_0000
      → exceeds n (k + 1) ≡ false
      → behind_string k t ≤ end
      → read four 1 t ≡ ok ((k + 1) ∷ []) (passed four 1 t)
      → read_string n t ≡ ok (peek t.buffer (behind four 1 t) k) (string_passed k t)
  unfolding read_string read_chars chars_read
  read_string_fits k n small short fits e =
      let p = behind four 1 t in
      let ready =
        IsReady-advance r (inl refl) p (passed four 1 t).current_alignment t.buffer (omega arith)
          (omega arith) in
      let count : chars_read (k + 1) n ≡ k = ground arith in
      ground (
        arith,
        count,
        bytes_available_fits ready (inl refl) (k + 1) fits,
        incr_position_lem ready (inl refl) (k + 1) fits,
      )

-- What a successful write_string says.
write_string-eq-ok :
    {end : ℕ} {s s' : Stream} (r : IsReady StreamMode.write end s) (text : List ℕ) (n : ℕ)
    → length text + 1 < 0x1_0000_0000
    → write_string text n s ≡ ok tt s'
    → (exceeds n (length text + 1) ≡ false)
      × (behind_string (length text) s ≤ end)
      × (s' ≡ string_written text s)
write_string-eq-ok {end} {s} {s'} r text n small e =
    elim (Bool-cases (exceeds n (length text + 1))) [
      | inl long ↦ let (x, refused, _) = write_string_refuses r text n small (inl long) in cc
      | inr short ↦ elim (Bool-cases (ltb end (behind_string (length text) s))) [
        | inl over ↦
            let (x, refused, _) = write_string_refuses r text n small (inr (ltb→lt _ _ over)) in cc
        | inr fits ↦
            let h = ltb→le _ _ fits in (short, h, cc (write_string_fits r text n small short h))
      ]
    ]

-- A reader at the place where a write_string of fewer than 2 ^ 32 - 1 bytes succeeded, whose buffer holds the bytes that it
-- left and reaches as far, reads the string under the same bound and stops where the writer
-- stopped.
pub read_string-write_string :
    {end end' : ℕ} {s s' t : Stream} (rs : IsReady StreamMode.write end s)
    (rt : IsReady StreamMode.read end' t) (c : SameCursor s t) (text : List ℕ) (n : ℕ)
    → length text + 1 < 0x1_0000_0000
    → write_string text n s ≡ ok tt s'
    → Agrees t.buffer s'.buffer s.position s'.position
    → s'.position ≤ end'
    → (read_string n t ≡ ok text (string_passed (length text) t))
      × SameCursor s' (string_passed (length text) t)
read_string-write_string {end} {end'} {s} {s'} {t} rs rt c text n small e same fits =
    let (short, room, final) = write_string-eq-ok rs text n small e in
    let far : behind four 1 s ≡ behind four 1 t = SameCursor-behind c four 1 in
    let reach : s'.position ≡ behind_string (length text) s =
      ap (λ (x : Stream). x.position) final in
    let len = length text + 1 in
    let u = written four (len ∷ []) s in
    let chars = text ++ (0 ∷ []) in
    let below : (a : ℕ) → a < u.position → s'.buffer a ≡ u.buffer a =
      λ a h. ap (λ (x : Stream). x.buffer a) final ∙ poke_below u.buffer u.position chars a h in
    let field =
      read-write rs rt c four (len ∷ []) (omega arith) (omega arith)
        (write_fits rs four (len ∷ []) (omega arith))
        (λ a lo hi. same a lo (omega arith) ∙ below a hi) (omega arith) in
    let letters : peek t.buffer (behind four 1 t) (length text) ≡ text =
      peek-Agrees t.buffer (poke u.buffer (behind four 1 t) chars) _ (length text) (λ a lo hi.
        same a (omega arith) (omega arith)
        ∙ ap (λ (x : Stream). x.buffer a) final
        ∙ ap (λ p. poke u.buffer p chars a) far)
      ∙ peek-poke_left u.buffer (behind four 1 t) text (0 ∷ []) in
    (
      read_string_fits rt (length text) n small short (omega arith) field.0
          ∙ ap (λ xs. ok xs (string_passed (length text) t)) letters,
      subst (λ x. SameCursor x (string_passed (length text) t)) (sym final)
          (record {
            position_eq = omega arith;
            current_alignment_eq = refl;
            alignment_offset_eq = c.alignment_offset_eq;
            max_alignment_eq = c.max_alignment_eq;
            endianness_eq = c.endianness_eq;
          }),
    )

-- In mode move or max, at the place of a write_string of fewer than 2 ^ 32 - 1 bytes that
-- succeeds, move_string under the same bound moves as far as write_string did.
pub move_string-write_string :
    {m : StreamMode} {end : ℕ} {s s' t : Stream} (rs : IsReady StreamMode.write end s)
    (k : IsSizing m t) (c : SameCursor s t) (text : List ℕ) (n : ℕ)
    → length text + 1 < 0x1_0000_0000
    → write_string text n s ≡ ok tt s'
    → (move_string (length text) n t ≡ ok tt (string_passed (length text) t))
      × SameCursor s' (string_passed (length text) t)
unfolding move_string check_bound incr_position
move_string-write_string {s = s} {s' = s'} {t = t} rs k c text n small e =
    let (short, room, final) = write_string-eq-ok rs text n small e in
    let far : behind four 1 s ≡ behind four 1 t = SameCursor-behind c four 1 in
    let end_lt = rs.end_lt in
    (
      ground (arith, move_sizes k four 1 (omega arith)),
      subst (λ x. SameCursor x (string_passed (length text) t)) (sym final)
          (record {
            position_eq = omega arith;
            current_alignment_eq = refl;
            alignment_offset_eq = c.alignment_offset_eq;
            max_alignment_eq = c.max_alignment_eq;
            endianness_eq = c.endianness_eq;
          }),
    )
