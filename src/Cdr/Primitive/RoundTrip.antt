-- ===== src/Cdr/Primitive/RoundTrip.antt =====
-- read gives back what write wrote, on any machine, and move goes as far as write does.
use cyclonedds_cxx.Common.{
  ℕ, ◌+◌, ◌*◌, ◌≤◌, ◌<◌, false, List, ◌≡◌, refl, arith, ltb, inl, inr, ◌⊎◌, length, Bool-cases,
  ltb→lt, ltb→le, All, ap, ◌∙◌, sym, subst,
}
use cyclonedds_cxx.Common.Memory.{Memory, Agrees, poke}
use mathlib.Core.Path.{ap₂}
use cyclonedds_cxx.Cdr.Stream.{zero_bytes, incr_position, align, skip}
use cyclonedds_cxx.Cdr.State.{Endianness, Stream, StreamMode, ok, failed, size_max, endianness_ne}
use cyclonedds_cxx.Cdr.Bytes.{Width, size}
use cyclonedds_cxx.Cdr.Bytes.Swap.{bound}
use cyclonedds_cxx.Cdr.Primitive.{stored_all, loaded_all, write, read, move}
use cyclonedds_cxx.Cdr.Primitive.Wire.{loaded_all-stored_all, stored_all_native}
use cyclonedds_cxx.Cdr.Primitive.Bounds.{behind, written, passed, write_fits, write_refuses}
use cyclonedds_cxx.Cdr.Ready.{
  IsReady, new_alignment, padding, align_fits, bytes_available_fits, incr_position_lem,
  IsReady-advance, align_refuses, bytes_available_refuses,
}
use cyclonedds_cxx.Cdr.Alignment.{padding_lt}

-- Two streams stand at the same place of the same encoding. The machines may differ.
pub record SameCursor (s t : Stream) : Type 0 where
  pub position_eq : s.position ≡ t.position
  pub current_alignment_eq : s.current_alignment ≡ t.current_alignment
  pub alignment_offset_eq : s.alignment_offset ≡ t.alignment_offset
  pub max_alignment_eq : s.max_alignment ≡ t.max_alignment
  pub endianness_eq : s.stream_endianness ≡ t.stream_endianness

pub SameCursor-padding :
    {s t : Stream} (c : SameCursor s t) (a : ℕ)
    → (padding a s ≡ padding a t) × (new_alignment a s ≡ new_alignment a t)
SameCursor-padding c a = (cc, cc)

module _ {end : ℕ} {t : Stream} (r : IsReady StreamMode.read end t) where
  pub read_fits :
      (w : Width) (n : ℕ)
      → behind w n t ≤ end
      → read w n t
        ≡ ok
            (loaded_all t.native t.swap t.buffer w (t.position + padding (size w) t) n)
            (passed w n t)
  unfolding read
  read_fits w n h =
      let p = t.position + padding (size w) t in
      let ready =
        IsReady-advance r (inl refl) p (new_alignment (size w) t) t.buffer (omega arith)
          (omega arith) in
      ground (
        arith,
        align_fits r (inl refl) (size w) false (omega arith),
        bytes_available_fits ready (inl refl) (size w * n) h,
        incr_position_lem ready (inl refl) (size w * n) h,
      )

  pub read_refuses :
      (w : Width) (n : ℕ)
      → size w * n < 0x2000_0000_0000_0000
      → end < behind w n t
      → (t' : Stream) × (read w n t ≡ failed t')
  unfolding read
  read_refuses w n small over =
      let p = t.position + padding (size w) t in
      let a = new_alignment (size w) t in
      elim (Bool-cases (ltb end p)) [
        | inl far ↦
            let (t', e, _) =
              align_refuses r (inl refl) (size w) false (omega (arith, padding_lt r w))
                (ltb→lt _ _ far) in
            (t', ground arith)
        | inr near ↦
            let fits : p ≤ end = ltb→le _ _ near in
            let (t', e, _) =
              bytes_available_refuses (IsReady-advance r (inl refl) p a t.buffer (omega arith) fits)
                (inl refl) (size w * n) (omega arith) over in
            (t', ground (arith, align_fits r (inl refl) (size w) false fits))
      ]

  -- read succeeds where the values fit, and fails elsewhere.
  pub read_cases :
      (w : Width) (n : ℕ)
      → size w * n < 0x2000_0000_0000_0000
      → ((behind w n t ≤ end) × ((vs : List ℕ) × (read w n t ≡ ok vs (passed w n t))))
        ⊎ ((t' : Stream) × (read w n t ≡ failed t'))
  read_cases w n small = elim (Bool-cases (ltb end (behind w n t))) [
    | inl over ↦ inr (read_refuses w n small (ltb→lt _ _ over))
    | inr near ↦ let fits = ltb→le _ _ near in inl (fits, (_, read_fits w n fits))
  ]

-- What a successful write says.
pub write-eq-ok :
    {end : ℕ} {s s' : Stream} (r : IsReady StreamMode.write end s) (w : Width) (vs : List ℕ)
    → size w * length vs < 0x2000_0000_0000_0000
    → write w vs s ≡ ok tt s'
    → (behind w (length vs) s ≤ end) × (s' ≡ written w vs s)
write-eq-ok {end} {s} {s'} r w vs small e = elim (Bool-cases (ltb end (behind w (length vs) s))) [
  | inl over ↦ let (x, refused, _) = write_refuses r w vs small (ltb→lt _ _ over) in cc
  | inr fits ↦ let h = ltb→le _ _ fits in (h, cc (write_fits r w vs h))
]

pub SameCursor-behind :
    {s t : Stream} (c : SameCursor s t) (w : Width) (n : ℕ) → behind w n s ≡ behind w n t
SameCursor-behind c w n = omega (arith, (SameCursor-padding c (size w)).0, c.position_eq)

SameCursor-passed :
    {s t : Stream} (c : SameCursor s t) (w : Width) (vs : List ℕ)
    → SameCursor (written w vs s) (passed w (length vs) t)
SameCursor-passed c w vs = record {
  position_eq = SameCursor-behind c w (length vs);
  current_alignment_eq = (SameCursor-padding c (size w)).1;
  alignment_offset_eq = c.alignment_offset_eq;
  max_alignment_eq = c.max_alignment_eq;
  endianness_eq = c.endianness_eq;
}

-- A reader whose buffer holds, behind its padding, the bytes that some machine stores for `vs`
-- in the byte order of the stream, reads `vs`.
pub read_stored :
    {end : ℕ} {t : Stream} (r : IsReady StreamMode.read end t) (native : Endianness) (b : Memory)
    (w : Width) (vs : List ℕ)
    → All (λ v. v < bound w) vs
    → behind w (length vs) t ≤ end
    → Agrees t.buffer
        (poke b
          (t.position + padding (size w) t)
          (stored_all native (endianness_ne native t.stream_endianness) w vs))
        (t.position + padding (size w) t)
        (behind w (length vs) t)
    → read w (length vs) t ≡ ok vs (passed w (length vs) t)
read_stored {end} {t} r native b w vs hv fits same =
    let p = t.position + padding (size w) t in
    let values : loaded_all t.native t.swap t.buffer w p (length vs) ≡ vs =
      loaded_all-stored_all t.native t.stream_endianness w r.swap_is t.buffer b p vs hv (λ a lo hi.
        same a lo hi
        ∙ ap (λ bs. poke b p bs a)
            (stored_all_native native t.native t.stream_endianness w vs refl r.swap_is)) in
    read_fits r w (length vs) fits ∙ ap (λ xs. ok xs (passed w (length vs) t)) values

-- A reader at the place where a write of `vs`, values below the bound of their width and fewer
-- than 2 ^ 61 bytes, succeeded, whose buffer holds the bytes that the write left and reaches as
-- far, reads `vs` and stops where the writer stopped. The machine of the reader may have the
-- other byte order.
pub read-write :
    {end end' : ℕ} {s s' t : Stream} (rs : IsReady StreamMode.write end s)
    (rt : IsReady StreamMode.read end' t) (c : SameCursor s t) (w : Width) (vs : List ℕ)
    → size w * length vs < 0x2000_0000_0000_0000
    → All (λ v. v < bound w) vs
    → write w vs s ≡ ok tt s'
    → Agrees t.buffer s'.buffer s.position s'.position
    → s'.position ≤ end'
    → (read w (length vs) t ≡ ok vs (passed w (length vs) t))
      × SameCursor s' (passed w (length vs) t)
read-write {end} {end'} {s} {s'} {t} rs rt c w vs small hv e same fits =
    let (hs, final) = write-eq-ok rs w vs small e in
    let pads = (SameCursor-padding c (size w)).0 in
    let far = SameCursor-behind c w (length vs) in
    let reach : s'.position ≡ behind w (length vs) s = ap (λ (x : Stream). x.position) final in
    let b = zero_bytes (padding (size w) s) s.position s.buffer in
    (
      read_stored rt s.native b w vs hv (omega arith) (λ a lo hi.
          same a (omega arith) (omega arith)
          ∙ ap (λ (x : Stream). x.buffer a) final
          ∙ ap₂ (λ p sw. poke b p (stored_all s.native sw w vs) a) (omega arith)
              (rs.swap_is ∙ ap (endianness_ne s.native) c.endianness_eq)),
      subst (λ x. SameCursor x (passed w (length vs) t)) (sym final) (SameCursor-passed c w vs),
    )

-- The stream of a size computation: it has the limits of IsReady, and no buffer.
pub record IsSizing (m : StreamMode) (t : Stream) : Type 0 where
  pub mode_is : t.mode ≡ m
  pub sizes : (m ≡ StreamMode.move) ⊎ (m ≡ StreamMode.max)
  pub aligns : (t.max_alignment ≡ 4) ⊎ (t.max_alignment ≡ 8)

-- Below size_max, align in these modes only moves the cursor.
align_sizes :
    {m : StreamMode} {t : Stream} (k : IsSizing m t) (a : ℕ)
    → t.position + padding a t < size_max
    → align a false t
      ≡ ok tt
          (record t { position = t.position + padding a t; current_alignment = new_alignment a t })
unfolding align skip incr_position
align_sizes k a h = ground arith

pub move_sizes :
    {m : StreamMode} {t : Stream} (k : IsSizing m t) (w : Width) (n : ℕ)
    → behind w n t < size_max
    → move w n t ≡ ok tt (passed w n t)
unfolding move incr_position
move_sizes {t = t} k w n h = ground (arith, align_sizes k (size w) (omega arith))

-- A stream in mode move or max at the place of a write of fewer than 2 ^ 61 bytes that succeeds
-- moves as far: the size that it computes is the size that the writer needs.
pub move-write :
    {m : StreamMode} {end : ℕ} {s s' t : Stream} (rs : IsReady StreamMode.write end s)
    (k : IsSizing m t) (c : SameCursor s t) (w : Width) (vs : List ℕ)
    → size w * length vs < 0x2000_0000_0000_0000
    → write w vs s ≡ ok tt s'
    → (move w (length vs) t ≡ ok tt (passed w (length vs) t))
      × SameCursor s' (passed w (length vs) t)
move-write {t = t} rs k c w vs small e =
    let (fits, final) = write-eq-ok rs w vs small e in
    (
      move_sizes k w (length vs) (omega (arith, SameCursor-behind c w (length vs), rs.end_lt)),
      subst (λ x. SameCursor x (passed w (length vs) t)) (sym final) (SameCursor-passed c w vs),
    )
