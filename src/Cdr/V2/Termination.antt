-- ===== src/Cdr/V2/Termination.antt =====
-- The loops over the members on a stream end, however the bytes are.
use cyclonedds_cxx.Common.{
  ℕ, ◌+◌, ◌-◌, ◌%◌, ◌≤◌, ◌<◌, List, ◌∷◌, ◌≡◌, refl, arith, inl, inr, Bool, true, false,
  if◌then◌else◌, ◌==◌,
}
use cyclonedds_cxx.Cdr.CustomStack.{set_top}
use cyclonedds_cxx.Cdr.State.{
  Stream, StreamMode, Outcome, ok, failed, fault, Op, u32_size, word_size,
}
use cyclonedds_cxx.Cdr.Bytes.{four}
use cyclonedds_cxx.Cdr.Primitive.{read}
use cyclonedds_cxx.Cdr.Primitive.Bounds.{behind}
use cyclonedds_cxx.Cdr.Primitive.RoundTrip.{read_cases}
use cyclonedds_cxx.Cdr.Ready.{IsReady, IsReady-advance, new_alignment, peek_cases}
use cyclonedds_cxx.Cdr.V2.Headers.{set_size, read_factor, read_next, read_length, read_em_header}
use native.Mathlib.Nat.{le_refl}
use cyclonedds_cxx.Cdr.Stream.{bytes_available}

-- A stream that reads up to `end`, with the size of the current member above `rest`.
pub record IsReading (end off : ℕ) (rest : List ℕ) (s : Stream) : Type 0 where
  pub ready : IsReady StreamMode.read end s
  pub offset_is : s.alignment_offset ≡ off
  pub sz : ℕ
  pub sizes : s.e_sz ≡ sz ∷ rest
  pub sz_lt : sz < 0x1_0000_0000

-- A call that fails, or succeeds in such a stream no further back than `p`; no assertion fails.
abbrev pub Reaches : {A : Type 0} → ℕ → ℕ → List ℕ → ℕ → Outcome A → Type 0
Reaches end off rest p (ok a s) = IsReading end off rest s × (p ≤ s.position)
Reaches end off rest p (failed s) = Unit {0}
Reaches end off rest p fault = ⊥

Reaches-bind :
    {A B : Type 0} (end off : ℕ) (rest : List ℕ) (p q : ℕ) (m : Outcome A) (f : A → Op B)
    → Reaches end off rest p m
    → ((a : A) (s : Stream)
        → IsReading end off rest s
        → p ≤ s.position
        → Reaches end off rest q (f a s))
    → Reaches end off rest q (elim m [ ok a s ↦ f a s | failed s ↦ failed s | fault ↦ fault ])
Reaches-bind end off rest p q (ok a s) f (r, lo) next = next a s r lo
Reaches-bind end off rest p q (failed s) f h next = tt
Reaches-bind end off rest p q fault f h next = h

Reaches-weaken :
    {A : Type 0} (end off : ℕ) (rest : List ℕ) (p q : ℕ) (m : Outcome A)
    → q ≤ p
    → Reaches end off rest p m
    → Reaches end off rest q m
Reaches-weaken end off rest p q (ok a s) h (r, lo) = (r, omega arith)
Reaches-weaken end off rest p q (failed s) h r = tt
Reaches-weaken end off rest p q fault h r = r

IsReady-sizes :
    {end : ℕ} {s : Stream}
    → IsReady StreamMode.read end s
    → (szs : List ℕ) → IsReady StreamMode.read end (record s { e_sz = szs })
IsReady-sizes r szs = ground arith

IsReady-back :
    {end : ℕ} {s : Stream}
    → IsReady StreamMode.read end s
    → (p : ℕ) → p ≤ s.position
    → s.alignment_offset ≤ p
    → IsReady StreamMode.read end (record s { position = p })
IsReady-back r p hi lo = ground arith

module _ {end off : ℕ} {rest : List ℕ} {s : Stream} (r : IsReading end off rest s) where
  read-Reaches : Reaches end off rest (s.position + 4) (read four 1 s)
  read-Reaches = elim (read_cases r.ready four 1 (omega arith)) [
    | inl (fits, (vs, e)) ↦ rw e (
      record {
        ready =
            IsReady-advance r.ready (inl refl) (behind four 1 s) (new_alignment 4 s) s.buffer
              (omega arith) fits;
        offset_is = r.offset_is;
        sz = r.sz;
        sizes = r.sizes;
        sz_lt = r.sz_lt;
      },
      omega arith,
    )
    | inr (t', e) ↦ rw e tt
  ]

  set_size-Reaches : (n : ℕ) → Reaches end off rest s.position (set_size n s)
  set_size-Reaches n =
      let e : set_size n s ≡ ok tt (record s { e_sz = (n % u32_size) ∷ rest }) =
        unfold set_size set_top in ground (arith, r.sizes) in
      rw e (
        record {
          ready = IsReady-sizes r.ready ((n % u32_size) ∷ rest);
          offset_is = r.offset_is;
          sz = n % u32_size;
          sizes = refl;
          sz_lt = omega arith;
        },
        omega arith,
      )

module _ {end off : ℕ} {rest : List ℕ} {s : Stream} (r : IsReading end off rest s) where
  read_next-Reaches : Reaches end off rest s.position (read_next s)
  unfolding read_next
  read_next-Reaches =
      Reaches-bind end off rest _ _ (read four 1 s) _ (read-Reaches r) (λ vs t rt lo.
        Reaches-weaken end off rest _ _ (set_size _ t) (omega arith) (set_size-Reaches rt _))

  -- The step back over the integer that is read twice.
  back :
      off ≤ s.position
      → (u : Stream) → IsReading end off rest u
      → s.position + 4 ≤ u.position
      → IsReading end off rest (record u { position = (u.position + word_size - 4) % word_size })
        × (s.position ≤ (u.position + word_size - 4) % word_size)
  back o u ru lo =
      let p : (u.position + word_size - 4) % word_size ≡ u.position - 4 =
        omega (arith, ru.ready.within, ru.ready.end_lt) in
      rw p (
        record {
          ready =
              IsReady-back ru.ready (u.position - 4) (omega arith) (omega (arith, ru.offset_is));
          offset_is = ru.offset_is;
          sz = ru.sz;
          sizes = ru.sizes;
          sz_lt = ru.sz_lt;
        },
        omega arith,
      )

  read_factor-Reaches : (factor : ℕ) → Reaches end off rest s.position (read_factor factor s)
  unfolding read_factor
  read_factor-Reaches factor =
      Reaches-bind end off rest _ _ (read four 1 s) _ (read-Reaches r) (λ vs t rt lo.
        Reaches-bind end off rest _ _ (set_size _ t) _ (set_size-Reaches rt _)
          (λ _ u ru lo'. back (omega arith) u ru (omega arith)))

  read_length-Reaches : (lc : ℕ) → Reaches end off rest s.position (read_length lc s)
  unfolding read_length
  read_length-Reaches lc = either (lc == 0) _ _ (set_size-Reaches r 1) (
      either (lc == 1) _ _ (set_size-Reaches r 2) (
        either (lc == 2) _ _ (set_size-Reaches r 4) (
          either (lc == 3) _ _ (set_size-Reaches r 8) (
            either (lc == 4) _ _ read_next-Reaches (
              either (lc == 5) _ _ (read_factor-Reaches 1)
                (either (lc == 6) _ _ (read_factor-Reaches 4) (read_factor-Reaches 8)))))))
    where
      either :
          (b : Bool) (x y : Op (Unit {0}))
          → Reaches end off rest s.position (x s)
          → Reaches end off rest s.position (y s)
          → Reaches end off rest s.position ((if b then x else y) s)
      either true x y h k = h
      either false x y h k = k

  peek-Reaches : (n : ℕ) → Reaches end off rest s.position (bytes_available n true s)
  peek-Reaches n = elim (peek_cases r.ready (inl refl) n) [
    | inl e ↦ rw e (r, le_refl s.position)
    | inr e ↦ rw e tt
  ]

module _ {end off : ℕ} {rest : List ℕ} {s : Stream} (r : IsReading end off rest s) where
  -- A member header that is read takes four bytes at least.
  pub read_em_header-Reaches : Reaches end off rest (s.position + 4) (read_em_header s)
  unfolding read_em_header
  read_em_header-Reaches =
      Reaches-bind end off rest s.position _ (bytes_available _ true s) _ (peek-Reaches r _)
        (λ _ t rt lo.
          Reaches-bind end off rest (t.position + 4) _ (read four 1 t) _ (read-Reaches rt)
            (λ vs u ru lo'.
              Reaches-bind end off rest u.position _ (read_length _ u) _ (read_length-Reaches ru _)
                (λ _ v rv lo''. (rv, omega arith))))
