-- ===== src/Cdr/Primitive/Reading.antt =====
-- read and the end of the buffer.
use cyclonedds_cxx.Common.{
  ℕ, zero, suc, ◌+◌, ◌*◌, ◌<◌, Bool, ◌∷◌, ◌≡◌, refl, ap, inl, inr, Option, none, some, ◌↔◌,
  Bool-cases, ltb, ltb→lt, ltb→le, arith,
}
use mathlib.Core.Path.{ap₂}
use cyclonedds_cxx.Common.Memory.{Memory, Agrees, peek-Agrees}
use cyclonedds_cxx.Cdr.State.{Endianness, Stream, StreamMode, Outcome, ok, failed, fault}
use cyclonedds_cxx.Cdr.Bytes.{Width, size}
use cyclonedds_cxx.Cdr.Primitive.{loaded, loaded_all, read}
use cyclonedds_cxx.Cdr.Primitive.Bounds.{behind}
use cyclonedds_cxx.Cdr.Primitive.RoundTrip.{read_fits, read_refuses}
use cyclonedds_cxx.Cdr.Ready.{IsReady, IsReady-advance, padding}

-- What an operation returns.
abbrev pub returned : {A : Type 0} → Outcome A → Option A
returned (ok a s) = some a
returned (failed s) = none
returned fault = none

loaded_all-Agrees :
    (native : Endianness) (swap : Bool) (m m' : Memory) (w : Width) (p n : ℕ)
    → Agrees m m' p (p + size w * n)
    → loaded_all native swap m w p n ≡ loaded_all native swap m' w p n
unfolding loaded_all
loaded_all-Agrees native swap m m' w p zero same = refl
loaded_all-Agrees native swap m m' w p (suc n) same =
    ap₂ (λ bs vs. loaded native swap w bs ∷ vs)
      (peek-Agrees m m' p (size w) (λ a lo hi. same a lo (omega arith)))
      (loaded_all-Agrees native swap m m' w (p + size w) n
        (λ a lo hi. same a (omega arith) (omega arith)))

-- On a stream that is ready to read, what read of fewer than 2 ^ 61 bytes returns depends only on
-- the bytes from the cursor up to the end of what may be read, and it returns values exactly when
-- they fit there behind their padding.
pub read_within :
    {end : ℕ} {t : Stream} (r : IsReady StreamMode.read end t) (w : Width) (n : ℕ) (m : Memory)
    → size w * n < 0x2000_0000_0000_0000
    → Agrees t.buffer m t.position end
    → (returned (read w n t) ≡ returned (read w n (record t { buffer = m })))
      × ((returned (read w n t) ≡ none) ↔ (end < behind w n t))
read_within {end} {t} r w n m small same =
    let r' : IsReady StreamMode.read end (record t { buffer = m }) =
      IsReady-advance r (inl refl) t.position t.current_alignment m (omega arith) r.within in
    elim (Bool-cases (ltb end (behind w n t))) [
      | inl over ↦
          let o = ltb→lt _ _ over in
          let (t₁, e₁) = read_refuses r w n small o in
          let (t₂, e₂) = read_refuses r' w n small o in
          (rw (e₁, e₂) refl, (λ _. o, λ _. rw e₁ refl))
      | inr near ↦
          let fits = ltb→le _ _ near in
          let e₁ = read_fits r w n fits in
          let e₂ = read_fits r' w n fits in
          let p = t.position + padding (size w) t in
          let values =
            loaded_all-Agrees t.native t.swap t.buffer m w p n
              (λ a lo hi. same a (omega arith) (omega arith)) in
          let result = ap returned e₁ in
          (rw (e₁, e₂) (ap some values), (λ e. cc, λ o. absurd (omega arith)))
    ]
