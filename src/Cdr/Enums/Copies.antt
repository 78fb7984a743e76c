-- ===== src/Cdr/Enums/Copies.antt =====
-- Which number goes to the stream for an enumerator.
use cyclonedds_cxx.Common.{ℕ, ◌<◌, [], ◌∷◌, ◌≡◌, ◌⊎◌, inl, inr, refl, ap, ◌∙◌, arith}
use cyclonedds_cxx.Cdr.State.{
  Endianness, Outcome, Stream, pure, ◌>>◌, ok, failed, fault, little_endian, big_endian,
}
use cyclonedds_cxx.Cdr.Bytes.{one, four, le_bytes, le_value, backwards, object_bytes, object_value}
use cyclonedds_cxx.Cdr.Primitive.{write}
use cyclonedds_cxx.Cdr.Enums.{reinterpreted, write_each, write_enum_impl}

small_on_little : (v : ℕ) → v < 0x100 → reinterpreted little_endian four one v ≡ v
unfolding reinterpreted object_bytes object_value le_bytes le_value
small_on_little v h = ground arith

small_on_big : (v : ℕ) → v < 0x100 → reinterpreted big_endian four one v ≡ 0
unfolding reinterpreted object_bytes object_value le_bytes le_value backwards
small_on_big v h = ground arith

Endianness-cases : (e : Endianness) → (e ≡ little_endian) ⊎ (e ≡ big_endian)
Endianness-cases little_endian = inl refl
Endianness-cases big_endian = inr refl

return_true :
    (o : Outcome (Unit {0}))
    → elim o as (λ x. Outcome (Unit {0})) [ ok a s ↦ ok tt s | failed s ↦ failed s | fault ↦ fault ]
      ≡ o
return_true (ok a s) = refl
return_true (failed s) = refl
return_true fault = refl

one_value :
    (w : ℕ) (s : Stream) (x : ℕ) → w ≡ x → (write one (w ∷ []) >> pure tt) s ≡ write one (x ∷ []) s
one_value w s x e = return_true (write one (w ∷ []) s) ∙ ap (λ z. write one (z ∷ []) s) e

-- An enumerator of an enumeration with a bit bound of 8, below 256 and in an object of four bytes,
-- goes to the stream as its one byte on a little-endian machine, and as 0 on a big-endian one.
pub write_enum_by_machine :
    (v : ℕ) (s : Stream)
    → v < 0x100
    → ((s.native ≡ little_endian) × (write_enum_impl four one (v ∷ []) s ≡ write one (v ∷ []) s))
      ⊎ ((s.native ≡ big_endian) × (write_enum_impl four one (v ∷ []) s ≡ write one (0 ∷ []) s))
unfolding write_enum_impl write_each
write_enum_by_machine v s h = elim (Endianness-cases s.native) [
  | inl e ↦ inl (e, one_value _ s v (ap (λ n. reinterpreted n four one v) e ∙ small_on_little v h))
  | inr e ↦ inr (e, one_value _ s 0 (ap (λ n. reinterpreted n four one v) e ∙ small_on_big v h))
]
