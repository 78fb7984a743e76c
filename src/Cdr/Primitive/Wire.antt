-- ===== src/Cdr/Primitive/Wire.antt =====
-- The bytes of a value on the stream do not depend on the machine that writes or reads it.
use cyclonedds_cxx.Common.{
  ℕ, ◌+◌, ◌*◌, ◌<◌, Bool, true, false, ◌&&◌, List, [], ◌∷◌, ◌++◌, ◌≡◌, refl, arith, length,
  length-append, All, ap, ◌∙◌, sym, if◌then◌else◌, Bool-cases, inl, inr, subst,
}
use mathlib.Core.Path.{ap₂}
use cyclonedds_cxx.Common.Memory.{
  Memory, Agrees, peek, poke, peek-Agrees, peek-poke_left, poke_right,
}
use cyclonedds_cxx.Cdr.State.{Endianness, little_endian, big_endian, endianness_ne}
use cyclonedds_cxx.Cdr.Bytes.{
  Width, one, two, four, eight, size, backwards, object_bytes, object_value, byte_swap,
  wider_than_byte,
}
use cyclonedds_cxx.Cdr.Bytes.Swap.{
  byte_swap-object_bytes, bound, object_value-object_bytes, length-object_bytes,
}
use cyclonedds_cxx.Cdr.Primitive.{stored, stored_all, loaded, loaded_all}

pub flip-flip_object :
    (w : Width) (v : ℕ)
    → (backwards (object_bytes little_endian (size w) v) [] ≡ object_bytes big_endian (size w) v)
      × (backwards (object_bytes big_endian (size w) v) [] ≡ object_bytes little_endian (size w) v)
unfolding object_bytes backwards
flip-flip_object one v = (refl, refl)
flip-flip_object two v = (refl, refl)
flip-flip_object four v = (refl, refl)
flip-flip_object eight v = (refl, refl)

endianness_eq : (e f : Endianness) → endianness_ne e f ≡ false → e ≡ f
endianness_eq e f h = ground arith

endianness_ne_comm : (e f : Endianness) → endianness_ne e f ≡ endianness_ne f e
endianness_ne_comm e f = ground arith

one_byte : (e f : Endianness) (v : ℕ) → object_bytes e 1 v ≡ object_bytes f 1 v
unfolding object_bytes
one_byte little_endian little_endian v = refl
one_byte little_endian big_endian v = refl
one_byte big_endian little_endian v = refl
one_byte big_endian big_endian v = refl

-- byte_swap takes either byte order to the other.
byte_swap_other :
    (native a b : Endianness) (w : Width) (v : ℕ)
    → endianness_ne a b ≡ true
    → byte_swap native w (object_bytes a (size w) v) ≡ object_bytes b (size w) v
byte_swap_other native little_endian little_endian w v h = cc
byte_swap_other native big_endian big_endian w v h = cc
byte_swap_other native little_endian big_endian w v h =
    byte_swap-object_bytes native little_endian w v ∙ (flip-flip_object w v).0
byte_swap_other native big_endian little_endian w v h =
    byte_swap-object_bytes native big_endian w v ∙ (flip-flip_object w v).1

-- The conditional swap of read and write is a change of byte order.
swap_if :
    (native end from to : Endianness) (w : Width) (v : ℕ)
    → endianness_ne native end ≡ endianness_ne from to
    → (if wider_than_byte w && endianness_ne native end
        then byte_swap native w (object_bytes from (size w) v)
        else object_bytes from (size w) v)
      ≡ object_bytes to (size w) v
swap_if native end from to one v h = one_byte from to v
swap_if native end from to w v h = elim (Bool-cases (endianness_ne from to)) [
  | inl ne ↦ rw (h, ne) (byte_swap_other native from to w v ne)
  | inr same ↦ rw (h, same) (ap (λ e. object_bytes e (size w) v) (endianness_eq from to same))
]

-- What write leaves at the cursor is the value in the byte order of the stream, whatever the
-- byte order of the machine.
pub stored-object_bytes :
    (native end : Endianness) (w : Width) (v : ℕ)
    → stored native (endianness_ne native end) w v ≡ object_bytes end (size w) v
unfolding stored
stored-object_bytes native end w v = swap_if native end native end w v refl

-- A reader on any machine finds in those bytes the value, where it is below the bound of its
-- width.
pub loaded-object_bytes :
    (native end : Endianness) (w : Width) (v : ℕ)
    → v < bound w
    → loaded native (endianness_ne native end) w (object_bytes end (size w) v) ≡ v
unfolding loaded
loaded-object_bytes native end w v h =
    ap (object_value native) (swap_if native end end native w v (endianness_ne_comm native end))
    ∙ object_value-object_bytes native w v h

module _ (native end : Endianness) {swap : Bool} (w : Width)
    (sw : swap ≡ endianness_ne native end) where
  length-stored : (v : ℕ) → length (stored native swap w v) ≡ size w
  length-stored v = rw (sw, stored-object_bytes native end w v) (length-object_bytes end w v)

  pub length-stored_all : (vs : List ℕ) → length (stored_all native swap w vs) ≡ size w * length vs
  unfolding stored_all
  length-stored_all [] = omega arith
  length-stored_all (v ∷ vs) = grind (
    arith,
    length-append (stored native swap w v) (stored_all native swap w vs),
    length-stored v,
    length-stored_all vs,
  )

  loaded-stored : (v : ℕ) → v < bound w → loaded native swap w (stored native swap w v) ≡ v
  loaded-stored v h =
      rw (sw, stored-object_bytes native end w v) (loaded-object_bytes native end w v h)

  -- Values written one behind the other are read back, from any memory that holds their bytes.
  pub loaded_all-stored_all :
      (m b : Memory) (p : ℕ) (vs : List ℕ)
      → All (λ v. v < bound w) vs
      → Agrees m (poke b p (stored_all native swap w vs)) p (p + size w * length vs)
      → loaded_all native swap m w p (length vs) ≡ vs
  unfolding loaded_all stored_all
  loaded_all-stored_all m b p [] ok same = refl
  loaded_all-stored_all m b p (v ∷ vs) (hv, hvs) same =
      let bs = stored native swap w v in
      let rest = stored_all native swap w vs in
      ap₂ (λ x xs. x ∷ xs)
        (ap (loaded native swap w) (
            peek-Agrees m (poke b p (bs ++ rest)) p (size w) (λ a lo hi. same a lo (grind arith))
            ∙ subst (λ n. peek (poke b p (bs ++ rest)) p n ≡ bs) (length-stored v)
                (peek-poke_left b p bs rest))
          ∙ loaded-stored v hv)
        (loaded_all-stored_all m b (p + size w) vs hvs (λ a lo hi.
          same a (omega arith) (grind arith)
          ∙ poke_right b p bs rest a (omega (arith, length-stored v))
          ∙ ap (λ n. poke b (p + n) rest a) (length-stored v)))

-- Two machines put the same bytes on a stream.
pub stored_all_native :
    (n n' end : Endianness) {sw sw' : Bool} (w : Width) (vs : List ℕ)
    → sw ≡ endianness_ne n end
    → sw' ≡ endianness_ne n' end
    → stored_all n sw w vs ≡ stored_all n' sw' w vs
unfolding stored_all
stored_all_native n n' end w [] e e' = refl
stored_all_native n n' end w (v ∷ vs) e e' =
    ap₂ (λ xs ys. xs ++ ys)
      (rw (e, e') (stored-object_bytes n end w v ∙ sym (stored-object_bytes n' end w v)))
      (stored_all_native n n' end w vs e e')
