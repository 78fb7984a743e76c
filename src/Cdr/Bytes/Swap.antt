-- ===== src/Cdr/Bytes/Swap.antt =====
-- byte_swap turns the bytes of an object round, and values survive their bytes.
use cyclonedds_cxx.Common.{ℕ, ◌<◌, [], ◌∷◌, ◌≡◌, refl, arith, length, All}
use cyclonedds_cxx.Cdr.State.{Endianness, little_endian, big_endian}
use cyclonedds_cxx.Cdr.Bytes.{
  Width, one, two, four, eight, size, IsByte, flip, object_bytes, object_value, swap_u32, byte_swap,
}

swap_two :
    (native : Endianness) (a b : ℕ)
    → IsByte a
    → IsByte b
    → byte_swap native two (a ∷ b ∷ []) ≡ b ∷ a ∷ []
unfolding byte_swap
swap_two little_endian a b ha hb = ground arith
swap_two big_endian a b ha hb = ground arith

swap_four :
    (native : Endianness) (a b c d : ℕ)
    → IsByte a
    → IsByte b
    → IsByte c
    → IsByte d
    → object_bytes native 4 (swap_u32 (object_value native (a ∷ b ∷ c ∷ d ∷ [])))
      ≡ d ∷ c ∷ b ∷ a ∷ []
unfolding object_bytes object_value swap_u32
swap_four little_endian a b c d ha hb hc hd = ground arith
swap_four big_endian a b c d ha hb hc hd = ground arith

byte_swap_eight :
    (native : Endianness) (a b c d e f g h : ℕ)
    → All IsByte (a ∷ b ∷ c ∷ d ∷ e ∷ f ∷ g ∷ h ∷ [])
    → byte_swap native eight (a ∷ b ∷ c ∷ d ∷ e ∷ f ∷ g ∷ h ∷ [])
      ≡ h ∷ g ∷ f ∷ e ∷ d ∷ c ∷ b ∷ a ∷ []
byte_swap_eight native a b c d e f g h k =
    unfold byte_swap in
    cc (
      swap_four native a b c d (omega arith) (omega arith) (omega arith) (omega arith),
      swap_four native e f g h (omega arith) (omega arith) (omega arith) (omega arith),
    )

-- byte_swap reverses the order of the bytes of any value, in whichever order they come.
pub byte_swap-object_bytes :
    (native end : Endianness) (w : Width) (v : ℕ)
    → byte_swap native w (object_bytes end (size w) v) ≡ flip (object_bytes end (size w) v)
unfolding object_bytes
byte_swap-object_bytes native little_endian one v = unfold byte_swap in refl
byte_swap-object_bytes native big_endian one v = unfold byte_swap in refl
byte_swap-object_bytes native little_endian two v = swap_two native _ _ (omega arith) (omega arith)
byte_swap-object_bytes native big_endian two v = swap_two native _ _ (omega arith) (omega arith)
byte_swap-object_bytes native little_endian four v =
    unfold byte_swap in
    swap_four native _ _ _ _ (omega arith) (omega arith) (omega arith) (omega arith)
byte_swap-object_bytes native big_endian four v =
    unfold byte_swap in
    swap_four native _ _ _ _ (omega arith) (omega arith) (omega arith) (omega arith)
byte_swap-object_bytes native little_endian eight v =
    byte_swap_eight native _ _ _ _ _ _ _ _ (omega arith)
byte_swap-object_bytes native big_endian eight v =
    byte_swap_eight native _ _ _ _ _ _ _ _ (omega arith)

abbrev pub bound : Width → ℕ
bound one = 0x100
bound two = 0x1_0000
bound four = 0x1_0000_0000
bound eight = 0x1_0000_0000_0000_0000

-- A value is recovered from its object representation.
pub object_value-object_bytes :
    (end : Endianness) (w : Width) (v : ℕ)
    → v < bound w
    → object_value end (object_bytes end (size w) v) ≡ v
unfolding object_bytes object_value
object_value-object_bytes little_endian one v h = omega arith
object_value-object_bytes little_endian two v h = omega arith
object_value-object_bytes little_endian four v h = omega arith
object_value-object_bytes little_endian eight v h = omega arith
object_value-object_bytes big_endian one v h = omega arith
object_value-object_bytes big_endian two v h = omega arith
object_value-object_bytes big_endian four v h = omega arith
object_value-object_bytes big_endian eight v h = omega arith

pub length-object_bytes :
    (end : Endianness) (w : Width) (v : ℕ) → length (object_bytes end (size w) v) ≡ size w
unfolding object_bytes
length-object_bytes little_endian one v = refl
length-object_bytes little_endian two v = refl
length-object_bytes little_endian four v = refl
length-object_bytes little_endian eight v = refl
length-object_bytes big_endian one v = refl
length-object_bytes big_endian two v = refl
length-object_bytes big_endian four v = refl
length-object_bytes big_endian eight v = refl
