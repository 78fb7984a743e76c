-- ===== src/Cdr/Bytes.antt =====
-- How a value lies in memory, and byte_swap of cdr_stream.hpp. A value of an arithmetic type is
-- its bit pattern, a number below 256 to its size.
pub mod Swap
use cyclonedds_cxx.Common.{
  ℕ, zero, suc, ◌+◌, ◌*◌, ◌/◌, ◌%◌, ◌<◌, Bool, true, false, List, [], ◌∷◌, ◌++◌,
}
use cyclonedds_cxx.Cdr.State.{Endianness, little_endian, big_endian}

-- sizeof(T): byte_swap, read and write exist for these.
pub data Width : Type 0 where
  one two four eight : Width

abbrev pub size : Width → ℕ
size one = 1
size two = 2
size four = 4
size eight = 8

abbrev pub IsByte : ℕ → Type 0
IsByte b = b < 256

-- A number in `n` bytes, lowest first, and the number that such bytes stand for.
unfoldable pub le_bytes : ℕ → ℕ → List ℕ
le_bytes zero v = []
le_bytes (suc n) v = (v % 256) ∷ le_bytes n (v / 256)

unfoldable pub le_value : List ℕ → ℕ
le_value [] = 0
le_value (b ∷ bs) = b + 256 * le_value bs

-- The same with the highest first.
unfoldable pub backwards : List ℕ → List ℕ → List ℕ
backwards [] acc = acc
backwards (b ∷ bs) acc = backwards bs (b ∷ acc)

abbrev pub flip : List ℕ → List ℕ
flip bs = backwards bs []

-- The object representation of a `w`-byte number on a machine of this endianness, and its value.
unfoldable pub object_bytes : Endianness → ℕ → ℕ → List ℕ
unfolding le_bytes backwards
object_bytes little_endian n v = le_bytes n v
object_bytes big_endian n v = flip (le_bytes n v)

unfoldable pub object_value : Endianness → List ℕ → ℕ
unfolding le_value backwards
object_value little_endian bs = le_value bs
object_value big_endian bs = le_value (flip bs)

-- `((u & 0x00FF) << 8) | ((u & 0xFF00) >> 8)`: a mask of whole bytes and a shift are `%` and `/`,
-- and an `|` of numbers with no common bit is a sum.
unfoldable pub swap_u16 : ℕ → ℕ
swap_u16 u = u % 256 * 256 + u / 256 % 256

-- The two statements of the 4-byte byte_swap: the halves first, then the bytes of each half.
unfoldable pub swap_u32 : ℕ → ℕ
swap_u32 u =
    let h = u % 65536 * 65536 + u / 65536 % 65536 in
    (h % 256 + h / 65536 % 256 * 65536) * 256 + (h / 256 % 256 + h / 16777216 % 256 * 65536)

-- byte_swap in place on the bytes of an object. The 8-byte one takes the object as two numbers of
-- 4 bytes, swaps each, and exchanges them.
unfoldable pub byte_swap : Endianness → Width → List ℕ → List ℕ
unfolding object_bytes object_value swap_u16 swap_u32
byte_swap native eight (a ∷ b ∷ c ∷ d ∷ e ∷ f ∷ g ∷ h ∷ []) =
    let u1 = object_value native (a ∷ b ∷ c ∷ d ∷ []) in
    let u2 = object_value native (e ∷ f ∷ g ∷ h ∷ []) in
    object_bytes native 4 (swap_u32 u2) ++ object_bytes native 4 (swap_u32 u1)
byte_swap native four bs = object_bytes native 4 (swap_u32 (object_value native bs))
byte_swap native two bs = object_bytes native 2 (swap_u16 (object_value native bs))
byte_swap native w bs = bs

abbrev pub wider_than_byte : Width → Bool
wider_than_byte one = false
wider_than_byte two = true
wider_than_byte four = true
wider_than_byte eight = true
