-- ===== src/Cdr/State.antt =====
-- The state of a CDR stream (class cdr_stream of cdr_stream.hpp, with the two stacks that
-- xcdr_v2_stream adds) and the shape of its operations.
use cyclonedds_cxx.Common.{ℕ, Bool, true, false, ◌&&◌, ◌||◌, List, ◌==◌, Option, none, some}
use cyclonedds_cxx.Common.Memory.{Memory}

pub data Endianness : Type 0 where
  little_endian big_endian : Endianness

abbrev pub endianness_ne : Endianness → Endianness → Bool
endianness_ne little_endian little_endian = false
endianness_ne little_endian big_endian = true
endianness_ne big_endian little_endian = true
endianness_ne big_endian big_endian = false

-- The bits of serialization_status, in the order of their shifts.
pub data SerializationStatus : Type 0 where
  move_bound_exceeded write_bound_exceeded read_bound_exceeded : SerializationStatus
  invalid_pl_entry illegal_field_value unsupported_xtypes : SerializationStatus
  must_understand_fail : SerializationStatus

abbrev pub shift : SerializationStatus → ℕ
shift move_bound_exceeded = 0
shift write_bound_exceeded = 1
shift read_bound_exceeded = 2
shift invalid_pl_entry = 3
shift illegal_field_value = 4
shift unsupported_xtypes = 5
shift must_understand_fail = 6

-- A uint64_t mask of these bits, as the test of a bit.
abbrev pub Mask : Type 0
Mask = SerializationStatus → Bool

abbrev pub no_faults : Mask
no_faults f = false

abbrev pub mask_or : Mask → SerializationStatus → Mask
mask_or m f g = m g || shift f == shift g

-- `a & b`, read as a bool: whether any bit is set in both.
unfoldable pub masks_meet : Mask → Mask → Bool
masks_meet a b =
    (a move_bound_exceeded && b move_bound_exceeded)
    || (a write_bound_exceeded && b write_bound_exceeded)
    || (a read_bound_exceeded && b read_bound_exceeded)
    || (a invalid_pl_entry && b invalid_pl_entry)
    || (a illegal_field_value && b illegal_field_value)
    || (a unsupported_xtypes && b unsupported_xtypes)
    || (a must_understand_fail && b must_understand_fail)

pub data StreamMode : Type 0 where
  unset read write move max : StreamMode

pub data KeyMode : Type 0 where
  unset not_key unsorted sorted : KeyMode

-- One entry of xcdr_v2_stream::m_consecutives.
pub record Consecutives : Type 0 where
  pub is_array : Bool
  pub d_header_present : Bool

-- The members of cdr_stream without their m_, and those of xcdr_v2_stream. A stack's top is the
-- head of its list. `buffer` is the memory from m_buffer on, and `native` is DDSRT_ENDIAN.
pub record Stream : Type 0 where
  pub native : Endianness
  pub stream_endianness : Endianness
  pub position : ℕ
  pub max_alignment : ℕ
  pub current_alignment : ℕ
  pub buffer_size : ℕ
  pub alignment_offset : ℕ
  pub buffer : Memory
  pub status : Mask
  pub fault_mask : Mask
  pub mode : StreamMode
  pub key : KeyMode
  pub swap : Bool
  pub buffer_end : List ℕ
  pub e_off : List ℕ
  pub e_sz : List ℕ
  pub align_offs : List ℕ
  pub consecutives : List Consecutives
  pub delimiters : List ℕ

-- What a call leaves: `ok` where the code returns true or a value, `failed` where it returns
-- false or a null pointer, `fault` where it runs into an assertion (or, without assertions,
-- into undefined behaviour).
pub data Outcome (A : Type 0) : Type 0 where
  ok : A → Stream → Outcome A
  failed : Stream → Outcome A
  fault : Outcome A

abbrev pub Op : Type 0 → Type 0
Op A = Stream → Outcome A

abbrev pub pure : {A : Type 0} → A → Op A
pure a s = ok a s

-- `if (!m) return false; f`
infixl 5 ◌>>=◌ ◌>>◌
abbrev pub ◌>>=◌ : {A B : Type 0} → Op A → (A → Op B) → Op B
◌>>=◌ m f s = elim (m s) [ ok a s' ↦ f a s' | failed s' ↦ failed s' | fault ↦ fault ]

abbrev pub ◌>>◌ : {B : Type 0} → Op (Unit {0}) → Op B → Op B
m >> k = m >>= λ _. k

-- `return b`
abbrev pub require : Bool → Op (Unit {0})
require true s = ok tt s
require false s = failed s

abbrev pub modify : (Stream → Stream) → Op (Unit {0})
modify f s = ok tt (f s)

abbrev pub size_max : ℕ
size_max = 0xffff_ffff_ffff_ffff

abbrev pub word_size : ℕ
word_size = 0x1_0000_0000_0000_0000

abbrev pub u32_size : ℕ
u32_size = 0x1_0000_0000

abbrev pub u16_size : ℕ
u16_size = 0x1_0000

-- Reads an `Option` of a stack operation, whose `none` is a fault.
abbrev pub checked : {A : Type 0} → Option A → Op A
checked none s = fault
checked (some a) s = ok a s
