-- ===== src/Cdr/Primitive.antt =====
-- read, write, move and max of cdr_stream.hpp for arithmetic types.
pub mod Wire
pub mod Bounds
pub mod RoundTrip
pub mod Placement
pub mod Reading
mod Runs
use cyclonedds_cxx.Common.{
  ℕ, zero, suc, ◌+◌, ◌*◌, ◌/◌, ◌%◌, Bool, true, false, ◌&&◌, List, [], ◌∷◌, ◌++◌, length, ◌==◌,
  if◌then◌else◌,
}
use cyclonedds_cxx.Common.Memory.{Memory, poke, peek}
use cyclonedds_cxx.Cdr.State.{
  Endianness, ok, failed, fault, Op, pure, ◌>>=◌, ◌>>◌, modify, size_max,
}
use cyclonedds_cxx.Cdr.Stream.{align, bytes_available, incr_position}
use cyclonedds_cxx.Cdr.Bytes.{Width, size, object_bytes, object_value, byte_swap, wider_than_byte}

-- The bytes at the cursor once `towrite` is copied there and swapped in place if need be.
unfoldable pub stored : Endianness → Bool → Width → ℕ → List ℕ
stored native swap w v =
    let bs = object_bytes native (size w) v in
    if wider_than_byte w && swap then byte_swap native w bs else bs

unfoldable pub stored_all : Endianness → Bool → Width → List ℕ → List ℕ
stored_all native swap w [] = []
stored_all native swap w (v ∷ vs) = stored native swap w v ++ stored_all native swap w vs

-- The value of the bytes at the cursor, copied and swapped if need be.
unfoldable pub loaded : Endianness → Bool → Width → List ℕ → ℕ
loaded native swap w bs =
    object_value native (if wider_than_byte w && swap then byte_swap native w bs else bs)

unfoldable pub loaded_all : Endianness → Bool → Memory → Width → ℕ → ℕ → List ℕ
loaded_all native swap m w p zero = []
loaded_all native swap m w p (suc n) =
    loaded native swap w (peek m p (size w)) ∷ loaded_all native swap m w (p + size w) n

-- write(str, towrite, N): `vs` are the N values.
unfoldable pub write : Width → List ℕ → Op (Unit {0})
write w vs s =
    let body = do
      align (size w) true
      bytes_available (size w * length vs) false
      modify (λ t. record t { buffer = poke t.buffer t.position (stored_all t.native t.swap w vs) })
      modify (incr_position (size w * length vs))
    in if s.position == size_max then failed s else body s

-- read(str, toread, N)
unfoldable pub read : Width → ℕ → Op (List ℕ)
read w n s =
    let body : Op (List ℕ) = do
      align (size w) false
      bytes_available (size w * n) false
      vs ← λ t. ok (loaded_all t.native t.swap t.buffer w t.position n) t
      modify (incr_position (size w * n))
      pure vs
    in if s.position == size_max then failed s else body s

-- move(str, toincr, N), and max, which calls it.
unfoldable pub move : Width → ℕ → Op (Unit {0})
move w n s =
    let body = do align (size w) false; modify (incr_position (size w * n))
    in if s.position == size_max then ok tt s else body s

unfoldable pub max : Width → ℕ → Op (Unit {0})
unfolding move
max w n = move w n
