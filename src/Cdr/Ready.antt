-- ===== src/Cdr/Ready.antt =====
-- The states in which a stream can be read or written, and the padding that align makes there.
use cyclonedds_cxx.Common.{
  ℕ, ◌+◌, ◌≤◌, ◌<◌, min, Bool, true, false, ◌≡◌, refl, arith, ◌==◌, if◌then◌else◌, ◌⊎◌, inl, inr,
  some,
}
use cyclonedds_cxx.Common.Memory.{Memory}
use cyclonedds_cxx.Cdr.State.{
  endianness_ne, SerializationStatus, move_bound_exceeded, write_bound_exceeded,
  read_bound_exceeded, invalid_pl_entry, illegal_field_value, unsupported_xtypes,
  must_understand_fail, Stream, StreamMode, ok, failed,
}
use cyclonedds_cxx.Cdr.CustomStack.{top}
use cyclonedds_cxx.Cdr.Stream.{
  to_move, zero_bytes, skip, align, bytes_available, incr_position, raise, add_status,
}

-- A fault that is not ignored ends the call.
pub raise_heeded :
    (f : SerializationStatus) (s : Stream)
    → s.fault_mask f ≡ true
    → raise f s ≡ failed (add_status f s)
unfolding raise
raise_heeded move_bound_exceeded s h = ground arith
raise_heeded write_bound_exceeded s h = ground arith
raise_heeded read_bound_exceeded s h = ground arith
raise_heeded invalid_pl_entry s h = ground arith
raise_heeded illegal_field_value s h = ground arith
raise_heeded unsupported_xtypes s h = ground arith
raise_heeded must_understand_fail s h = ground arith

-- A stream in mode `m` that does not ignore the bound faults, within a buffer of less than 2 ^ 62
-- bytes.
pub record IsReady (m : StreamMode) (end : ℕ) (s : Stream) : Type 0 where
  pub mode_is : s.mode ≡ m
  pub ends : top s.buffer_end ≡ some end
  pub end_lt : end < 0x4000_0000_0000_0000
  pub within : s.position ≤ end
  pub heeds_read : s.fault_mask read_bound_exceeded ≡ true
  pub heeds_write : s.fault_mask write_bound_exceeded ≡ true
  pub aligns : (s.max_alignment ≡ 4) ⊎ (s.max_alignment ≡ 8)
  pub offset_within : s.alignment_offset ≤ s.position
  pub swap_is : s.swap ≡ endianness_ne s.native s.stream_endianness

abbrev pub IsAccess : StreamMode → Type 0
IsAccess m = (m ≡ StreamMode.read) ⊎ (m ≡ StreamMode.write)

-- Where align leaves m_current_alignment, and by how much it moves the cursor.
abbrev pub new_alignment : ℕ → Stream → ℕ
new_alignment a s = if a == s.current_alignment then s.current_alignment else min a s.max_alignment

abbrev pub padding : ℕ → Stream → ℕ
padding a s =
    if a == s.current_alignment
    then 0
    else to_move (min a s.max_alignment) s.position s.alignment_offset

module _ {m : StreamMode} {end : ℕ} {s : Stream} (r : IsReady m end s) (access : IsAccess m) where
  pub bytes_available_fits : (n : ℕ) → s.position + n ≤ end → bytes_available n false s ≡ ok tt s
  unfolding bytes_available
  bytes_available_fits n fits = ground arith

  pub peek_fits : (n : ℕ) → s.position + n ≤ end → bytes_available n true s ≡ ok tt s
  unfolding bytes_available
  peek_fits n fits = ground arith

  -- A peek never changes the stream.
  pub peek_cases :
      (n : ℕ) → (bytes_available n true s ≡ ok tt s) ⊎ (bytes_available n true s ≡ failed s)
  unfolding bytes_available
  peek_cases n = ground arith

  pub bytes_available_refuses :
      (n : ℕ)
      → n < 0x4000_0000_0000_0000
      → end < s.position + n
      → (s' : Stream) × (bytes_available n false s ≡ failed s') × (s'.buffer ≡ s.buffer)
  unfolding bytes_available
  bytes_available_refuses n small over = elim access [
    | inl e ↦ (
      add_status read_bound_exceeded s,
      ground (arith, raise_heeded read_bound_exceeded s),
      unfold add_status in refl,
    )
    | inr e ↦ (
      add_status write_bound_exceeded s,
      ground (arith, raise_heeded write_bound_exceeded s),
      unfold add_status in refl,
    )
  ]

  pub incr_position_lem :
      (n : ℕ) → s.position + n ≤ end → incr_position n s ≡ record s { position = s.position + n }
  unfolding incr_position
  incr_position_lem n h = ground arith

  -- The state in which align leaves the stream when the padding fits.
  abbrev pub aligned : ℕ → Bool → Stream
  aligned a z = record s {
    position = s.position + padding a s;
    current_alignment = new_alignment a s;
    buffer = if z then zero_bytes (padding a s) s.position s.buffer else s.buffer;
  }

  skip_fits :
      (n a : ℕ) (z : Bool)
      → s.position + n ≤ end
      → skip n z (record s { current_alignment = a })
        ≡ ok tt (record s {
          position = s.position + n;
          current_alignment = a;
          buffer = if z then zero_bytes n s.position s.buffer else s.buffer;
        })
  unfolding skip
  skip_fits n a z h = ground arith

  pub align_fits :
      (a : ℕ) (z : Bool) → s.position + padding a s ≤ end → align a z s ≡ ok tt (aligned a z)
  unfolding align
  align_fits a z h = ground (arith, skip_fits (padding a s) (min a s.max_alignment) z)

  -- Padding keeps the stream ready, and so does any step of the cursor within the buffer.
  pub IsReady-advance :
      (p a : ℕ) (b : Memory)
      → s.position ≤ p
      → p ≤ end
      → IsReady m end (record s { position = p; current_alignment = a; buffer = b })
  IsReady-advance p a b lo hi = ground arith

-- The same where the padding does not fit: nothing is moved or cleared.
module _ {m : StreamMode} {end : ℕ} {s : Stream} (r : IsReady m end s) (access : IsAccess m) where
  skip_refuses :
      (n a : ℕ) (z : Bool)
      → n < 0x4000_0000_0000_0000
      → end < s.position + n
      → (s' : Stream) × (skip n z (record s { current_alignment = a }) ≡ failed s')
        × (s'.buffer ≡ s.buffer)
  skip_refuses n a z small over =
      let (s', e, same) =
        bytes_available_refuses
          (IsReady-advance r access s.position a s.buffer (omega arith) r.within) access n small
          over in
      (s', unfold skip in ground arith, same)

  pub align_refuses :
      (a : ℕ) (z : Bool)
      → padding a s < 0x4000_0000_0000_0000
      → end < s.position + padding a s
      → (s' : Stream) × (align a z s ≡ failed s') × (s'.buffer ≡ s.buffer)
  unfolding align
  align_refuses a z small over =
      let (s', e, same) = skip_refuses (padding a s) (min a s.max_alignment) z small over in
      (s', ground arith, same)

-- Every stream can be aligned to 4.
pub new_alignment_four :
    {m : StreamMode} {end : ℕ} {s : Stream} → IsReady m end s → new_alignment 4 s ≡ 4
new_alignment_four r = ground arith
