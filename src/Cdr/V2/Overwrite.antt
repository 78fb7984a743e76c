-- ===== src/Cdr/V2/Overwrite.antt =====
-- The completion of a length field that was left open.
use cyclonedds_cxx.Common.{ℕ, ◌+◌, ◌≤◌, [], ◌∷◌, ◌≡◌, arith}
use cyclonedds_cxx.Common.Memory.{poke}
use cyclonedds_cxx.Cdr.State.{Stream, StreamMode, ok}
use cyclonedds_cxx.Cdr.Stream.{zero_bytes}
use cyclonedds_cxx.Cdr.Bytes.{four}
use cyclonedds_cxx.Cdr.Primitive.{stored_all, write}
use cyclonedds_cxx.Cdr.Primitive.Bounds.{write_fits}
use cyclonedds_cxx.Cdr.Ready.{IsReady}
use cyclonedds_cxx.Cdr.V2.Headers.{overwrite}

-- The stream with the number `v` at `p`, and all else as it was.
abbrev pub overwritten : ℕ → ℕ → Stream → Stream
overwritten p v s = record s { buffer = poke s.buffer p (stored_all s.native s.swap four (v ∷ [])) }

module _ {end : ℕ} {s : Stream} (r : IsReady StreamMode.write end s) where
  IsReady-at :
      (p a : ℕ)
      → s.alignment_offset ≤ p
      → p ≤ end
      → IsReady StreamMode.write end (record s { position = p; current_alignment = a })
  IsReady-at p a lo hi = ground arith

  write_there :
      (p v : ℕ)
      → s.alignment_offset ≤ p
      → p + 4 ≤ end
      → write four (v ∷ []) (record s { position = p; current_alignment = 4 })
        ≡ ok tt (record (overwritten p v s) { position = p + 4; current_alignment = 4 })
  write_there p v lo hi =
      unfold zero_bytes in
      ground (arith, write_fits (IsReady-at p 4 lo (omega arith)) four (v ∷ []) (ground arith))

  pub overwrite_fits :
      (p v : ℕ) → s.alignment_offset ≤ p → p + 4 ≤ end → overwrite p v s ≡ ok tt (overwritten p v s)
  unfolding overwrite
  overwrite_fits p v lo hi = ground (arith, write_there p v lo hi)
