-- ===== src/Cdr/Alignment.antt =====
-- Where align places the data of a stream.
use cyclonedds_cxx.Common.{ℕ, ◌+◌, ◌-◌, ◌*◌, ◌%◌, ◌<◌, min, ◌≡◌, arith, ◌⊎◌}
use cyclonedds_cxx.Cdr.State.{Stream, StreamMode}
use cyclonedds_cxx.Cdr.Stream.{to_move}
use cyclonedds_cxx.Cdr.Bytes.{Width, one, two, four, eight, size}
use cyclonedds_cxx.Cdr.Ready.{IsReady, new_alignment, padding}

-- m_current_alignment says the truth: the cursor is a multiple of it, counted from
-- m_alignment_offset. 0 says nothing.
abbrev pub InStep : Stream → Type 0
InStep s = (s.current_alignment ≡ 0) ⊎ ((s.position - s.alignment_offset) % s.current_alignment ≡ 0)

module _ {m : StreamMode} {end : ℕ} {s : Stream} (r : IsReady m end s) where
  pub padding_lt : (w : Width) → padding (size w) s < 8
  unfolding to_move
  padding_lt one = ground arith
  padding_lt two = ground arith
  padding_lt four = ground arith
  padding_lt eight = ground arith

  -- Behind the padding the cursor is a multiple of the size, or of the largest alignment of the
  -- stream where that is less.
  pub padding_aligns :
      (w : Width)
      → InStep s
      → (s.position + padding (size w) s - s.alignment_offset) % min (size w) s.max_alignment ≡ 0
  unfolding to_move
  padding_aligns one k = ground arith
  padding_aligns two k = ground arith
  padding_aligns four k = ground arith
  padding_aligns eight k = ground arith

  -- The next datum of any width keeps the stream in step, however many of them there are.
  pub InStep-advance :
      (w : Width) (n : ℕ)
      → InStep s
      → InStep (record s {
        position = s.position + padding (size w) s + size w * n;
        current_alignment = new_alignment (size w) s;
      })
  InStep-advance one n k = ground (arith, padding_aligns one k)
  InStep-advance two n k = ground (arith, padding_aligns two k)
  InStep-advance four n k = ground (arith, padding_aligns four k)
  InStep-advance eight n k = ground (arith, padding_aligns eight k)
