-- ===== src/Cdr/Primitive/Placement.antt =====
-- Where write places its values in the stream.
use cyclonedds_cxx.Common.{
  ℕ, ◌+◌, ◌-◌, ◌*◌, ◌%◌, ◌<◌, min, ◌≡◌, arith, ◌∙◌, ap, List, length, subst, sym,
}
use cyclonedds_cxx.Cdr.State.{Stream, StreamMode, ok}
use cyclonedds_cxx.Cdr.Bytes.{Width, size}
use cyclonedds_cxx.Cdr.Primitive.{write}
use cyclonedds_cxx.Cdr.Primitive.Bounds.{written}
use cyclonedds_cxx.Cdr.Primitive.RoundTrip.{write-eq-ok}
use cyclonedds_cxx.Cdr.Ready.{IsReady, padding}
use cyclonedds_cxx.Cdr.Alignment.{InStep, padding_aligns, InStep-advance}

-- On a stream that is ready to write and whose m_current_alignment says the truth (InStep), a write
-- of fewer than 2 ^ 61 bytes that succeeds leaves values that start at a multiple of their width,
-- or of the largest alignment of the stream where that is less, counted from m_alignment_offset,
-- and m_current_alignment says the truth again.
pub write_aligns :
    {end : ℕ} {s s' : Stream} (r : IsReady StreamMode.write end s) (w : Width) (vs : List ℕ)
    → size w * length vs < 0x2000_0000_0000_0000
    → InStep s
    → write w vs s ≡ ok tt s'
    → ((s'.position - size w * length vs - s'.alignment_offset) % min (size w) s'.max_alignment ≡ 0)
      × InStep s'
write_aligns {s = s} r w vs small k e =
    let final = (write-eq-ok r w vs small e).1 in
    let Placed : Stream → Type 0 = λ x.
      ((x.position - size w * length vs - x.alignment_offset) % min (size w) x.max_alignment ≡ 0)
      × InStep x in
    let start : (written w vs s).position - size w * length vs ≡ s.position + padding (size w) s =
      omega arith in
    subst Placed (sym final) (
      ap (λ p. (p - s.alignment_offset) % min (size w) s.max_alignment) start
          ∙ padding_aligns r w k,
      InStep-advance r w (length vs) k,
    )
