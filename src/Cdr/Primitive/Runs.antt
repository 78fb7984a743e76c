-- ===== src/Cdr/Primitive/Runs.antt =====
-- The theorems on read at concrete inputs.
use cyclonedds_cxx.Common.{◌<◌, ◌/◌, ◌≡◌, ◌↔◌, none, arith}
use cyclonedds_cxx.Cdr.State.{Stream, StreamMode}
use cyclonedds_cxx.Cdr.Bytes.{four}
use cyclonedds_cxx.Cdr.Primitive.{read}
use cyclonedds_cxx.Cdr.Primitive.Bounds.{behind}
use cyclonedds_cxx.Cdr.Primitive.Reading.{returned, read_within}
use cyclonedds_cxx.Cdr.Runs.{blank, stream, stream-IsReady}

abbrev reader : Stream
reader = stream StreamMode.read blank

-- Behind the 64 bytes of the buffer the other memory differs.
read_within_example :
    (returned (read four 20 reader)
      ≡ returned (read four 20 (record reader { buffer = λ a. a / 64 })))
    × ((returned (read four 20 reader) ≡ none) ↔ (64 < behind four 20 reader))
read_within_example =
    read_within (stream-IsReady StreamMode.read blank) four 20 (λ a. a / 64) (omega arith)
      (λ a lo hi. omega arith)
