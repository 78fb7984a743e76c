-- ===== src/Cdr/V1/Runs.antt =====
-- The theorems on xcdr_v1_stream at concrete inputs.
use cyclonedds_cxx.Common.{[], ◌∷◌, some, ◌≡◌, arith}
use cyclonedds_cxx.Cdr.State.{StreamMode}
use cyclonedds_cxx.Cdr.V1.Absent.{
  result, read_first_double, v1_stream, written_struct, absent_then_double,
}

absent_then_double_example :
    result (read_first_double (v1_stream StreamMode.read (written_struct 7))) ≡ some (2, 0 ∷ [])
absent_then_double_example = absent_then_double 7 (omega arith)
