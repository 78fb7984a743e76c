-- ===== src/Cdr/Members/Runs.antt =====
-- The theorems on the completeness check at concrete inputs: struct { long a; @key long b; }.
use cyclonedds_cxx.Common.{ℕ, true, false, [], ◌∷◌, ◌≡◌, ◌<◌, ◌==◌, if◌then◌else◌, refl, arith}
use cyclonedds_cxx.Cdr.State.{must_understand_fail, Stream, StreamMode, ok, failed, masks_meet}
use cyclonedds_cxx.Cdr.Stream.{abort_status, add_status}
use cyclonedds_cxx.Cdr.Properties.{Propvec, entity, ext_final, bb_unset}
use cyclonedds_cxx.Cdr.Properties.Linking.{link_levels}
use cyclonedds_cxx.Cdr.Properties.Linking.Levels.{IsWalk, IsParent}
use cyclonedds_cxx.Cdr.Properties.Linking.Invariant.{IsBlank}
use cyclonedds_cxx.Cdr.Properties.Linking.Rounds.{link_levels-IsLinked}
use cyclonedds_cxx.Cdr.Members.{contains, necessary, check_struct_completeness}
use cyclonedds_cxx.Cdr.Members.Level.{IsServed, check_struct_completeness_iff}
use cyclonedds_cxx.Cdr.Runs.{blank, stream}

abbrev reader : Stream
reader = stream StreamMode.read blank

abbrev with_key : Propvec
with_key = record {
  count = 3;
  entry = λ i. record (entity (if i == 0 then 0 else 1) i false bb_unset ext_final false) {
    is_key = i == 2;
  };
}

with_key-IsWalk : IsWalk with_key
unfolding entity
with_key-IsWalk = record { root = refl; below = λ i h. ground arith; descent = λ i h. ground arith }

with_key-IsBlank : IsBlank with_key
unfolding entity
with_key-IsBlank = record { no_next = λ i. refl; no_prev = λ i. refl; no_first = λ i. refl }

abbrev linked : Propvec
linked = link_levels 3 with_key

-- Only a was read.
check_struct_completeness_iff_example :
    (((j : ℕ) → j < 3 → IsParent with_key 0 j → IsServed linked (1 ∷ []) j)
      → check_struct_completeness linked (linked.entry 0) (1 ∷ []) reader ≡ ok tt reader)
    × ((j : ℕ)
        → j < 3
        → IsParent with_key 0 j
        → necessary (linked.entry j) ≡ true
        → contains (1 ∷ []) (linked.entry j).m_id ≡ false
        → check_struct_completeness linked (linked.entry 0) (1 ∷ []) reader
          ≡ failed (add_status must_understand_fail reader))
unfolding abort_status masks_meet
check_struct_completeness_iff_example =
    check_struct_completeness_iff with_key linked (1 ∷ []) reader 0 with_key-IsWalk
      (link_levels-IsLinked with_key with_key-IsWalk with_key-IsBlank) refl refl refl refl
