-- ===== src/Qos/Sets/Bounds.antt =====
-- Which sets pass their check.
use cyclonedds_cxx.Common.{◌≤◌, ◌≡◌, ◌≢◌, ◌↔◌, arith}
use cyclonedds_cxx.Common.Int.{◌≤ℤ◌}
use cyclonedds_cxx.Time.Result.{ok}
use cyclonedds_cxx.Time.Duration
use cyclonedds_cxx.Time.Duration.{Duration}
use cyclonedds_cxx.Qos.Kinds.{keep_last}
use cyclonedds_cxx.Qos.Policies.{
  history, resource_limits, deadline, time_based_filter, History, ResourceLimits,
}
use cyclonedds_cxx.Qos.Policies.Check.{
  length_unlimited, check_history_against, check_deadline_against,
}
use cyclonedds_cxx.Qos.Sets.{QosSet, check_history_of, check_reader}

-- The depth of a history that keeps the last samples is within the limit, if there is one.
abbrev pub FitsLimits : History → ResourceLimits → Type 0
FitsLimits h limits =
    (h.kind ≡ keep_last)
    → (limits.max_samples_per_instance ≢ length_unlimited)
    → h.depth ≤ℤ limits.max_samples_per_instance

-- A duration is no longer than another.
abbrev pub IsWithin : Duration → Duration → Type 0
IsWithin d e = (d.sec ≤ℤ e.sec) × ((d.sec ≡ e.sec) → d.nanosec ≤ e.nanosec)

check_history_of_iff :
    (s : QosSet)
    → (check_history_of s ≡ ok tt) ↔ FitsLimits (s.values history) (s.values resource_limits)
unfolding check_history_of check_history_against
check_history_of_iff s = ground arith

-- The check of a reader's set returns exactly if a history that keeps the last samples fits the
-- limit on samples, and the separation of the time-based filter is no longer than the deadline.
pub check_reader_iff :
    (s : QosSet)
    → (check_reader s ≡ ok tt) ↔ (
        FitsLimits (s.values history) (s.values resource_limits)
        × IsWithin (s.values time_based_filter) (s.values deadline))
unfolding check_reader check_history_of check_history_against check_deadline_against Duration.less
check_reader_iff s = ground arith
