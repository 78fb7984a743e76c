-- ===== src/Qos/Policies/Check.antt =====
-- The functions check and check_against of the delegates (PolicyDelegate.cpp).
use cyclonedds_cxx.Common.{ℕ, Bool, true, false, not, ◌&&◌, ltb, length, if◌then◌else◌}
use cyclonedds_cxx.Common.Int.{ℤ, pos, negsuc, eq_ℤ, ltb_ℤ}
use cyclonedds_cxx.Time.Result.{
  invalid_argument, inconsistent_policy, unsupported, Exception, Result, ok, throws, ◌>>◌,
}
use cyclonedds_cxx.Time.Duration
use cyclonedds_cxx.Time.Duration.{Duration}
use cyclonedds_cxx.Qos.Kinds.{
  HistoryKind, keep_last, keep_all, access_instance, access_topic, access_group,
}
use cyclonedds_cxx.Qos.Policies.{
  Policy, durability_service, history, presentation, resource_limits, psmx_instances, Delegate,
  DurabilityService, History, ResourceLimits, Presentation,
}

-- dds::core::LENGTH_UNLIMITED
abbrev pub length_unlimited : ℤ
length_unlimited = negsuc 0

abbrev pub throw_if : Bool → Exception → Result (Unit {0})
throw_if b e = if b then throws e else ok tt

abbrev pub is_keep_last : HistoryKind → Bool
is_keep_last keep_last = true
is_keep_last keep_all = false

-- DurabilityServiceDelegate::check
unfoldable pub check_durability_service : DurabilityService → Result (Unit {0})
check_durability_service d = do
  throw_if (ltb_ℤ d.max_samples (pos 0) && not (eq_ℤ d.max_samples length_unlimited))
      invalid_argument
  throw_if (ltb_ℤ d.max_instances (pos 0) && not (eq_ℤ d.max_instances length_unlimited))
      invalid_argument
  throw_if
      (ltb_ℤ d.max_samples_per_instance (pos 0)
        && not (eq_ℤ d.max_samples_per_instance length_unlimited))
      invalid_argument
  throw_if (is_keep_last d.history_kind && not (ltb_ℤ (pos 0) d.history_depth)) inconsistent_policy
  throw_if
      (not (eq_ℤ d.max_samples_per_instance length_unlimited)
        && ltb_ℤ d.max_samples_per_instance d.history_depth)
      inconsistent_policy

-- HistoryDelegate::check
unfoldable pub check_history : History → Result (Unit {0})
check_history d = throw_if (is_keep_last d.kind && not (ltb_ℤ (pos 0) d.depth)) inconsistent_policy

-- PresentationDelegate::check
unfoldable pub check_presentation : Presentation → Result (Unit {0})
check_presentation d = elim d.access_scope [
  | access_instance ↦ ok tt
  | access_topic ↦ throw_if d.ordered_access unsupported
  | access_group ↦ throw_if d.ordered_access unsupported
]

-- ResourceLimitsDelegate::check
unfoldable pub check_resource_limits : ResourceLimits → Result (Unit {0})
check_resource_limits d = do
  throw_if (not (ltb_ℤ (pos 0) d.max_samples) && not (eq_ℤ d.max_samples length_unlimited))
      invalid_argument
  throw_if (not (ltb_ℤ (pos 0) d.max_instances) && not (eq_ℤ d.max_instances length_unlimited))
      invalid_argument
  throw_if
      (not (ltb_ℤ (pos 0) d.max_samples_per_instance)
        && not (eq_ℤ d.max_samples_per_instance length_unlimited))
      invalid_argument

-- The function check of each delegate, which the compiler makes unnecessary for most. The bound is
-- DDS_MAX_PSMX_INSTANCES, a constant of the C library.
unfoldable pub check : ℕ → (p : Policy) → Delegate p → Result (Unit {0})
unfolding check_durability_service check_history check_presentation check_resource_limits
check max_psmx durability_service d = check_durability_service d
check max_psmx history d = check_history d
check max_psmx presentation d = check_presentation d
check max_psmx resource_limits d = check_resource_limits d
check max_psmx psmx_instances d = throw_if (ltb max_psmx (length d)) invalid_argument
check max_psmx _ d = ok tt

-- ResourceLimitsDelegate::check_against, which HistoryDelegate::check_against calls.
unfoldable pub check_history_against : ResourceLimits → History → Result (Unit {0})
check_history_against limits h =
    throw_if
      (is_keep_last h.kind
        && not (eq_ℤ limits.max_samples_per_instance length_unlimited)
        && ltb_ℤ limits.max_samples_per_instance h.depth)
      inconsistent_policy

-- TimeBasedFilterDelegate::check_against, of the separation and the period of a deadline.
unfoldable pub check_deadline_against : Duration → Duration → Result (Unit {0})
unfolding Duration.less
check_deadline_against min_separation period =
    throw_if (Duration.less period min_separation) inconsistent_policy
