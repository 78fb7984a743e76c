-- ===== src/Qos/Policies/Bounds.antt =====
-- Which delegates pass their check.
use cyclonedds_cxx.Common.{ℕ, ◌≤◌, ◌≡◌, ◌≢◌, ◌⊎◌, ◌↔◌, length, true, refl, arith}
use cyclonedds_cxx.Common.Int.{ℤ, pos, ◌≤ℤ◌}
use cyclonedds_cxx.Time.Result.{ok}
use cyclonedds_cxx.Qos.Kinds.{keep_last, access_instance}
use cyclonedds_cxx.Qos.Policies.{
  Policy, durability_service, history, resource_limits, presentation, psmx_instances, Delegate,
}
use cyclonedds_cxx.Qos.Policies.Check.{
  length_unlimited, check_durability_service, check_history, check_presentation,
  check_resource_limits, check,
}

-- A number of samples or instances from the least allowed on, or LENGTH_UNLIMITED.
abbrev pub IsLimit : ℕ → ℤ → Type 0
IsLimit least z = (pos least ≤ℤ z) ⊎ (z ≡ length_unlimited)

-- The values within their bounds: a depth that fits the kind and the limit on samples, limits that
-- are numbers or unlimited, no ordered access beyond one instance, and not too many instances.
abbrev pub IsValid : ℕ → (p : Policy) → Delegate p → Type 0
IsValid max_psmx durability_service d =
    IsLimit 0 d.max_samples
    × IsLimit 0 d.max_instances
    × IsLimit 0 d.max_samples_per_instance
    × ((d.history_kind ≡ keep_last) → pos 1 ≤ℤ d.history_depth)
    × ((d.max_samples_per_instance ≢ length_unlimited)
        → d.history_depth ≤ℤ d.max_samples_per_instance)
IsValid max_psmx history d = (d.kind ≡ keep_last) → pos 1 ≤ℤ d.depth
IsValid max_psmx presentation d = (d.ordered_access ≡ true) → d.access_scope ≡ access_instance
IsValid max_psmx resource_limits d =
    IsLimit 1 d.max_samples × IsLimit 1 d.max_instances × IsLimit 1 d.max_samples_per_instance
IsValid max_psmx psmx_instances d = length d ≤ max_psmx
IsValid max_psmx _ d = Unit {0}

-- The check of a delegate returns exactly if its value is within its bounds.
pub check_iff :
    (max_psmx : ℕ) (p : Policy) (d : Delegate p)
    → (check max_psmx p d ≡ ok tt) ↔ IsValid max_psmx p d
unfolding check check_durability_service check_history check_presentation check_resource_limits
check_iff max_psmx durability_service d = ground arith
check_iff max_psmx history d = ground arith
check_iff max_psmx presentation d = ground arith
check_iff max_psmx resource_limits d = ground arith
check_iff max_psmx psmx_instances d = ground arith
check_iff max_psmx _ d = (λ h. tt, λ h. refl)
