-- ===== src/Core/Status.antt =====
-- StatusMask of dds/core/status/State.hpp, and convertStatusMask of MiscUtils.cpp in both directions.
-- A mask is its bits, of which std::bitset and uint32_t have 32 here.
pub mod RoundTrip
use cyclonedds_cxx.Common.{
  ℕ, zero, suc, Bool, true, false, ◌&&◌, ◌||◌, List, [], ◌∷◌, ◌==◌, if◌then◌else◌,
}

pub data Status : Type 0 where
  inconsistent_topic offered_deadline_missed requested_deadline_missed : Status
  offered_incompatible_qos requested_incompatible_qos sample_lost sample_rejected : Status
  data_on_readers data_available liveliness_lost liveliness_changed publication_matched : Status
  subscription_matched : Status

-- The bit of StatusMask for each status.
abbrev pub status_bit : Status → ℕ
status_bit inconsistent_topic = 0
status_bit offered_deadline_missed = 1
status_bit requested_deadline_missed = 2
status_bit offered_incompatible_qos = 5
status_bit requested_incompatible_qos = 6
status_bit sample_lost = 7
status_bit sample_rejected = 8
status_bit data_on_readers = 9
status_bit data_available = 10
status_bit liveliness_lost = 11
status_bit liveliness_changed = 12
status_bit publication_matched = 13
status_bit subscription_matched = 14

abbrev pub Mask : Type 0
Mask = ℕ → Bool

abbrev pub no_bits : Mask
no_bits i = false

abbrev pub single : ℕ → Mask
single k i = i == k

abbrev pub union : Mask → Mask → Mask
union m c i = m i || c i

-- `(mask & check) == check`
abbrev pub covers : Bool → Bool → Bool
covers a true = a
covers a false = true

unfoldable pub covers_below : ℕ → Mask → Mask → Bool
covers_below zero m c = true
covers_below (suc n) m c = covers (m n) (c n) && covers_below n m c

unfoldable pub status_mask_contains : Mask → Mask → Bool
unfolding covers_below
status_mask_contains m c = covers_below 32 m c

-- `from & bits`, as a condition.
unfoldable pub meets_below : ℕ → Mask → Mask → Bool
meets_below zero m c = false
meets_below (suc n) m c = (m n && c n) || meets_below n m c

unfoldable pub meets : Mask → Mask → Bool
unfolding meets_below
meets m c = meets_below 32 m c

-- The order in which both conversions ask for the statuses.
abbrev pub converted_statuses : List Status
converted_statuses =
    inconsistent_topic ∷ offered_deadline_missed ∷ requested_deadline_missed
    ∷ offered_incompatible_qos ∷ requested_incompatible_qos ∷ sample_lost ∷ sample_rejected
    ∷ data_on_readers ∷ data_available ∷ liveliness_lost ∷ liveliness_changed ∷ publication_matched
    ∷ subscription_matched ∷ []

abbrev pub merge_if : Bool → Mask → ℕ → Mask
merge_if b mask k = if b then union mask (single k) else mask

-- `ddsc_bit` has the bits of the constants DDS_..._STATUS of the C library.
module _ (ddsc_bit : Status → ℕ) where
  unfoldable pub to_ddsc_each : List Status → Mask → Mask → Mask
  unfolding status_mask_contains
  to_ddsc_each [] from mask = mask
  to_ddsc_each (s ∷ ss) from mask =
      to_ddsc_each ss from
        (merge_if (status_mask_contains from (single (status_bit s))) mask (ddsc_bit s))

  unfoldable pub to_ddsc_mask : Mask → Mask
  to_ddsc_mask from = to_ddsc_each converted_statuses from no_bits

  unfoldable pub from_ddsc_each : List Status → Mask → Mask → Mask
  unfolding meets
  from_ddsc_each [] from mask = mask
  from_ddsc_each (s ∷ ss) from mask =
      from_ddsc_each ss from (merge_if (meets from (single (ddsc_bit s))) mask (status_bit s))

  unfoldable pub from_ddsc_mask : Mask → Mask
  from_ddsc_mask from = from_ddsc_each converted_statuses from no_bits
