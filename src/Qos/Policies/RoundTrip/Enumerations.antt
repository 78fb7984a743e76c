-- ===== src/Qos/Policies/RoundTrip/Enumerations.antt =====
-- The kinds on their way to the C library and back.
use cyclonedds_cxx.Common.{◌≡◌, some, arith}
use cyclonedds_cxx.Time.Result.{ok}
use cyclonedds_cxx.Qos.Kinds.{
  DurabilityKind, HistoryKind, DestinationOrderKind, LivelinessKind, OwnershipKind,
  PresentationAccessScopeKind, ReliabilityKind, IgnoreLocalKind, TypeConsistencyKind,
}
use cyclonedds_cxx.Qos.Policies.KindsToC.{
  to_dds_durability, to_dds_destination_order, to_dds_history, to_dds_liveliness, to_dds_ownership,
  to_dds_presentation, to_dds_reliability, to_dds_ignore_local, to_dds_type_consistency,
}
use cyclonedds_cxx.Qos.Policies.KindsFromC.{
  of_dds_durability, of_dds_destination_order, of_dds_history, of_dds_liveliness,
  of_dds_ignore_local, of_dds_ownership, of_dds_presentation, of_dds_reliability,
  of_dds_type_consistency,
}

pub of_dds_durability-to_dds_durability :
    (k : DurabilityKind) → of_dds_durability (to_dds_durability k) ≡ ok k
unfolding of_dds_durability to_dds_durability
of_dds_durability-to_dds_durability k = ground arith

pub of_dds_destination_order-to_dds_destination_order :
    (k : DestinationOrderKind) → of_dds_destination_order (to_dds_destination_order k) ≡ ok k
unfolding of_dds_destination_order to_dds_destination_order
of_dds_destination_order-to_dds_destination_order k = ground arith

pub of_dds_history-to_dds_history : (k : HistoryKind) → of_dds_history (to_dds_history k) ≡ ok k
unfolding of_dds_history to_dds_history
of_dds_history-to_dds_history k = ground arith

pub of_dds_liveliness-to_dds_liveliness :
    (k : LivelinessKind) → of_dds_liveliness (to_dds_liveliness k) ≡ ok k
unfolding of_dds_liveliness to_dds_liveliness
of_dds_liveliness-to_dds_liveliness k = ground arith

pub of_dds_ignore_local-to_dds_ignore_local :
    (k : IgnoreLocalKind) → of_dds_ignore_local (to_dds_ignore_local k) ≡ ok k
unfolding of_dds_ignore_local to_dds_ignore_local
of_dds_ignore_local-to_dds_ignore_local k = ground arith

pub of_dds_ownership-to_dds_ownership :
    (k old : OwnershipKind) → of_dds_ownership (to_dds_ownership k) old ≡ k
unfolding of_dds_ownership to_dds_ownership
of_dds_ownership-to_dds_ownership k old = ground arith

pub of_dds_presentation-to_dds_presentation :
    (k old : PresentationAccessScopeKind) → of_dds_presentation (to_dds_presentation k) old ≡ k
unfolding of_dds_presentation to_dds_presentation
of_dds_presentation-to_dds_presentation k old = ground arith

pub of_dds_reliability-to_dds_reliability :
    (k old : ReliabilityKind) → of_dds_reliability (to_dds_reliability k) old ≡ k
unfolding of_dds_reliability to_dds_reliability
of_dds_reliability-to_dds_reliability k old = ground arith

pub of_dds_type_consistency-to_dds_type_consistency :
    (k : TypeConsistencyKind) → of_dds_type_consistency (to_dds_type_consistency k) ≡ some k
unfolding of_dds_type_consistency to_dds_type_consistency
of_dds_type_consistency-to_dds_type_consistency k = ground arith
