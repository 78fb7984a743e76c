-- ===== src/Qos/Policies/KindsFromC.antt =====
-- The switches of the functions set_iso_policy (PolicyDelegate.cpp).
use cyclonedds_cxx.Common.{List, [], ◌∷◌, Option, some, none}
use cyclonedds_cxx.Time.Result.{Result, ok, undefined}
use cyclonedds_cxx.Qos.Kinds.{
  DurabilityKind, volatile, transient_local, transient, persistent, DdsDurability,
  dds_durability_volatile, dds_durability_transient_local, dds_durability_transient,
  dds_durability_persistent, dds_durability_other, HistoryKind, keep_last, keep_all, DdsHistory,
  dds_history_keep_last, dds_history_keep_all, dds_history_other, DestinationOrderKind,
  by_reception_timestamp, by_source_timestamp, DdsDestinationOrder,
  dds_destinationorder_by_reception_timestamp, dds_destinationorder_by_source_timestamp,
  dds_destinationorder_other, LivelinessKind, automatic, manual_by_participant, manual_by_topic,
  DdsLiveliness, dds_liveliness_automatic, dds_liveliness_manual_by_participant,
  dds_liveliness_manual_by_topic, dds_liveliness_other, OwnershipKind, shared, exclusive,
  DdsOwnership, dds_ownership_shared, dds_ownership_exclusive, dds_ownership_other,
  PresentationAccessScopeKind, access_instance, access_topic, access_group, DdsPresentation,
  dds_presentation_instance, dds_presentation_topic, dds_presentation_group, dds_presentation_other,
  ReliabilityKind, best_effort, reliable, DdsReliability, dds_reliability_best_effort,
  dds_reliability_reliable, dds_reliability_other, IgnoreLocalKind, ignore_none, ignore_participant,
  ignore_process, DdsIgnoreLocal, dds_ignorelocal_none, dds_ignorelocal_participant,
  dds_ignorelocal_process, dds_ignorelocal_other, TypeConsistencyKind, disallow_type_coercion,
  allow_type_coercion, DdsTypeConsistency, dds_type_consistency_disallow_type_coercion,
  dds_type_consistency_allow_type_coercion, dds_type_consistency_other, DataRepresentationId, xcdr1,
  xml, xcdr2, DdsDataRepresentation, dds_data_representation_xcdr1, dds_data_representation_xml,
  dds_data_representation_xcdr2, dds_data_representation_other,
}

-- A number that is no constant of the enumeration fails an assertion.
unfoldable pub of_dds_durability : DdsDurability → Result DurabilityKind
of_dds_durability dds_durability_volatile = ok volatile
of_dds_durability dds_durability_transient = ok transient
of_dds_durability dds_durability_transient_local = ok transient_local
of_dds_durability dds_durability_persistent = ok persistent
of_dds_durability dds_durability_other = undefined

unfoldable pub of_dds_destination_order : DdsDestinationOrder → Result DestinationOrderKind
of_dds_destination_order dds_destinationorder_by_reception_timestamp = ok by_reception_timestamp
of_dds_destination_order dds_destinationorder_by_source_timestamp = ok by_source_timestamp
of_dds_destination_order dds_destinationorder_other = undefined

unfoldable pub of_dds_history : DdsHistory → Result HistoryKind
of_dds_history dds_history_keep_last = ok keep_last
of_dds_history dds_history_keep_all = ok keep_all
of_dds_history dds_history_other = undefined

unfoldable pub of_dds_liveliness : DdsLiveliness → Result LivelinessKind
of_dds_liveliness dds_liveliness_automatic = ok automatic
of_dds_liveliness dds_liveliness_manual_by_participant = ok manual_by_participant
of_dds_liveliness dds_liveliness_manual_by_topic = ok manual_by_topic
of_dds_liveliness dds_liveliness_other = undefined

unfoldable pub of_dds_ignore_local : DdsIgnoreLocal → Result IgnoreLocalKind
of_dds_ignore_local dds_ignorelocal_none = ok ignore_none
of_dds_ignore_local dds_ignorelocal_participant = ok ignore_participant
of_dds_ignore_local dds_ignorelocal_process = ok ignore_process
of_dds_ignore_local dds_ignorelocal_other = undefined

-- The switches without an assertion keep the kind that the delegate had.
unfoldable pub of_dds_ownership : DdsOwnership → OwnershipKind → OwnershipKind
of_dds_ownership dds_ownership_shared old = shared
of_dds_ownership dds_ownership_exclusive old = exclusive
of_dds_ownership dds_ownership_other old = old

unfoldable pub of_dds_presentation :
    DdsPresentation → PresentationAccessScopeKind → PresentationAccessScopeKind
of_dds_presentation dds_presentation_instance old = access_instance
of_dds_presentation dds_presentation_topic old = access_topic
of_dds_presentation dds_presentation_group old = access_group
of_dds_presentation dds_presentation_other old = old

unfoldable pub of_dds_reliability : DdsReliability → ReliabilityKind → ReliabilityKind
of_dds_reliability dds_reliability_reliable old = reliable
of_dds_reliability dds_reliability_best_effort old = best_effort
of_dds_reliability dds_reliability_other old = old

-- The switch of TypeConsistencyEnforcementDelegate::set_iso_policy, which returns on other kinds.
unfoldable pub of_dds_type_consistency : DdsTypeConsistency → Option TypeConsistencyKind
of_dds_type_consistency dds_type_consistency_disallow_type_coercion = some disallow_type_coercion
of_dds_type_consistency dds_type_consistency_allow_type_coercion = some allow_type_coercion
of_dds_type_consistency dds_type_consistency_other = none

-- The loop of DataRepresentationDelegate::set_iso_policy, which drops other representations.
unfoldable pub of_dds_representations : List DdsDataRepresentation → List DataRepresentationId
of_dds_representations [] = []
of_dds_representations (dds_data_representation_xcdr1 ∷ vs) = xcdr1 ∷ of_dds_representations vs
of_dds_representations (dds_data_representation_xml ∷ vs) = xml ∷ of_dds_representations vs
of_dds_representations (dds_data_representation_xcdr2 ∷ vs) = xcdr2 ∷ of_dds_representations vs
of_dds_representations (dds_data_representation_other ∷ vs) = of_dds_representations vs
