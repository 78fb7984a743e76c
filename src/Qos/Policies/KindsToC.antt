-- ===== src/Qos/Policies/KindsToC.antt =====
-- The switches of the functions set_c_policy (PolicyDelegate.cpp).
use cyclonedds_cxx.Common.{List, [], ◌∷◌}
use cyclonedds_cxx.Qos.Kinds.{
  DurabilityKind, volatile, transient_local, transient, persistent, DdsDurability,
  dds_durability_volatile, dds_durability_transient_local, dds_durability_transient,
  dds_durability_persistent, HistoryKind, keep_last, keep_all, DdsHistory, dds_history_keep_last,
  dds_history_keep_all, DestinationOrderKind, by_reception_timestamp, by_source_timestamp,
  DdsDestinationOrder, dds_destinationorder_by_reception_timestamp,
  dds_destinationorder_by_source_timestamp, LivelinessKind, automatic, manual_by_participant,
  manual_by_topic, DdsLiveliness, dds_liveliness_automatic, dds_liveliness_manual_by_participant,
  dds_liveliness_manual_by_topic, OwnershipKind, shared, exclusive, DdsOwnership,
  dds_ownership_shared, dds_ownership_exclusive, PresentationAccessScopeKind, access_instance,
  access_topic, access_group, DdsPresentation, dds_presentation_instance, dds_presentation_topic,
  dds_presentation_group, ReliabilityKind, best_effort, reliable, DdsReliability,
  dds_reliability_best_effort, dds_reliability_reliable, IgnoreLocalKind, ignore_none,
  ignore_participant, ignore_process, DdsIgnoreLocal, dds_ignorelocal_none,
  dds_ignorelocal_participant, dds_ignorelocal_process, TypeConsistencyKind, disallow_type_coercion,
  allow_type_coercion, DdsTypeConsistency, dds_type_consistency_disallow_type_coercion,
  dds_type_consistency_allow_type_coercion, DataRepresentationId, xcdr1, xml, xcdr2,
  DdsDataRepresentation, dds_data_representation_xcdr1, dds_data_representation_xml,
  dds_data_representation_xcdr2,
}

unfoldable pub to_dds_durability : DurabilityKind → DdsDurability
to_dds_durability volatile = dds_durability_volatile
to_dds_durability transient_local = dds_durability_transient_local
to_dds_durability transient = dds_durability_transient
to_dds_durability persistent = dds_durability_persistent

unfoldable pub to_dds_destination_order : DestinationOrderKind → DdsDestinationOrder
to_dds_destination_order by_reception_timestamp = dds_destinationorder_by_reception_timestamp
to_dds_destination_order by_source_timestamp = dds_destinationorder_by_source_timestamp

unfoldable pub to_dds_history : HistoryKind → DdsHistory
to_dds_history keep_last = dds_history_keep_last
to_dds_history keep_all = dds_history_keep_all

unfoldable pub to_dds_liveliness : LivelinessKind → DdsLiveliness
to_dds_liveliness automatic = dds_liveliness_automatic
to_dds_liveliness manual_by_participant = dds_liveliness_manual_by_participant
to_dds_liveliness manual_by_topic = dds_liveliness_manual_by_topic

unfoldable pub to_dds_ownership : OwnershipKind → DdsOwnership
to_dds_ownership shared = dds_ownership_shared
to_dds_ownership exclusive = dds_ownership_exclusive

unfoldable pub to_dds_presentation : PresentationAccessScopeKind → DdsPresentation
to_dds_presentation access_instance = dds_presentation_instance
to_dds_presentation access_topic = dds_presentation_topic
to_dds_presentation access_group = dds_presentation_group

unfoldable pub to_dds_reliability : ReliabilityKind → DdsReliability
to_dds_reliability best_effort = dds_reliability_best_effort
to_dds_reliability reliable = dds_reliability_reliable

unfoldable pub to_dds_ignore_local : IgnoreLocalKind → DdsIgnoreLocal
to_dds_ignore_local ignore_none = dds_ignorelocal_none
to_dds_ignore_local ignore_participant = dds_ignorelocal_participant
to_dds_ignore_local ignore_process = dds_ignorelocal_process

unfoldable pub to_dds_type_consistency : TypeConsistencyKind → DdsTypeConsistency
to_dds_type_consistency disallow_type_coercion = dds_type_consistency_disallow_type_coercion
to_dds_type_consistency allow_type_coercion = dds_type_consistency_allow_type_coercion

unfoldable pub to_dds_data_representation : DataRepresentationId → DdsDataRepresentation
to_dds_data_representation xcdr1 = dds_data_representation_xcdr1
to_dds_data_representation xml = dds_data_representation_xml
to_dds_data_representation xcdr2 = dds_data_representation_xcdr2

-- The loop of DataRepresentationDelegate::set_c_policy.
unfoldable pub to_dds_representations : List DataRepresentationId → List DdsDataRepresentation
unfolding to_dds_data_representation
to_dds_representations [] = []
to_dds_representations (v ∷ vs) = to_dds_data_representation v ∷ to_dds_representations vs
