-- ===== src/Qos/Kinds.antt =====
-- The kinds of policies (include/dds/core/policy/PolicyKind.hpp), and the enumerations of the C
-- library that they are translated to: its constants, and `..._other` for any other number.

pub data DurabilityKind : Type 0 where
  volatile transient_local transient persistent : DurabilityKind

pub data DdsDurability : Type 0 where
  dds_durability_volatile : DdsDurability
  dds_durability_transient_local : DdsDurability
  dds_durability_transient : DdsDurability
  dds_durability_persistent : DdsDurability
  dds_durability_other : DdsDurability

pub data HistoryKind : Type 0 where
  keep_last keep_all : HistoryKind

pub data DdsHistory : Type 0 where
  dds_history_keep_last : DdsHistory
  dds_history_keep_all : DdsHistory
  dds_history_other : DdsHistory

pub data DestinationOrderKind : Type 0 where
  by_reception_timestamp by_source_timestamp : DestinationOrderKind

pub data DdsDestinationOrder : Type 0 where
  dds_destinationorder_by_reception_timestamp : DdsDestinationOrder
  dds_destinationorder_by_source_timestamp : DdsDestinationOrder
  dds_destinationorder_other : DdsDestinationOrder

pub data LivelinessKind : Type 0 where
  automatic manual_by_participant manual_by_topic : LivelinessKind

pub data DdsLiveliness : Type 0 where
  dds_liveliness_automatic : DdsLiveliness
  dds_liveliness_manual_by_participant : DdsLiveliness
  dds_liveliness_manual_by_topic : DdsLiveliness
  dds_liveliness_other : DdsLiveliness

pub data OwnershipKind : Type 0 where
  shared exclusive : OwnershipKind

pub data DdsOwnership : Type 0 where
  dds_ownership_shared : DdsOwnership
  dds_ownership_exclusive : DdsOwnership
  dds_ownership_other : DdsOwnership

pub data PresentationAccessScopeKind : Type 0 where
  access_instance access_topic access_group : PresentationAccessScopeKind

pub data DdsPresentation : Type 0 where
  dds_presentation_instance : DdsPresentation
  dds_presentation_topic : DdsPresentation
  dds_presentation_group : DdsPresentation
  dds_presentation_other : DdsPresentation

pub data ReliabilityKind : Type 0 where
  best_effort reliable : ReliabilityKind

pub data DdsReliability : Type 0 where
  dds_reliability_best_effort : DdsReliability
  dds_reliability_reliable : DdsReliability
  dds_reliability_other : DdsReliability

pub data IgnoreLocalKind : Type 0 where
  ignore_none ignore_participant ignore_process : IgnoreLocalKind

pub data DdsIgnoreLocal : Type 0 where
  dds_ignorelocal_none : DdsIgnoreLocal
  dds_ignorelocal_participant : DdsIgnoreLocal
  dds_ignorelocal_process : DdsIgnoreLocal
  dds_ignorelocal_other : DdsIgnoreLocal

pub data TypeConsistencyKind : Type 0 where
  disallow_type_coercion allow_type_coercion : TypeConsistencyKind

pub data DdsTypeConsistency : Type 0 where
  dds_type_consistency_disallow_type_coercion : DdsTypeConsistency
  dds_type_consistency_allow_type_coercion : DdsTypeConsistency
  dds_type_consistency_other : DdsTypeConsistency

pub data DataRepresentationId : Type 0 where
  xcdr1 xml xcdr2 : DataRepresentationId

pub data DdsDataRepresentation : Type 0 where
  dds_data_representation_xcdr1 : DdsDataRepresentation
  dds_data_representation_xml : DdsDataRepresentation
  dds_data_representation_xcdr2 : DdsDataRepresentation
  dds_data_representation_other : DdsDataRepresentation
