-- ===== src/Qos/Policies.antt =====
-- The policies (include/org/eclipse/cyclonedds/core/policy/PolicyDelegate.hpp), the delegate that
-- holds the value of each, and the value that the C library holds for it.
pub mod KindsToC
pub mod KindsFromC
pub mod Check
pub mod Bounds
pub mod Transfer
pub mod RoundTrip
pub mod FromC
pub mod ToC
use cyclonedds_cxx.Common.{ℕ, Bool, List, Option}
use cyclonedds_cxx.Common.Int.{ℤ}
use cyclonedds_cxx.Time.Duration.{Duration}
use cyclonedds_cxx.Qos.Kinds.{
  DurabilityKind, DdsDurability, HistoryKind, DdsHistory, DestinationOrderKind, DdsDestinationOrder,
  LivelinessKind, DdsLiveliness, OwnershipKind, DdsOwnership, PresentationAccessScopeKind,
  DdsPresentation, ReliabilityKind, DdsReliability, IgnoreLocalKind, DdsIgnoreLocal,
  TypeConsistencyKind, DdsTypeConsistency, DataRepresentationId, DdsDataRepresentation,
}

-- The policies that are one value; the property policies, which are maps, stand in
-- Qos.Properties.
pub data Policy : Type 0 where
  user_data topic_data group_data : Policy
  durability durability_service : Policy
  deadline latency_budget lifespan time_based_filter : Policy
  liveliness reliability destination_order history resource_limits : Policy
  transport_priority ownership ownership_strength presentation partition : Policy
  reader_data_lifecycle writer_data_lifecycle writer_batching : Policy
  data_representation type_consistency psmx_instances : Policy
  ignore_local entity_name entity_factory : Policy

pub record DurabilityService : Type 0 where
  pub cleanup_delay : Duration
  pub history_kind : HistoryKind
  pub history_depth : ℤ
  pub max_samples : ℤ
  pub max_instances : ℤ
  pub max_samples_per_instance : ℤ

pub record Liveliness : Type 0 where
  pub kind : LivelinessKind
  pub lease_duration : Duration

pub record Reliability : Type 0 where
  pub kind : ReliabilityKind
  pub max_blocking_time : Duration

pub record History : Type 0 where
  pub kind : HistoryKind
  pub depth : ℤ

pub record ResourceLimits : Type 0 where
  pub max_samples : ℤ
  pub max_instances : ℤ
  pub max_samples_per_instance : ℤ

pub record Presentation : Type 0 where
  pub access_scope : PresentationAccessScopeKind
  pub coherent_access : Bool
  pub ordered_access : Bool

pub record ReaderDataLifecycle : Type 0 where
  pub autopurge_nowriter_samples_delay : Duration
  pub autopurge_disposed_samples_delay : Duration

pub record TypeConsistencyEnforcement : Type 0 where
  pub kind : TypeConsistencyKind
  pub ignore_sequence_bounds : Bool
  pub ignore_string_bounds : Bool
  pub ignore_member_names : Bool
  pub prevent_type_widening : Bool
  pub force_type_validation : Bool

-- Characters, and sequences of them.
abbrev pub Text : Type 0
Text = List ℕ

abbrev pub Delegate : Policy → Type 0
Delegate user_data = List ℕ
Delegate topic_data = List ℕ
Delegate group_data = List ℕ
Delegate durability = DurabilityKind
Delegate durability_service = DurabilityService
Delegate deadline = Duration
Delegate latency_budget = Duration
Delegate lifespan = Duration
Delegate time_based_filter = Duration
Delegate liveliness = Liveliness
Delegate reliability = Reliability
Delegate destination_order = DestinationOrderKind
Delegate history = History
Delegate resource_limits = ResourceLimits
Delegate transport_priority = ℤ
Delegate ownership = OwnershipKind
Delegate ownership_strength = ℤ
Delegate presentation = Presentation
Delegate partition = List Text
Delegate reader_data_lifecycle = ReaderDataLifecycle
Delegate writer_data_lifecycle = Bool
Delegate writer_batching = Bool
Delegate data_representation = List DataRepresentationId
Delegate type_consistency = TypeConsistencyEnforcement
Delegate psmx_instances = List Text
Delegate ignore_local = IgnoreLocalKind
Delegate entity_name = Text
Delegate entity_factory = Bool

-- What the functions dds_qset_... of the C library take and dds_qget_... give. A pointer to
-- characters is an Option. There are none for the entity factory.
abbrev pub Value : Policy → Type 0
Value user_data = List ℕ
Value topic_data = List ℕ
Value group_data = List ℕ
Value durability = DdsDurability
Value durability_service = ℤ × DdsHistory × ℤ × ℤ × ℤ × ℤ
Value deadline = ℤ
Value latency_budget = ℤ
Value lifespan = ℤ
Value time_based_filter = ℤ
Value liveliness = DdsLiveliness × ℤ
Value reliability = DdsReliability × ℤ
Value destination_order = DdsDestinationOrder
Value history = DdsHistory × ℤ
Value resource_limits = ℤ × ℤ × ℤ
Value transport_priority = ℤ
Value ownership = DdsOwnership
Value ownership_strength = ℤ
Value presentation = DdsPresentation × Bool × Bool
Value partition = List (Option Text)
Value reader_data_lifecycle = ℤ × ℤ
Value writer_data_lifecycle = Bool
Value writer_batching = Bool
Value data_representation = List DdsDataRepresentation
Value type_consistency = DdsTypeConsistency × Bool × Bool × Bool × Bool × Bool
Value psmx_instances = List (Option Text)
Value ignore_local = DdsIgnoreLocal
Value entity_name = Option Text
Value entity_factory = Unit
