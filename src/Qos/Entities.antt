-- ===== src/Qos/Entities.antt =====
-- The sets with property policies: DataReaderQosDelegate, DataWriterQosDelegate and
-- DomainParticipantQosDelegate. Each is a set of policies in one order, then the properties, then
-- the name of the entity.
pub mod Frames
pub mod Lists
pub mod RoundTrip
pub mod FromTopic
pub mod Factory
pub mod Members
mod Runs
use cyclonedds_cxx.Common.{
  ℕ, ◌≡◌, Bool, true, false, List, [], ◌∷◌, Option, some, none, if◌then◌else◌,
}
use cyclonedds_cxx.Time.Result.{Result, ok, ◌>>=◌}
use cyclonedds_cxx.Qos.Policies.{
  Policy, user_data, topic_data, group_data, durability, durability_service, deadline,
  latency_budget, lifespan, time_based_filter, liveliness, reliability, destination_order, history,
  resource_limits, transport_priority, ownership, ownership_strength, presentation, partition,
  reader_data_lifecycle, writer_data_lifecycle, writer_batching, data_representation,
  type_consistency, psmx_instances, ignore_local, entity_name, entity_factory, DurabilityService,
  Liveliness, Reliability, History, ResourceLimits, Presentation, ReaderDataLifecycle,
  TypeConsistencyEnforcement, Text, Delegate, Value,
}
use cyclonedds_cxx.Qos.Library
use cyclonedds_cxx.Qos.Library.{Library}
use cyclonedds_cxx.Qos.Sets.{
  QosSet, created, set_c_policies, set_iso_policies, Policy-discrete, check_reader,
  check_history_of, assign, reader_from_topic, writer_from_topic,
}
use mathlib.Mathlib.Logic.Function.Basic.{update}
use cyclonedds_cxx.Qos.Properties.{PropertyKind, textual, binary, Properties}
use cyclonedds_cxx.Qos.Properties.Calls
use cyclonedds_cxx.Qos.Properties.Calls.{PropertyCalls}
use cyclonedds_cxx.Qos.Properties.Transfer.{set_c_properties, set_iso_properties}

-- A C library with properties. `has_properties` tests the flag DDSI_QP_PROPERTY_LIST; a policy and a
-- property are set without regard to each other.
pub record EntityLibrary : Type 1 where
  pub lib : Library
  pub calls : PropertyCalls lib.Qos
  pub has_properties : lib.Qos → Bool
  pub without_properties :
      (q : lib.Qos) (k : PropertyKind) (n : Text)
      → has_properties q ≡ false
      → calls.qget_prop k n q ≡ none
  pub has_properties-create : (q : lib.Qos) → lib.create ≡ some q → has_properties q ≡ false
  pub qget_prop-qset :
      (k : PropertyKind) (n : Text) (p : Policy) (v : Value p) (q : lib.Qos)
      → calls.qget_prop k n (lib.qset p v q) ≡ calls.qget_prop k n q
  pub qget-qset_prop :
      (p : Policy) (k : PropertyKind) (n : Text) (v : List ℕ) (b : Bool) (q : lib.Qos)
      → lib.qget p (calls.qset_prop k n v b q) ≡ lib.qget p q
  pub present-qset_prop :
      (p : Policy) (k : PropertyKind) (n : Text) (v : List ℕ) (b : Bool) (q : lib.Qos)
      → lib.present (calls.qset_prop k n v b q) p ≡ lib.present q p

-- `property_list` is the flag of both property policies.
pub record EntityQos : Type 0 where
  pub policies : QosSet
  pub property_list : Bool
  pub property : Properties (List ℕ)
  pub binary_property : Properties (List ℕ)

-- The policies before the properties, in the order of ddsc_qos().
abbrev pub reader_policies : List Policy
reader_policies =
    deadline ∷ durability ∷ history ∷ latency_budget ∷ reader_data_lifecycle ∷ liveliness
    ∷ destination_order ∷ ownership ∷ time_based_filter ∷ reliability ∷ resource_limits ∷ user_data
    ∷ data_representation ∷ type_consistency ∷ psmx_instances ∷ ignore_local ∷ []

abbrev pub writer_policies : List Policy
writer_policies =
    user_data ∷ durability ∷ durability_service ∷ deadline ∷ latency_budget ∷ liveliness
    ∷ reliability ∷ destination_order ∷ history ∷ resource_limits ∷ transport_priority ∷ lifespan
    ∷ ownership ∷ ownership_strength ∷ writer_data_lifecycle ∷ data_representation
    ∷ type_consistency ∷ writer_batching ∷ psmx_instances ∷ ignore_local ∷ []

abbrev pub participant_policies : List Policy
participant_policies = user_data ∷ entity_factory ∷ []

-- The same of ddsc_qos(const dds_qos_t*, bool).
abbrev pub reader_received : List Policy
reader_received =
    deadline ∷ durability ∷ history ∷ latency_budget ∷ reader_data_lifecycle ∷ liveliness
    ∷ destination_order ∷ ownership ∷ time_based_filter ∷ reliability ∷ resource_limits ∷ user_data
    ∷ data_representation ∷ type_consistency ∷ psmx_instances ∷ ignore_local ∷ []

abbrev pub writer_received : List Policy
writer_received =
    user_data ∷ durability ∷ durability_service ∷ deadline ∷ latency_budget ∷ liveliness
    ∷ reliability ∷ destination_order ∷ history ∷ resource_limits ∷ transport_priority ∷ lifespan
    ∷ ownership ∷ ownership_strength ∷ writer_data_lifecycle ∷ data_representation
    ∷ type_consistency ∷ writer_batching ∷ psmx_instances ∷ ignore_local ∷ []

abbrev pub participant_received : List Policy
participant_received = user_data ∷ entity_factory ∷ []

-- Behind the properties, in both.
abbrev pub last_policies : List Policy
last_policies = entity_name ∷ []

-- `present() &= ~DDSI_QP_DATA_REPRESENTATION`
abbrev pub without_representation : EntityQos → EntityQos
without_representation s = record s {
  policies = record {
    present = update Policy-discrete s.policies.present data_representation false;
    values = s.policies.values;
  };
}

module _ (full : EntityLibrary) where
  abbrev pub set_c_lists : EntityQos → full.lib.Qos → Result full.lib.Qos
  set_c_lists s q =
      if s.property_list
      then (set_c_properties full.calls textual s.property q
          >>= set_c_properties full.calls binary s.binary_property)
      else ok q

  -- ddsc_qos()
  unfoldable pub entity_to_ddsc : List Policy → EntityQos → Result full.lib.Qos
  unfolding set_c_policies set_c_properties
  entity_to_ddsc ps s =
      created full.lib
      >>= set_c_policies full.lib ps s.policies
      >>= set_c_lists s
      >>= set_c_policies full.lib last_policies s.policies

  abbrev pub set_iso_lists : full.lib.Qos → EntityQos → Result EntityQos
  set_iso_lists q s =
      if full.has_properties q
      then (set_iso_properties full.calls textual q s.property >>= λ p.
          set_iso_properties full.calls binary q s.binary_property >>= λ b.
          ok (record s { property = p; binary_property = b }))
      else ok s

  abbrev pub set_iso_listed : List Policy → full.lib.Qos → EntityQos → Result EntityQos
  set_iso_listed ps q s =
      set_iso_policies full.lib ps q s.policies >>= λ t. ok (record s { policies = t })

  abbrev pub with_flags : full.lib.Qos → EntityQos → EntityQos
  with_flags q s = record s {
    policies = record { present = full.lib.present q; values = s.policies.values };
    property_list = full.has_properties q;
  }

  -- ddsc_qos(const dds_qos_t*, bool copy_flags)
  unfoldable pub entity_from_ddsc : List Policy → full.lib.Qos → Bool → EntityQos → Result EntityQos
  unfolding set_iso_policies set_iso_properties
  entity_from_ddsc ps q copy_flags s =
      set_iso_listed ps q (if copy_flags then with_flags q s else s)
      >>= set_iso_lists q
      >>= set_iso_listed last_policies q

  -- The constructors of a reader's and a writer's set without arguments, from a default of the C
  -- library and the values that the members are initialised to; `checked` is the check of the set.
  unfoldable pub construct_endpoint :
      List Policy → (QosSet → Result (Unit {0})) → full.lib.Qos → EntityQos → Result EntityQos
  unfolding entity_from_ddsc
  construct_endpoint ps checked default fresh = entity_from_ddsc ps default true fresh >>= λ s.
      let t = without_representation s in checked t.policies >>= λ _. ok t

  -- The constructors from the set of a topic.
  unfoldable pub reader_of_topic : ℕ → QosSet → full.lib.Qos → EntityQos → Result EntityQos
  unfolding construct_endpoint check_reader assign
  reader_of_topic max_psmx tqos default fresh =
      construct_endpoint reader_received check_reader default fresh >>= λ s.
      assign max_psmx reader_from_topic tqos s.policies >>= λ t. ok (record s { policies = t })

  unfoldable pub writer_of_topic : ℕ → QosSet → full.lib.Qos → EntityQos → Result EntityQos
  unfolding construct_endpoint check_history_of assign
  writer_of_topic max_psmx tqos default fresh =
      construct_endpoint writer_received check_history_of default fresh >>= λ s.
      assign max_psmx writer_from_topic tqos s.policies >>= λ t. ok (record s { policies = t })

  unfoldable pub construct_participant : full.lib.Qos → EntityQos → Result EntityQos
  unfolding entity_from_ddsc
  construct_participant default fresh = entity_from_ddsc participant_received default true fresh
