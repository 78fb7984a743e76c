-- ===== src/Qos/Policies/FromC.antt =====
-- What the functions set_iso_policy of the delegates make of a value of the C library
-- (PolicyDelegate.cpp).
use cyclonedds_cxx.Common.{ℕ, Bool, true, List, [], ◌∷◌, Option, some, none}
use cyclonedds_cxx.Time.Result.{Result, ok, throws, undefined, ◌>>=◌, null_reference}
use cyclonedds_cxx.Qos.Conversions.{to_duration, to_byte_array}
use cyclonedds_cxx.Qos.Kinds.{TypeConsistencyKind}
use cyclonedds_cxx.Qos.Policies.KindsFromC.{
  of_dds_durability, of_dds_destination_order, of_dds_history, of_dds_liveliness,
  of_dds_ignore_local, of_dds_ownership, of_dds_presentation, of_dds_reliability,
  of_dds_type_consistency, of_dds_representations,
}
use cyclonedds_cxx.Qos.Policies.{
  Policy, user_data, topic_data, group_data, durability, durability_service, deadline,
  latency_budget, lifespan, time_based_filter, liveliness, reliability, destination_order, history,
  resource_limits, transport_priority, ownership, ownership_strength, presentation, partition,
  reader_data_lifecycle, writer_data_lifecycle, writer_batching, data_representation,
  type_consistency, psmx_instances, ignore_local, entity_name, entity_factory,
  TypeConsistencyEnforcement, Text, Delegate, Value,
}

-- convertStringSeq from C strings, where a null pointer is an empty string.
unfoldable pub of_c_strings : List (Option Text) → List Text
of_c_strings [] = []
of_c_strings (some t ∷ ts) = t ∷ of_c_strings ts
of_c_strings (none ∷ ts) = [] ∷ of_c_strings ts

-- The loop of PSMXInstancesDelegate::set_iso_policy, which throws at a null pointer.
unfoldable pub of_psmx_strings : List (Option Text) → Result (List Text)
of_psmx_strings [] = ok []
of_psmx_strings (some t ∷ ts) = of_psmx_strings ts >>= λ rest. ok (t ∷ rest)
of_psmx_strings (none ∷ ts) = throws null_reference

-- The bytes of a user, topic or group data: an empty sequence leaves the delegate as it was.
unfoldable pub of_c_bytes : List ℕ → List ℕ → Result (List ℕ)
unfolding to_byte_array
of_c_bytes [] old = ok old
of_c_bytes (b ∷ bs) old = to_byte_array (b ∷ bs)

unfoldable pub with_type_consistency :
    Option TypeConsistencyKind
    → Bool × Bool × Bool × Bool × Bool
    → TypeConsistencyEnforcement
    → TypeConsistencyEnforcement
with_type_consistency none flags old = old
with_type_consistency (some kind) (sequences, strings, names, widening, validation) old = record {
  kind = kind;
  ignore_sequence_bounds = sequences;
  ignore_string_bounds = strings;
  ignore_member_names = names;
  prevent_type_widening = widening;
  force_type_validation = validation;
}

-- set_iso_policy of each delegate, where the C library has a value: what the delegate becomes.
abbrev pub user_data_from_c : Value user_data → Delegate user_data → Result (Delegate user_data)
user_data_from_c v old = of_c_bytes v old

abbrev pub topic_data_from_c : Value topic_data → Delegate topic_data → Result (Delegate topic_data)
topic_data_from_c v old = of_c_bytes v old

abbrev pub group_data_from_c : Value group_data → Delegate group_data → Result (Delegate group_data)
group_data_from_c v old = of_c_bytes v old

abbrev pub durability_from_c : Value durability → Delegate durability → Result (Delegate durability)
durability_from_c v old = of_dds_durability v

abbrev pub durability_service_from_c :
    ℕ
    → Value durability_service
    → Delegate durability_service
    → Result (Delegate durability_service)
durability_service_from_c infinity (delay, kind, depth, samples, instances, per_instance) old = do
  d ← to_duration infinity delay
  k ← of_dds_history kind
  ok record {
    cleanup_delay = d;
    history_kind = k;
    history_depth = depth;
    max_samples = samples;
    max_instances = instances;
    max_samples_per_instance = per_instance;
  }

abbrev pub deadline_from_c : ℕ → Value deadline → Delegate deadline → Result (Delegate deadline)
deadline_from_c infinity v old = to_duration infinity v

abbrev pub latency_budget_from_c :
    ℕ → Value latency_budget → Delegate latency_budget → Result (Delegate latency_budget)
latency_budget_from_c infinity v old = to_duration infinity v

abbrev pub lifespan_from_c : ℕ → Value lifespan → Delegate lifespan → Result (Delegate lifespan)
lifespan_from_c infinity v old = to_duration infinity v

abbrev pub time_based_filter_from_c :
    ℕ → Value time_based_filter → Delegate time_based_filter → Result (Delegate time_based_filter)
time_based_filter_from_c infinity v old = to_duration infinity v

abbrev pub liveliness_from_c :
    ℕ → Value liveliness → Delegate liveliness → Result (Delegate liveliness)
liveliness_from_c infinity (kind, lease) old = do
  k ← of_dds_liveliness kind
  d ← to_duration infinity lease
  ok record { kind = k; lease_duration = d }

abbrev pub reliability_from_c :
    ℕ → Value reliability → Delegate reliability → Result (Delegate reliability)
reliability_from_c infinity (kind, time) old = do
  d ← to_duration infinity time
  ok record { kind = of_dds_reliability kind old.kind; max_blocking_time = d }

abbrev pub destination_order_from_c :
    Value destination_order → Delegate destination_order → Result (Delegate destination_order)
destination_order_from_c v old = of_dds_destination_order v

abbrev pub history_from_c : Value history → Delegate history → Result (Delegate history)
history_from_c (kind, depth) old = do k ← of_dds_history kind; ok record { kind = k; depth = depth }

abbrev pub resource_limits_from_c :
    Value resource_limits → Delegate resource_limits → Result (Delegate resource_limits)
resource_limits_from_c (samples, instances, per_instance) old = ok record {
  max_samples = samples;
  max_instances = instances;
  max_samples_per_instance = per_instance;
}

abbrev pub transport_priority_from_c :
    Value transport_priority → Delegate transport_priority → Result (Delegate transport_priority)
transport_priority_from_c v old = ok v

abbrev pub ownership_from_c : Value ownership → Delegate ownership → Result (Delegate ownership)
ownership_from_c v old = ok (of_dds_ownership v old)

abbrev pub ownership_strength_from_c :
    Value ownership_strength → Delegate ownership_strength → Result (Delegate ownership_strength)
ownership_strength_from_c v old = ok v

abbrev pub presentation_from_c :
    Value presentation → Delegate presentation → Result (Delegate presentation)
presentation_from_c (scope, coherent, ordered) old = ok record {
  access_scope = of_dds_presentation scope old.access_scope;
  coherent_access = coherent;
  ordered_access = ordered;
}

abbrev pub partition_from_c : Value partition → Delegate partition → Result (Delegate partition)
partition_from_c [] old = ok old
partition_from_c (t ∷ ts) old = ok (of_c_strings (t ∷ ts))

abbrev pub reader_data_lifecycle_from_c :
    ℕ
    → Value reader_data_lifecycle
    → Delegate reader_data_lifecycle
    → Result (Delegate reader_data_lifecycle)
reader_data_lifecycle_from_c infinity (nowriter, disposed) old = do
  n ← to_duration infinity nowriter
  d ← to_duration infinity disposed
  ok record { autopurge_nowriter_samples_delay = n; autopurge_disposed_samples_delay = d }

abbrev pub writer_data_lifecycle_from_c :
    Value writer_data_lifecycle
    → Delegate writer_data_lifecycle
    → Result (Delegate writer_data_lifecycle)
writer_data_lifecycle_from_c v old = ok v

abbrev pub writer_batching_from_c :
    Value writer_batching → Delegate writer_batching → Result (Delegate writer_batching)
writer_batching_from_c v old = ok v

abbrev pub data_representation_from_c :
    Value data_representation → Delegate data_representation → Result (Delegate data_representation)
data_representation_from_c v old = ok (of_dds_representations v)

abbrev pub type_consistency_from_c :
    Value type_consistency → Delegate type_consistency → Result (Delegate type_consistency)
type_consistency_from_c (kind, sequences, strings, names, widening, validation) old = ok (
    with_type_consistency (of_dds_type_consistency kind)
      (sequences, strings, names, widening, validation) old)

abbrev pub psmx_instances_from_c :
    Value psmx_instances → Delegate psmx_instances → Result (Delegate psmx_instances)
psmx_instances_from_c v old = of_psmx_strings v

abbrev pub ignore_local_from_c :
    Value ignore_local → Delegate ignore_local → Result (Delegate ignore_local)
ignore_local_from_c v old = of_dds_ignore_local v

abbrev pub entity_name_from_c :
    Value entity_name → Delegate entity_name → Result (Delegate entity_name)
entity_name_from_c none old = undefined
entity_name_from_c (some t) old = ok t

abbrev pub entity_factory_from_c :
    Value entity_factory → Delegate entity_factory → Result (Delegate entity_factory)
entity_factory_from_c v old = ok true

unfoldable pub from_c : ℕ → (p : Policy) → Value p → Delegate p → Result (Delegate p)
from_c infinity user_data v old = user_data_from_c v old
from_c infinity topic_data v old = topic_data_from_c v old
from_c infinity group_data v old = group_data_from_c v old
from_c infinity durability v old = durability_from_c v old
from_c infinity durability_service v old = durability_service_from_c infinity v old
from_c infinity deadline v old = deadline_from_c infinity v old
from_c infinity latency_budget v old = latency_budget_from_c infinity v old
from_c infinity lifespan v old = lifespan_from_c infinity v old
from_c infinity time_based_filter v old = time_based_filter_from_c infinity v old
from_c infinity liveliness v old = liveliness_from_c infinity v old
from_c infinity reliability v old = reliability_from_c infinity v old
from_c infinity destination_order v old = destination_order_from_c v old
from_c infinity history v old = history_from_c v old
from_c infinity resource_limits v old = resource_limits_from_c v old
from_c infinity transport_priority v old = transport_priority_from_c v old
from_c infinity ownership v old = ownership_from_c v old
from_c infinity ownership_strength v old = ownership_strength_from_c v old
from_c infinity presentation v old = presentation_from_c v old
from_c infinity partition v old = partition_from_c v old
from_c infinity reader_data_lifecycle v old = reader_data_lifecycle_from_c infinity v old
from_c infinity writer_data_lifecycle v old = writer_data_lifecycle_from_c v old
from_c infinity writer_batching v old = writer_batching_from_c v old
from_c infinity data_representation v old = data_representation_from_c v old
from_c infinity type_consistency v old = type_consistency_from_c v old
from_c infinity psmx_instances v old = psmx_instances_from_c v old
from_c infinity ignore_local v old = ignore_local_from_c v old
from_c infinity entity_name v old = entity_name_from_c v old
from_c infinity entity_factory v old = entity_factory_from_c v old

-- set_iso_policy where the C library has no value.
unfoldable pub without_value : (p : Policy) → Delegate p → Delegate p
without_value data_representation old = []
without_value entity_factory old = true
without_value _ old = old

-- set_iso_policy of what dds_qget_... gives.
unfoldable pub from_option : ℕ → (p : Policy) → Option (Value p) → Delegate p → Result (Delegate p)
unfolding from_c without_value
from_option infinity p none old = ok (without_value p old)
from_option infinity p (some v) old = from_c infinity p v old
