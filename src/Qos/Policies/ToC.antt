-- ===== src/Qos/Policies/ToC.antt =====
-- What the functions set_c_policy of the delegates give to the C library (PolicyDelegate.cpp).
use cyclonedds_cxx.Common.{ℕ, List, [], ◌∷◌, Option, some, none}
use cyclonedds_cxx.Common.Int.{ℤ}
use cyclonedds_cxx.Time.Result.{Result, ok, ◌>>=◌}
use cyclonedds_cxx.Time.Duration.{Duration}
use cyclonedds_cxx.Qos.Conversions.{from_duration, to_byte_array, c_string}
use cyclonedds_cxx.Qos.Policies.KindsToC.{
  to_dds_durability, to_dds_destination_order, to_dds_history, to_dds_liveliness, to_dds_ownership,
  to_dds_presentation, to_dds_reliability, to_dds_ignore_local, to_dds_type_consistency,
  to_dds_representations,
}
use cyclonedds_cxx.Qos.Policies.{
  Policy, user_data, topic_data, group_data, durability, durability_service, deadline,
  latency_budget, lifespan, time_based_filter, liveliness, reliability, destination_order, history,
  resource_limits, transport_priority, ownership, ownership_strength, presentation, partition,
  reader_data_lifecycle, writer_data_lifecycle, writer_batching, data_representation,
  type_consistency, psmx_instances, ignore_local, entity_name, entity_factory, Text, Delegate,
  Value,
}

-- convertStringSeq to C strings, which the C library reads up to the first zero.
unfoldable pub to_c_strings : List Text → List (Option Text)
unfolding c_string
to_c_strings [] = []
to_c_strings (t ∷ ts) = some (c_string t) ∷ to_c_strings ts

-- The bytes of a user, topic or group data; an empty sequence is not set.
unfoldable pub to_c_bytes : List ℕ → Result (Option (List ℕ))
unfolding to_byte_array
to_c_bytes [] = ok none
to_c_bytes (b ∷ bs) = to_byte_array (b ∷ bs) >>= λ a. ok (some a)

-- The value of a duration.
unfoldable pub to_c_duration : ℕ → Duration → Result (Option ℤ)
unfolding from_duration
to_c_duration infinity d = from_duration infinity d >>= λ z. ok (some z)

-- set_c_policy of each delegate: the value that it sets, or none where it sets nothing.
abbrev pub user_data_to_c : Delegate user_data → Result (Option (Value user_data))
user_data_to_c d = to_c_bytes d

abbrev pub topic_data_to_c : Delegate topic_data → Result (Option (Value topic_data))
topic_data_to_c d = to_c_bytes d

abbrev pub group_data_to_c : Delegate group_data → Result (Option (Value group_data))
group_data_to_c d = to_c_bytes d

abbrev pub durability_to_c : Delegate durability → Result (Option (Value durability))
durability_to_c d = ok (some (to_dds_durability d))

abbrev pub durability_service_to_c :
    ℕ → Delegate durability_service → Result (Option (Value durability_service))
durability_service_to_c infinity d = from_duration infinity d.cleanup_delay >>= λ delay. ok (
    some (
      delay,
      to_dds_history d.history_kind,
      d.history_depth,
      d.max_samples,
      d.max_instances,
      d.max_samples_per_instance,
    ))

abbrev pub deadline_to_c : ℕ → Delegate deadline → Result (Option (Value deadline))
deadline_to_c infinity d = to_c_duration infinity d

abbrev pub latency_budget_to_c :
    ℕ → Delegate latency_budget → Result (Option (Value latency_budget))
latency_budget_to_c infinity d = to_c_duration infinity d

abbrev pub lifespan_to_c : ℕ → Delegate lifespan → Result (Option (Value lifespan))
lifespan_to_c infinity d = to_c_duration infinity d

abbrev pub time_based_filter_to_c :
    ℕ → Delegate time_based_filter → Result (Option (Value time_based_filter))
time_based_filter_to_c infinity d = to_c_duration infinity d

abbrev pub liveliness_to_c : ℕ → Delegate liveliness → Result (Option (Value liveliness))
liveliness_to_c infinity d =
    from_duration infinity d.lease_duration >>= λ lease. ok (some (to_dds_liveliness d.kind, lease))

abbrev pub reliability_to_c : ℕ → Delegate reliability → Result (Option (Value reliability))
reliability_to_c infinity d = from_duration infinity d.max_blocking_time >>= λ time.
    ok (some (to_dds_reliability d.kind, time))

abbrev pub destination_order_to_c :
    Delegate destination_order → Result (Option (Value destination_order))
destination_order_to_c d = ok (some (to_dds_destination_order d))

abbrev pub history_to_c : Delegate history → Result (Option (Value history))
history_to_c d = ok (some (to_dds_history d.kind, d.depth))

abbrev pub resource_limits_to_c : Delegate resource_limits → Result (Option (Value resource_limits))
resource_limits_to_c d = ok (some (d.max_samples, d.max_instances, d.max_samples_per_instance))

abbrev pub transport_priority_to_c :
    Delegate transport_priority → Result (Option (Value transport_priority))
transport_priority_to_c d = ok (some d)

abbrev pub ownership_to_c : Delegate ownership → Result (Option (Value ownership))
ownership_to_c d = ok (some (to_dds_ownership d))

abbrev pub ownership_strength_to_c :
    Delegate ownership_strength → Result (Option (Value ownership_strength))
ownership_strength_to_c d = ok (some d)

abbrev pub presentation_to_c : Delegate presentation → Result (Option (Value presentation))
presentation_to_c d =
    ok (some (to_dds_presentation d.access_scope, d.coherent_access, d.ordered_access))

abbrev pub partition_to_c : Delegate partition → Result (Option (Value partition))
partition_to_c [] = ok none
partition_to_c (t ∷ ts) = ok (some (to_c_strings (t ∷ ts)))

abbrev pub reader_data_lifecycle_to_c :
    ℕ → Delegate reader_data_lifecycle → Result (Option (Value reader_data_lifecycle))
reader_data_lifecycle_to_c infinity d =
    from_duration infinity d.autopurge_nowriter_samples_delay >>= λ nowriter.
    from_duration infinity d.autopurge_disposed_samples_delay >>= λ disposed.
    ok (some (nowriter, disposed))

abbrev pub writer_data_lifecycle_to_c :
    Delegate writer_data_lifecycle → Result (Option (Value writer_data_lifecycle))
writer_data_lifecycle_to_c d = ok (some d)

abbrev pub writer_batching_to_c : Delegate writer_batching → Result (Option (Value writer_batching))
writer_batching_to_c d = ok (some d)

abbrev pub data_representation_to_c :
    Delegate data_representation → Result (Option (Value data_representation))
data_representation_to_c [] = ok none
data_representation_to_c (v ∷ vs) = ok (some (to_dds_representations (v ∷ vs)))

abbrev pub type_consistency_to_c :
    Delegate type_consistency → Result (Option (Value type_consistency))
type_consistency_to_c d = ok (
    some (
      to_dds_type_consistency d.kind,
      d.ignore_sequence_bounds,
      d.ignore_string_bounds,
      d.ignore_member_names,
      d.prevent_type_widening,
      d.force_type_validation,
    ))

abbrev pub psmx_instances_to_c : Delegate psmx_instances → Result (Option (Value psmx_instances))
psmx_instances_to_c d = ok (some (to_c_strings d))

abbrev pub ignore_local_to_c : Delegate ignore_local → Result (Option (Value ignore_local))
ignore_local_to_c d = ok (some (to_dds_ignore_local d))

abbrev pub entity_name_to_c : Delegate entity_name → Result (Option (Value entity_name))
entity_name_to_c d = ok (some (some (c_string d)))

abbrev pub entity_factory_to_c : Delegate entity_factory → Result (Option (Value entity_factory))
entity_factory_to_c d = ok none

unfoldable pub to_c : ℕ → (p : Policy) → Delegate p → Result (Option (Value p))
to_c infinity user_data d = user_data_to_c d
to_c infinity topic_data d = topic_data_to_c d
to_c infinity group_data d = group_data_to_c d
to_c infinity durability d = durability_to_c d
to_c infinity durability_service d = durability_service_to_c infinity d
to_c infinity deadline d = deadline_to_c infinity d
to_c infinity latency_budget d = latency_budget_to_c infinity d
to_c infinity lifespan d = lifespan_to_c infinity d
to_c infinity time_based_filter d = time_based_filter_to_c infinity d
to_c infinity liveliness d = liveliness_to_c infinity d
to_c infinity reliability d = reliability_to_c infinity d
to_c infinity destination_order d = destination_order_to_c d
to_c infinity history d = history_to_c d
to_c infinity resource_limits d = resource_limits_to_c d
to_c infinity transport_priority d = transport_priority_to_c d
to_c infinity ownership d = ownership_to_c d
to_c infinity ownership_strength d = ownership_strength_to_c d
to_c infinity presentation d = presentation_to_c d
to_c infinity partition d = partition_to_c d
to_c infinity reader_data_lifecycle d = reader_data_lifecycle_to_c infinity d
to_c infinity writer_data_lifecycle d = writer_data_lifecycle_to_c d
to_c infinity writer_batching d = writer_batching_to_c d
to_c infinity data_representation d = data_representation_to_c d
to_c infinity type_consistency d = type_consistency_to_c d
to_c infinity psmx_instances d = psmx_instances_to_c d
to_c infinity ignore_local d = ignore_local_to_c d
to_c infinity entity_name d = entity_name_to_c d
to_c infinity entity_factory d = entity_factory_to_c d
