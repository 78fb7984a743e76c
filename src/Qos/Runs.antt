-- ===== src/Qos/Runs.antt =====
-- The theorems on durations, policies and sets at concrete inputs, with a C library that keeps what
-- is set.
use cyclonedds_cxx.Common.{
  Bool, true, false, [], Option, some, none, ◌≡◌, ◌≢◌, ◌↔◌, inl, refl, sym, ap, arith,
}
use cyclonedds_cxx.Common.Int.{pos, negsuc}
use cyclonedds_cxx.Time.Result.{ok}
use cyclonedds_cxx.Time.Duration.{Duration, duration}
use cyclonedds_cxx.Qos.Kinds.{
  transient_local, keep_last, by_reception_timestamp, manual_by_topic, shared, access_instance,
  reliable, ignore_none, disallow_type_coercion,
}
use cyclonedds_cxx.Qos.Policies.{
  Policy, user_data, topic_data, group_data, durability, durability_service, deadline,
  latency_budget, lifespan, time_based_filter, liveliness, reliability, destination_order, history,
  resource_limits, transport_priority, ownership, ownership_strength, presentation, partition,
  reader_data_lifecycle, writer_data_lifecycle, writer_batching, data_representation,
  type_consistency, psmx_instances, ignore_local, entity_name, entity_factory, Liveliness, History,
  Delegate, Value,
}
use cyclonedds_cxx.Qos.Policies.Check.{check}
use cyclonedds_cxx.Qos.Policies.Bounds.{IsValid, check_iff}
use cyclonedds_cxx.Qos.Policies.Transfer.{set_c_policy, set_iso_policy}
use cyclonedds_cxx.Qos.Policies.RoundTrip.{IsRepresentable, set_iso_policy-set_c_policy}
use cyclonedds_cxx.Qos.Library.{IsIn, Library}
use cyclonedds_cxx.Qos.Sets.{
  Policy-discrete, QosSet, topic_policies, check_reader, to_ddsc, from_ddsc,
}
use cyclonedds_cxx.Qos.Sets.Sending.{true_ne_false}
use cyclonedds_cxx.Qos.Sets.RoundTrip.{from_ddsc-to_ddsc, topic_policies-AreDistinct}
use cyclonedds_cxx.Qos.Sets.Bounds.{FitsLimits, IsWithin, check_reader_iff}
use mathlib.Mathlib.Logic.Function.Basic.{update, update_self, update_of_ne}

abbrev pub is_some : {A : Type 0} → Option A → Bool
is_some none = false
is_some (some a) = true

abbrev holds : Option ((p : Policy) → Option (Value p)) → Policy → Bool
holds none p = false
holds (some q) p = is_some (q p)

-- A dds_qos_t as a function.
abbrev pub keeping_policies : Library
keeping_policies = record {
  Qos = (p : Policy) → Option (Value p);
  infinity = 0x7fff_ffff_ffff_ffff;
  max_psmx = 8;
  create = some (λ p. none);
  present = λ q p. is_some (q p);
  qset = λ p v q. update Policy-discrete q p (some v);
  qget = λ p q. q p;
  infinity_far = omega arith;
  qget-qset = λ p v q _. update_self Policy-discrete p (some v) q;
  qget-qset_other = λ p p' v q ne. update_of_ne Policy-discrete (λ e. ne (sym e)) (some v) q;
  present-create = λ q p made. sym (ap (λ o. holds o p) made);
  present-qset = λ p v q _. ap is_some (update_self Policy-discrete p (some v) q);
  present-qset_other =
      λ p p' v q ne. ap is_some (update_of_ne Policy-discrete (λ e. ne (sym e)) (some v) q);
}

abbrev one_second : Duration
one_second = duration (pos 1) 5

abbrev last_three : History
last_three = record { kind = keep_last; depth = pos 3 }

check_iff_example : (check 8 history last_three ≡ ok tt) ↔ IsValid 8 history last_three
check_iff_example = check_iff 8 history last_three

abbrev by_topic : Liveliness
by_topic = record { kind = manual_by_topic; lease_duration = one_second }

set_iso_policy-set_c_policy_example :
    (q' : keeping_policies.Qos) × (set_c_policy keeping_policies liveliness by_topic (λ p. none)
      ≡ ok q')
    × ((old : Liveliness) → set_iso_policy keeping_policies liveliness q' old ≡ ok by_topic)
    × ((p' : Policy) (old : Delegate p')
        → liveliness ≢ p'
        → set_iso_policy keeping_policies p' q' old
          ≡ set_iso_policy keeping_policies p' (λ p. none) old)
set_iso_policy-set_c_policy_example =
    set_iso_policy-set_c_policy keeping_policies liveliness by_topic (λ p. none)
      (1, refl, omega arith, inl (omega arith))

abbrev pub sample_value : (p : Policy) → Delegate p
sample_value user_data = []
sample_value topic_data = []
sample_value group_data = []
sample_value durability = transient_local
sample_value durability_service = record {
  cleanup_delay = one_second;
  history_kind = keep_last;
  history_depth = pos 1;
  max_samples = negsuc 0;
  max_instances = negsuc 0;
  max_samples_per_instance = negsuc 0;
}
sample_value deadline = one_second
sample_value latency_budget = one_second
sample_value lifespan = one_second
sample_value time_based_filter = one_second
sample_value liveliness = by_topic
sample_value reliability = record { kind = reliable; max_blocking_time = one_second }
sample_value destination_order = by_reception_timestamp
sample_value history = last_three
sample_value resource_limits = record {
  max_samples = negsuc 0;
  max_instances = negsuc 0;
  max_samples_per_instance = pos 3;
}
sample_value transport_priority = pos 0
sample_value ownership = shared
sample_value ownership_strength = pos 0
sample_value presentation = record {
  access_scope = access_instance;
  coherent_access = false;
  ordered_access = false;
}
sample_value partition = []
sample_value reader_data_lifecycle = record {
  autopurge_nowriter_samples_delay = one_second;
  autopurge_disposed_samples_delay = one_second;
}
sample_value writer_data_lifecycle = true
sample_value writer_batching = false
sample_value data_representation = []
sample_value type_consistency = record {
  kind = disallow_type_coercion;
  ignore_sequence_bounds = false;
  ignore_string_bounds = false;
  ignore_member_names = false;
  prevent_type_widening = false;
  force_type_validation = false;
}
sample_value psmx_instances = []
sample_value ignore_local = ignore_none
sample_value entity_name = []
sample_value entity_factory = true

abbrev pub some_flags : Policy → Bool
some_flags history = true
some_flags deadline = true
some_flags resource_limits = true
some_flags _ = false

-- The set of a topic with three policies.
abbrev pub topic_set : QosSet
topic_set = record { present = some_flags; values = sample_value }

abbrev pub other_set : QosSet
other_set = record { present = λ p. false; values = sample_value }

topic_set-IsSendable :
    (p : Policy) → some_flags p ≡ true → IsRepresentable 8 p (sample_value p) × (p ≢ entity_factory)
topic_set-IsSendable history e = (tt, ground arith)
topic_set-IsSendable deadline e = ((1, refl, omega arith, inl (omega arith)), ground arith)
topic_set-IsSendable resource_limits e = (tt, ground arith)
topic_set-IsSendable _ e = absurd (true_ne_false (sym e))

from_ddsc-to_ddsc_example :
    (q : keeping_policies.Qos) × (t' : QosSet) × (to_ddsc keeping_policies topic_policies topic_set
      ≡ ok q)
    × (from_ddsc keeping_policies topic_policies q true other_set ≡ ok t')
    × ((p : Policy)
        → IsIn p topic_policies
        → (t'.present p ≡ some_flags p)
          × ((some_flags p ≡ true) → t'.values p ≡ sample_value p)
          × ((some_flags p ≡ false) → t'.values p ≡ sample_value p))
from_ddsc-to_ddsc_example =
    from_ddsc-to_ddsc keeping_policies topic_policies topic_set other_set (λ p. none) refl
      topic_policies-AreDistinct (λ p i on. topic_set-IsSendable p on)

pub topic_set-IsValid : (p : Policy) → some_flags p ≡ true → IsValid 8 p (sample_value p)
topic_set-IsValid history e = ground arith
topic_set-IsValid deadline e = tt
topic_set-IsValid resource_limits e = ground arith
topic_set-IsValid _ e = absurd (true_ne_false (sym e))

check_reader_iff_example : (check_reader topic_set ≡ ok tt) ↔ (
    FitsLimits (sample_value history) (sample_value resource_limits)
    × IsWithin (sample_value time_based_filter) (sample_value deadline))
check_reader_iff_example = check_reader_iff topic_set
