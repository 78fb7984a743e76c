-- ===== src/Qos/Entities/Runs.antt =====
-- The theorem on the sets of readers, writers and participants at a concrete input.
use cyclonedds_cxx.Common.{
  ℕ, ◌≡◌, ◌≢◌, Bool, true, false, ◌||◌, List, [], ◌∷◌, Option, some, none, refl, sym, ap, arith,
}
use cyclonedds_cxx.Time.Result.{ok}
use cyclonedds_cxx.Qos.Policies.{Policy, Value, Delegate, Text, user_data, entity_factory}
use cyclonedds_cxx.Qos.Policies.RoundTrip.{IsRepresentable}
use cyclonedds_cxx.Qos.Library.{IsIn, Library}
use cyclonedds_cxx.Qos.Sets.{QosSet, reader_from_topic, writer_from_topic, assign}
use cyclonedds_cxx.Qos.Sets.Sending.{true_ne_false}
use cyclonedds_cxx.Qos.Properties.{PropertyKind, textual, binary, no_properties, Text-discrete}
use cyclonedds_cxx.Qos.Properties.View.{IsWellFormed}
use cyclonedds_cxx.Qos.Properties.Calls.{PropertyCalls}
use cyclonedds_cxx.Qos.Properties.Runs.{
  Entries, given, keeping_properties, two_properties, two_properties-IsWellFormed,
  two_properties-AreSendable, nothing_found,
}
use cyclonedds_cxx.Qos.Properties.Sending.{AreSendable}
use cyclonedds_cxx.Qos.Entities.{
  EntityLibrary, EntityQos, participant_policies, participant_received, entity_to_ddsc,
  entity_from_ddsc,
}
use cyclonedds_cxx.Qos.Entities.Factory.{without_factory}
use cyclonedds_cxx.Qos.Entities.FromTopic.{CommonAreTaken, assign_takes_common}
use cyclonedds_cxx.Qos.Entities.Members.{
  of_participant, participant_members, reader_members, writer_members, members_come_back,
}
use cyclonedds_cxx.Qos.Entities.RoundTrip.{IsCopied, ListsAreCopied}
use cyclonedds_cxx.Qos.Runs.{
  keeping_policies, is_some, topic_set, topic_set-IsValid, sample_value, other_set,
}
use mathlib.Core.List.{lookup}

abbrev Both : Type 0
Both = ((p : Policy) → Option (Value p)) × (PropertyKind → Entries)

abbrev holds : Option Both → Policy → Bool
holds none p = false
holds (some q) p = is_some (q.0 p)

abbrev any : Entries → Bool
any [] = false
any (e ∷ l) = true

abbrev any_property : (PropertyKind → Entries) → Bool
any_property q = any (q textual) || any (q binary)

abbrev holds_property : Option Both → Bool
holds_property none = false
holds_property (some q) = any_property q.1

none_in : (n : Text) (l : Entries) → any l ≡ false → given (lookup Text-discrete n l) ≡ none
none_in n [] h = ap given (nothing_found n)
none_in n (e ∷ l) h = absurd (true_ne_false h)

none_of_kind :
    (q : PropertyKind → Entries) (k : PropertyKind) (n : Text)
    → any_property q ≡ false
    → given (lookup Text-discrete n (q k)) ≡ none
none_of_kind q textual n h = none_in n (q textual) (ground arith)
none_of_kind q binary n h = none_in n (q binary) (ground arith)

abbrev both_policies : Library
both_policies = record {
  Qos = Both;
  infinity = keeping_policies.infinity;
  max_psmx = keeping_policies.max_psmx;
  create = some (λ p. none, λ k. []);
  present = λ q p. is_some (q.0 p);
  qset = λ p v q. (keeping_policies.qset p v q.0, q.1);
  qget = λ p q. q.0 p;
  infinity_far = keeping_policies.infinity_far;
  qget-qset = λ p v q s. keeping_policies.qget-qset p v q.0 s;
  qget-qset_other = λ p p' v q ne. keeping_policies.qget-qset_other p p' v q.0 ne;
  present-create = λ q p made. sym (ap (λ o. holds o p) made);
  present-qset = λ p v q s. keeping_policies.present-qset p v q.0 s;
  present-qset_other = λ p p' v q ne. keeping_policies.present-qset_other p p' v q.0 ne;
}

abbrev both_properties : PropertyCalls Both
both_properties = record {
  names = λ k q. keeping_properties.names k q.1;
  qset_prop = λ k n v b q. (q.0, keeping_properties.qset_prop k n v b q.1);
  qget_prop = λ k n q. keeping_properties.qget_prop k n q.1;
  named = λ k q ns n e. keeping_properties.named k q.1 ns n e;
  unnamed = λ k q n e. keeping_properties.unnamed k q.1 n e;
  qget_prop-qset_prop = λ k n v b q s. keeping_properties.qget_prop-qset_prop k n v b q.1 s;
  qget_prop-qset_prop_other =
      λ k k' n n' v b q o. keeping_properties.qget_prop-qset_prop_other k k' n n' v b q.1 o;
}

-- A dds_qos_t with policies and properties.
abbrev keeping_both : EntityLibrary
keeping_both = record {
  lib = both_policies;
  calls = both_properties;
  has_properties = λ q. any_property q.1;
  without_properties = λ q k n h. none_of_kind q.1 k n h;
  has_properties-create = λ q made. sym (ap holds_property made);
  qget_prop-qset = λ k n p v q. refl;
  qget-qset_prop = λ p k n v b q. refl;
  present-qset_prop = λ p k n v b q. refl;
}

-- The set of a reader with three policies and two properties.
abbrev reader_set : EntityQos
reader_set = record {
  policies = topic_set;
  property_list = true;
  property = two_properties;
  binary_property = no_properties;
}

abbrev other_reader : EntityQos
other_reader = record {
  policies = other_set;
  property_list = false;
  property = no_properties;
  binary_property = no_properties;
}

no_binary-IsWellFormed : IsWellFormed (no_properties {V = List ℕ})
unfolding lookup
no_binary-IsWellFormed = (tt, tt, λ n. refl)

no_binary-AreSendable : AreSendable binary no_properties
unfolding lookup
no_binary-AreSendable n v h = absurd (ground arith)

-- The set of a participant, with user data, a factory that does not enable, and the properties.
abbrev participant_flags : Policy → Bool
participant_flags user_data = true
participant_flags entity_factory = true
participant_flags _ = false

abbrev participant_values : (p : Policy) → Delegate p
participant_values user_data = 7 ∷ []
participant_values entity_factory = false
participant_values p = sample_value p

abbrev participant_set : EntityQos
participant_set = record reader_set {
  policies = record { present = participant_flags; values = participant_values };
}

participant_set-fits :
    (p : Policy)
    → p ≢ entity_factory
    → participant_flags p ≡ true
    → IsRepresentable 8 p (participant_values p)
participant_set-fits user_data ne on = ground arith
participant_set-fits entity_factory ne on = absurd (ne refl)
participant_set-fits _ ne on = absurd (true_ne_false (sym on))

-- A topic's set assigned to that of a reader and of a writer.
assign_takes_common_example :
    ((s' : QosSet) × (assign 8 reader_from_topic topic_set other_set ≡ ok s')
      × CommonAreTaken reader_members topic_set other_set s')
    × ((s' : QosSet) × (assign 8 writer_from_topic topic_set other_set ≡ ok s')
        × CommonAreTaken writer_members topic_set other_set s')
assign_takes_common_example =
    assign_takes_common 8 topic_set other_set (λ p i on. topic_set-IsValid p on)

members_come_back_example :
    (q : Both) × (t' : EntityQos) × (entity_to_ddsc keeping_both participant_policies
        participant_set
      ≡ ok q)
    × (entity_from_ddsc keeping_both participant_received q true other_reader ≡ ok t')
    × ((p : Policy)
        → IsIn p participant_members
        → IsCopied keeping_both (without_factory participant_set.policies) other_set t'.policies p)
    × ((true ≡ true) → ListsAreCopied keeping_both participant_set other_reader t')
members_come_back_example =
    members_come_back keeping_both of_participant participant_set other_reader (λ p. none, λ k. [])
      refl (λ p i ne on. participant_set-fits p ne on)
      (
        two_properties-IsWellFormed, no_binary-IsWellFormed, two_properties-AreSendable,
        no_binary-AreSendable,
      )
