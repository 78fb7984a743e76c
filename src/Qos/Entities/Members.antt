-- ===== src/Qos/Entities/Members.antt =====
-- The sets of readers, writers and participants by the members that their classes declare.
use cyclonedds_cxx.Common.{true, false, List, [], ◌∷◌, some, ◌≡◌, ◌≢◌, refl, sym, subst, ◌∙◌, arith}
use cyclonedds_cxx.Time.Result.{ok}
use cyclonedds_cxx.Qos.Policies.{
  Policy, user_data, durability, durability_service, deadline, latency_budget, lifespan,
  time_based_filter, liveliness, reliability, destination_order, history, resource_limits,
  transport_priority, ownership, ownership_strength, reader_data_lifecycle, writer_data_lifecycle,
  writer_batching, data_representation, type_consistency, psmx_instances, ignore_local, entity_name,
  entity_factory,
}
use cyclonedds_cxx.Qos.Policies.RoundTrip.{IsRepresentable}
use cyclonedds_cxx.Qos.Library.{IsIn, IsAbsent, AreDistinct}
use cyclonedds_cxx.Qos.Sets.{Policy-discrete}
use cyclonedds_cxx.Qos.Sets.Sending.{IsSendable, true_ne_false}
use cyclonedds_cxx.Qos.Entities.{
  EntityLibrary, EntityQos, reader_policies, writer_policies, participant_policies, reader_received,
  writer_received, participant_received, entity_to_ddsc, entity_from_ddsc,
}
use cyclonedds_cxx.Qos.Entities.Factory.{without_factory}
use cyclonedds_cxx.Qos.Entities.Lists.{ListsAreSendable}
use cyclonedds_cxx.Qos.Entities.RoundTrip.{
  IsCopied, ListsAreCopied, reader_policies-AreDistinct, writer_policies-AreDistinct,
  participant_policies-AreDistinct, entity_from_ddsc-entity_to_ddsc,
}
use mathlib.Mathlib.Logic.Function.Basic.{update_self, update_of_ne}

pub data EntityKind : Type 0 where
  of_reader of_writer of_participant : EntityKind

-- The members of DataReaderQosDelegate, DataWriterQosDelegate and DomainParticipantQosDelegate that
-- are policies, but for the two of properties.
abbrev pub reader_members : List Policy
reader_members =
    user_data ∷ entity_name ∷ durability ∷ deadline ∷ latency_budget ∷ liveliness ∷ reliability
    ∷ destination_order ∷ history ∷ resource_limits ∷ ownership ∷ time_based_filter
    ∷ reader_data_lifecycle ∷ data_representation ∷ type_consistency ∷ psmx_instances ∷ ignore_local
    ∷ []

abbrev pub writer_members : List Policy
writer_members =
    user_data ∷ entity_name ∷ durability ∷ durability_service ∷ deadline ∷ latency_budget
    ∷ liveliness ∷ reliability ∷ destination_order ∷ history ∷ resource_limits ∷ transport_priority
    ∷ lifespan ∷ ownership ∷ ownership_strength ∷ writer_data_lifecycle ∷ data_representation
    ∷ type_consistency ∷ writer_batching ∷ psmx_instances ∷ ignore_local ∷ []

abbrev pub participant_members : List Policy
participant_members = user_data ∷ entity_name ∷ entity_factory ∷ []

abbrev pub members : EntityKind → List Policy
members of_reader = reader_members
members of_writer = writer_members
members of_participant = participant_members

-- The policies that the two functions ddsc_qos move, but for the name.
abbrev pub moved : EntityKind → List Policy
moved of_reader = reader_policies
moved of_writer = writer_policies
moved of_participant = participant_policies

abbrev pub moved_back : EntityKind → List Policy
moved_back of_reader = reader_received
moved_back of_writer = writer_received
moved_back of_participant = participant_received

moved_back-moved : (kind : EntityKind) → moved_back kind ≡ moved kind
moved_back-moved of_reader = refl
moved_back-moved of_writer = refl
moved_back-moved of_participant = refl

moved-AreDistinct : (kind : EntityKind) → AreDistinct (moved kind)
moved-AreDistinct of_reader = reader_policies-AreDistinct
moved-AreDistinct of_writer = writer_policies-AreDistinct
moved-AreDistinct of_participant = participant_policies-AreDistinct

name-IsAbsent : (kind : EntityKind) → IsAbsent entity_name (moved kind)
name-IsAbsent of_reader = ground arith
name-IsAbsent of_writer = ground arith
name-IsAbsent of_participant = ground arith

members-moved :
    (kind : EntityKind) (p : Policy) → IsIn p (members kind) → IsIn p (entity_name ∷ moved kind)
members-moved of_reader p i = ground arith
members-moved of_writer p i = ground arith
members-moved of_participant p i = ground arith

moved-members :
    (kind : EntityKind) (p : Policy) → IsIn p (entity_name ∷ moved kind) → IsIn p (members kind)
moved-members of_reader p i = ground arith
moved-members of_writer p i = ground arith
moved-members of_participant p i = ground arith

module _ (full : EntityLibrary) where
  without_factory-IsSendable :
      (kind : EntityKind) (s : EntityQos)
      → ((p : Policy)
          → IsIn p (members kind)
          → p ≢ entity_factory
          → s.policies.present p ≡ true
          → IsRepresentable full.lib.max_psmx p (s.policies.values p))
      → IsSendable full.lib.max_psmx (entity_name ∷ moved kind) (without_factory s.policies)
  without_factory-IsSendable kind s fits p i on = elim (Policy-discrete p entity_factory) [
    | yes e ↦ absurd (
        true_ne_false (
          sym (subst (λ x. (without_factory s.policies).present x ≡ true) e on)
          ∙ update_self Policy-discrete entity_factory false s.policies.present))
    | no ne ↦ (
      fits p (moved-members kind p i) ne
          (sym (update_of_ne Policy-discrete ne false s.policies.present) ∙ on),
      ne,
    )
  ]

  -- Where dds_create_qos gives a dds_qos_t, and the members of a reader's, writer's or participant's
  -- set but the entity factory, and its properties, have values that the C library can hold if their
  -- flags are set, ddsc_qos() returns a dds_qos_t from which ddsc_qos(..., true) of any set of the
  -- same kind succeeds, and gives it the flag of each member, its value where the flag is set, and
  -- the properties if their flag is set. Of an entity factory whose flag is set neither the flag nor
  -- the value comes back: the flag is then not set, and the value is the one of before.
  pub members_come_back :
      (kind : EntityKind) (s t : EntityQos) (empty : full.lib.Qos)
      → full.lib.create ≡ some empty
      → ((p : Policy)
          → IsIn p (members kind)
          → p ≢ entity_factory
          → s.policies.present p ≡ true
          → IsRepresentable full.lib.max_psmx p (s.policies.values p))
      → ListsAreSendable s
      → (q : full.lib.Qos) × (t' : EntityQos) × (entity_to_ddsc full (moved kind) s ≡ ok q)
        × (entity_from_ddsc full (moved_back kind) q true t ≡ ok t')
        × ((p : Policy)
            → IsIn p (members kind)
            → IsCopied full (without_factory s.policies) t.policies t'.policies p)
        × ((s.property_list ≡ true) → ListsAreCopied full s t t')
  members_come_back kind s t empty made fits lists =
      let (q, t', e, f, copied, taken) =
        entity_from_ddsc-entity_to_ddsc full (moved kind) s t empty made (moved-AreDistinct kind)
          (name-IsAbsent kind) (without_factory-IsSendable kind s fits) lists in
      (q, t', e, rw (moved_back-moved kind) f, (λ p i. copied p (members-moved kind p i)), taken)
