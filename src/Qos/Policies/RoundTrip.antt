-- ===== src/Qos/Policies/RoundTrip.antt =====
-- What a delegate gives to the C library is what a delegate gets from it.
pub mod Sequences
pub mod Enumerations
use cyclonedds_cxx.Common.{
  ℕ, ◌<◌, ◌≤◌, ◌≡◌, ◌≢◌, ◌⊎◌, inl, inr, length, List, [], ◌∷◌, Option, some, none, refl, arith, ap,
  sym, subst, true,
}
use cyclonedds_cxx.Common.Int.{ℤ}
use cyclonedds_cxx.Time.Result.{Result, ok, ◌>>=◌}
use cyclonedds_cxx.Time.Duration.{Duration}
use cyclonedds_cxx.Qos.Kinds.{
  DurabilityKind, volatile, transient_local, transient, persistent, DdsDurability,
  dds_durability_volatile, dds_durability_transient_local, dds_durability_transient,
  dds_durability_persistent, dds_durability_other, HistoryKind, keep_last, keep_all, DdsHistory,
  dds_history_keep_last, dds_history_keep_all, dds_history_other, DestinationOrderKind,
  by_reception_timestamp, by_source_timestamp, DdsDestinationOrder,
  dds_destinationorder_by_reception_timestamp, dds_destinationorder_by_source_timestamp,
  dds_destinationorder_other, LivelinessKind, automatic, manual_by_participant, manual_by_topic,
  DdsLiveliness, dds_liveliness_automatic, dds_liveliness_manual_by_participant,
  dds_liveliness_manual_by_topic, dds_liveliness_other, OwnershipKind, shared, exclusive,
  DdsOwnership, dds_ownership_shared, dds_ownership_exclusive, dds_ownership_other,
  PresentationAccessScopeKind, access_instance, access_topic, access_group, DdsPresentation,
  dds_presentation_instance, dds_presentation_topic, dds_presentation_group, dds_presentation_other,
  ReliabilityKind, best_effort, reliable, DdsReliability, dds_reliability_best_effort,
  dds_reliability_reliable, dds_reliability_other, IgnoreLocalKind, ignore_none, ignore_participant,
  ignore_process, DdsIgnoreLocal, dds_ignorelocal_none, dds_ignorelocal_participant,
  dds_ignorelocal_process, dds_ignorelocal_other, TypeConsistencyKind, disallow_type_coercion,
  allow_type_coercion, DdsTypeConsistency, dds_type_consistency_disallow_type_coercion,
  dds_type_consistency_allow_type_coercion, dds_type_consistency_other, DataRepresentationId, xcdr1,
  xml, xcdr2, DdsDataRepresentation, dds_data_representation_xcdr1, dds_data_representation_xml,
  dds_data_representation_xcdr2, dds_data_representation_other,
}
use cyclonedds_cxx.Qos.Conversions.{c_string, to_byte_array, from_duration, to_duration}
use cyclonedds_cxx.Qos.Conversions.RoundTrip.{IsDuration, IsInfinity, to_duration-from_duration}
use cyclonedds_cxx.Qos.Policies.{
  Policy, user_data, topic_data, group_data, durability, durability_service, deadline,
  latency_budget, lifespan, time_based_filter, liveliness, reliability, destination_order, history,
  resource_limits, transport_priority, ownership, ownership_strength, presentation, partition,
  reader_data_lifecycle, writer_data_lifecycle, writer_batching, data_representation,
  type_consistency, psmx_instances, ignore_local, entity_name, entity_factory, DurabilityService,
  Liveliness, Reliability, History, ResourceLimits, Presentation, ReaderDataLifecycle,
  TypeConsistencyEnforcement, Text, Delegate, Value,
}
use cyclonedds_cxx.Qos.Policies.ToC.{to_c_strings, to_c_bytes, to_c_duration, to_c}
use cyclonedds_cxx.Qos.Policies.KindsToC.{
  to_dds_durability, to_dds_destination_order, to_dds_history, to_dds_liveliness, to_dds_ownership,
  to_dds_presentation, to_dds_reliability, to_dds_ignore_local, to_dds_type_consistency,
  to_dds_data_representation, to_dds_representations,
}
use cyclonedds_cxx.Qos.Policies.FromC.{
  of_c_strings, of_psmx_strings, of_c_bytes, with_type_consistency, from_c, from_option,
  without_value,
}
use cyclonedds_cxx.Qos.Policies.KindsFromC.{
  of_dds_durability, of_dds_destination_order, of_dds_history, of_dds_liveliness,
  of_dds_ignore_local, of_dds_ownership, of_dds_presentation, of_dds_reliability,
  of_dds_type_consistency, of_dds_representations,
}
use cyclonedds_cxx.Qos.Policies.RoundTrip.Sequences.{
  IsCText, AreCTexts, c_string_id, of_c_strings-to_c_strings, of_psmx_strings-to_c_strings,
  of_dds_representations-to_dds_representations, length-to_c_strings, bytes_arrive,
  duration_arrives,
}
use cyclonedds_cxx.Qos.Policies.RoundTrip.Enumerations.{
  of_dds_durability-to_dds_durability, of_dds_destination_order-to_dds_destination_order,
  of_dds_history-to_dds_history, of_dds_liveliness-to_dds_liveliness,
  of_dds_ignore_local-to_dds_ignore_local, of_dds_ownership-to_dds_ownership,
  of_dds_presentation-to_dds_presentation, of_dds_reliability-to_dds_reliability,
  of_dds_type_consistency-to_dds_type_consistency,
}
use cyclonedds_cxx.Qos.Library
use cyclonedds_cxx.Qos.Library.{Library, AreDistinct, IsStorable}
use cyclonedds_cxx.Qos.Policies.Transfer.{set_c_policy, set_iso_policy}

-- The bytes of a user, topic or group data and the names of a partition are not empty, since an
-- empty sequence is not set, and a string ends before its first zero.
abbrev pub IsRepresentable : ℕ → (p : Policy) → Delegate p → Type 0
IsRepresentable max_psmx user_data d = (0 < length d) × (length d < 0x8000_0000)
IsRepresentable max_psmx topic_data d = (0 < length d) × (length d < 0x8000_0000)
IsRepresentable max_psmx group_data d = (0 < length d) × (length d < 0x8000_0000)
IsRepresentable max_psmx durability_service d = IsDuration d.cleanup_delay
IsRepresentable max_psmx deadline d = IsDuration d
IsRepresentable max_psmx latency_budget d = IsDuration d
IsRepresentable max_psmx lifespan d = IsDuration d
IsRepresentable max_psmx time_based_filter d = IsDuration d
IsRepresentable max_psmx liveliness d = IsDuration d.lease_duration
IsRepresentable max_psmx reliability d = IsDuration d.max_blocking_time
IsRepresentable max_psmx partition d = (0 < length d) × AreCTexts d
IsRepresentable max_psmx reader_data_lifecycle d =
    IsDuration d.autopurge_nowriter_samples_delay × IsDuration d.autopurge_disposed_samples_delay
IsRepresentable max_psmx data_representation d =
    (0 < length d) × AreDistinct (to_dds_representations d)
IsRepresentable max_psmx psmx_instances d = (length d ≤ max_psmx) × AreCTexts d
IsRepresentable max_psmx entity_name d = IsCText d
IsRepresentable max_psmx entity_factory d = d ≡ true
IsRepresentable max_psmx _ d = Unit {0}

-- A value that the C library can hold, from which any delegate becomes the one that gave it; or
-- no value, where the delegate does not depend on one.
abbrev pub Arrives : ℕ → ℕ → (p : Policy) → Delegate p → Type 0
Arrives infinity max_psmx p d =
    ((v : Value p) × (to_c infinity p d ≡ ok (some v))
      × IsStorable max_psmx p v
      × ((old : Delegate p) → from_c infinity p v old ≡ ok d))
    ⊎ ((p ≡ entity_factory)
        × (to_c infinity p d ≡ ok none)
        × ((v : Option (Value p)) (old : Delegate p) → from_option infinity p v old ≡ ok d))

pub arrives :
    (infinity max_psmx : ℕ) (p : Policy) (d : Delegate p)
    → IsInfinity infinity
    → IsRepresentable max_psmx p d
    → Arrives infinity max_psmx p d
unfolding to_c from_c from_option with_type_consistency
arrives infinity m user_data d far h = inl (d, (bytes_arrive d h).0, tt, (bytes_arrive d h).1)
arrives infinity m topic_data d far h = inl (d, (bytes_arrive d h).0, tt, (bytes_arrive d h).1)
arrives infinity m group_data d far h = inl (d, (bytes_arrive d h).0, tt, (bytes_arrive d h).1)
arrives infinity m durability d far h =
    inl (to_dds_durability d, refl, tt, λ old. of_dds_durability-to_dds_durability d)
arrives infinity m durability_service d far h =
    let (z, e, e') = to_duration-from_duration infinity d.cleanup_delay far h in
    inl (
      (
        z,
        to_dds_history d.history_kind,
        d.history_depth,
        d.max_samples,
        d.max_instances,
        d.max_samples_per_instance,
      ),
      rw e,
      tt,
      λ old. rw (e', of_dds_history-to_dds_history d.history_kind),
    )
arrives infinity m deadline d far h =
    let (z, e, e') = duration_arrives infinity d far h in inl (z, e, tt, λ old. e')
arrives infinity m latency_budget d far h =
    let (z, e, e') = duration_arrives infinity d far h in inl (z, e, tt, λ old. e')
arrives infinity m lifespan d far h =
    let (z, e, e') = duration_arrives infinity d far h in inl (z, e, tt, λ old. e')
arrives infinity m time_based_filter d far h =
    let (z, e, e') = duration_arrives infinity d far h in inl (z, e, tt, λ old. e')
arrives infinity m liveliness d far h =
    let (z, e, e') = to_duration-from_duration infinity d.lease_duration far h in
    inl (
      (to_dds_liveliness d.kind, z),
      rw e,
      tt,
      λ old. rw (of_dds_liveliness-to_dds_liveliness d.kind, e'),
    )
arrives infinity m reliability d far h =
    let (z, e, e') = to_duration-from_duration infinity d.max_blocking_time far h in
    inl (
      (to_dds_reliability d.kind, z),
      rw e,
      tt,
      λ old. rw (e', of_dds_reliability-to_dds_reliability d.kind old.kind),
    )
arrives infinity m destination_order d far h = inl (
  to_dds_destination_order d,
  refl,
  tt,
  λ old. of_dds_destination_order-to_dds_destination_order d,
)
arrives infinity m history d far h =
    inl
      ((to_dds_history d.kind, d.depth), refl, tt, λ old. rw (of_dds_history-to_dds_history d.kind))
arrives infinity m resource_limits d far h =
    inl ((d.max_samples, d.max_instances, d.max_samples_per_instance), refl, tt, λ old. refl)
arrives infinity m transport_priority d far h = inl (d, refl, tt, λ old. refl)
arrives infinity m ownership d far h =
    inl (to_dds_ownership d, refl, tt, λ old. ap ok (of_dds_ownership-to_dds_ownership d old))
arrives infinity m ownership_strength d far h = inl (d, refl, tt, λ old. refl)
arrives infinity m presentation d far h = inl (
  (to_dds_presentation d.access_scope, d.coherent_access, d.ordered_access),
  refl,
  tt,
  λ old. rw (of_dds_presentation-to_dds_presentation d.access_scope old.access_scope),
)
arrives infinity m partition [] far h = absurd (omega (arith, h.0))
arrives infinity m partition (t ∷ ts) far h = inl (
  to_c_strings (t ∷ ts),
  refl,
  tt,
  λ old. unfold to_c_strings in ap ok (of_c_strings-to_c_strings (t ∷ ts) h.1),
)
arrives infinity m reader_data_lifecycle d far (h, h') =
    let (z, e, e') = to_duration-from_duration infinity d.autopurge_nowriter_samples_delay far h in
    let (w, f, f') = to_duration-from_duration infinity d.autopurge_disposed_samples_delay far h' in
    inl ((z, w), rw (e, f), tt, λ old. rw (e', f'))
arrives infinity m writer_data_lifecycle d far h = inl (d, refl, tt, λ old. refl)
arrives infinity m writer_batching d far h = inl (d, refl, tt, λ old. refl)
arrives infinity m data_representation [] far h = absurd (omega (arith, h.0))
arrives infinity m data_representation (v ∷ vs) far h = inl (
  to_dds_representations (v ∷ vs),
  refl,
  h.1,
  λ old. ap ok (of_dds_representations-to_dds_representations (v ∷ vs)),
)
arrives infinity m type_consistency d far h = inl (
  (
    to_dds_type_consistency d.kind,
    d.ignore_sequence_bounds,
    d.ignore_string_bounds,
    d.ignore_member_names,
    d.prevent_type_widening,
    d.force_type_validation,
  ),
  refl,
  tt,
  λ old. rw (of_dds_type_consistency-to_dds_type_consistency d.kind),
)
arrives infinity m psmx_instances d far h = inl (
  to_c_strings d,
  refl,
  subst (λ n. n ≤ m) (sym (length-to_c_strings d)) h.0,
  λ old. of_psmx_strings-to_c_strings d h.1,
)
arrives infinity m ignore_local d far h =
    inl (to_dds_ignore_local d, refl, tt, λ old. of_dds_ignore_local-to_dds_ignore_local d)
arrives infinity m entity_name d far h = inl (some d, rw (c_string_id d h), tt, λ old. refl)
arrives infinity m entity_factory d far h =
    inr (refl, refl, elim [ none ↦ λ old. rw h | some v ↦ λ old. rw h ])

-- What set_c_policy of a delegate puts into a dds_qos_t, set_iso_policy of any delegate takes
-- from it, where the C library can represent the value; set_iso_policy of any other policy gets
-- from it what it got before.
pub set_iso_policy-set_c_policy :
    (lib : Library) (p : Policy) (d : Delegate p) (q : lib.Qos)
    → IsRepresentable lib.max_psmx p d
    → (q' : lib.Qos) × (set_c_policy lib p d q ≡ ok q')
      × ((old : Delegate p) → set_iso_policy lib p q' old ≡ ok d)
      × ((p' : Policy) (old : Delegate p')
          → p ≢ p'
          → set_iso_policy lib p' q' old ≡ set_iso_policy lib p' q old)
unfolding set_c_policy set_iso_policy
set_iso_policy-set_c_policy lib p d q h =
    elim (arrives lib.infinity lib.max_psmx p d lib.infinity_far h) [
      | inl r ↦
          let (v, e, s, e') = r in
          (
            lib.qset p v q,
            rw e,
            λ old. unfold from_option in rw (lib.qget-qset p v q s) (e' old),
            λ p' old ne. rw (lib.qget-qset_other p p' v q ne),
          )
      | inr r ↦ (q, rw r.1, λ old. r.2 (lib.qget p q) old, λ p' old ne. refl)
    ]
