-- ===== src/Qos/Entities/RoundTrip.antt =====
-- The set of a reader, a writer or a participant that goes to the C library comes back.
use cyclonedds_cxx.Common.{
  ◌≡◌, ◌≢◌, inl, inr, true, false, List, [], ◌∷◌, some, none, refl, sym, ap, subst, ◌∙◌, arith,
  Bool-cases, if◌then◌else◌,
}
use cyclonedds_cxx.Time.Result.{ok}
use cyclonedds_cxx.Qos.Policies.{Policy, Delegate, Text, entity_name}
use cyclonedds_cxx.Qos.Policies.Transfer.{set_iso_policy}
use cyclonedds_cxx.Qos.Library.{IsIn, IsAbsent, AreDistinct}
use cyclonedds_cxx.Qos.Sets.{QosSet}
use cyclonedds_cxx.Qos.Sets.Sending.{
  IsSendable, IsDelivered, IsUntouched-trans, IsDelivered-untouched, all_sent,
}
use cyclonedds_cxx.Qos.Sets.Receiving.{all_received}
use cyclonedds_cxx.Qos.Properties.{PropertyKind, textual, binary, no_properties}
use cyclonedds_cxx.Qos.Properties.RoundTrip.{IsTakenOver}
use cyclonedds_cxx.Qos.Entities.{
  EntityLibrary, EntityQos, reader_policies, writer_policies, participant_policies, last_policies,
  entity_to_ddsc, with_flags, entity_from_ddsc,
}
use cyclonedds_cxx.Qos.Entities.Factory.{
  without_factory, without_factory_flag, entity_to_ddsc-without_factory,
}
use cyclonedds_cxx.Qos.Entities.Frames.{policies_keep_properties}
use cyclonedds_cxx.Qos.Entities.Lists.{ListsAreSendable, ListsAreHeld, lists_sent, lists_received}
use mathlib.Core.List.{lookup}

absent_ne : (v p : Policy) (ps : List Policy) → IsAbsent v ps → IsIn p ps → p ≢ v
absent_ne v p [] h i = absurd i
absent_ne v p (w ∷ ws) (ne, h) (inl e) = λ f. ne (sym f ∙ e)
absent_ne v p (w ∷ ws) (ne, h) (inr i) = absent_ne v p ws h i

module _ (full : EntityLibrary) where
  -- What the C library holds of a set.
  abbrev IsSent : List Policy → EntityQos → full.lib.Qos → Type 0
  IsSent ps s q =
      ((p : Policy)
        → IsIn p (entity_name ∷ ps)
        → s.policies.present p ≡ true
        → IsDelivered full.lib s.policies q p)
      × ((p : Policy) → s.policies.present p ≡ false → full.lib.present q p ≡ false)
      × ((s.property_list ≡ true) → ListsAreHeld full s q)
      × ((s.property_list ≡ false)
          → (k : PropertyKind) (n : Text) → full.calls.qget_prop k n q ≡ none)

  entity-IsSent :
      (ps : List Policy) (s : EntityQos) (empty : full.lib.Qos)
      → full.lib.create ≡ some empty
      → AreDistinct ps
      → IsAbsent entity_name ps
      → IsSendable full.lib.max_psmx (entity_name ∷ ps) s.policies
      → ListsAreSendable s
      → (q : full.lib.Qos) × (entity_to_ddsc full ps s ≡ ok q) × IsSent ps s q
  unfolding entity_to_ddsc
  entity-IsSent ps s empty made distinct absent sendable lists =
      let (q₁, e₁, d₁, u₁) =
        all_sent full.lib ps s.policies empty distinct (λ p i. sendable p (inr i)) in
      let fresh : (k : PropertyKind) (n : Text) → full.calls.qget_prop k n q₁ ≡ none = λ k n.
        policies_keep_properties full ps s.policies empty q₁ e₁ k n
        ∙ full.without_properties empty k n (full.has_properties-create empty made) in
      let (q₂, e₂, kept, held, unheld) = lists_sent full s q₁ lists fresh in
      let (q, e₃, d₃, u₃) =
        all_sent full.lib last_policies s.policies q₂ (tt, tt)
          (λ p i. elim i [ inl e ↦ sendable p (inl e) | inr i' ↦ absurd i' ]) in
      let keep : (k : PropertyKind) (n : Text)
          → full.calls.qget_prop k n q ≡ full.calls.qget_prop k n q₂ =
        policies_keep_properties full last_policies s.policies q₂ q e₃ in
      (
        q,
        rw (made, e₁, e₂) e₃,
        (
          λ p i on. elim i [
            | inl e ↦ d₃ p (inl e) on
            | inr i' ↦ IsDelivered-untouched full.lib s.policies (d₁ p i' on) (
                IsUntouched-trans full.lib (kept p)
                  (u₃ p (inl (absent_ne entity_name p ps absent i', tt))))
          ],
          λ p off.
              (u₃ p (inr off)).0
              ∙ (kept p).0
              ∙ (u₁ p (inr off)).0
              ∙ full.lib.present-create empty p made,
          λ on. (λ n. keep textual n ∙ (held on).0 n, λ n. keep binary n ∙ (held on).1 n),
          λ off k n. keep k n ∙ unheld off k n,
        ),
      )

  -- What is held of the property policies that a set sends: nothing where its flag is not set.
  abbrev sent_lists : EntityQos → EntityQos
  sent_lists s =
      if s.property_list
      then s
      else record s { property = no_properties; binary_property = no_properties }

  sent_lists_on : (s : EntityQos) → s.property_list ≡ true → sent_lists s ≡ s
  sent_lists_on s on = rw on

  sent_lists_held :
      (s : EntityQos) (q : full.lib.Qos)
      → ListsAreSendable s
      → ((s.property_list ≡ true) → ListsAreHeld full s q)
      → ((s.property_list ≡ false)
          → (k : PropertyKind) (n : Text) → full.calls.qget_prop k n q ≡ none)
      → ListsAreSendable (sent_lists s) × ListsAreHeld full (sent_lists s) q
  unfolding lookup
  sent_lists_held s q lists held unheld = elim (Bool-cases s.property_list) [
    | inl on ↦ rw on (lists, held on)
    | inr off ↦ rw off (
      (
        (tt, tt, λ n. refl),
        (tt, tt, λ n. refl),
        λ n v h. absurd (ground arith),
        λ n v h. absurd (ground arith),
      ),
      (unheld off textual, unheld off binary),
    )
  ]

  -- The flag, and the value where the flag is set, are those of one set; elsewhere the value is that
  -- of another.
  abbrev pub IsCopied : QosSet → QosSet → QosSet → Policy → Type 0
  IsCopied s t t' p =
      (t'.present p ≡ s.present p)
      × ((s.present p ≡ true) → t'.values p ≡ s.values p)
      × ((s.present p ≡ false) → t'.values p ≡ t.values p)

  abbrev pub ListsAreCopied : EntityQos → EntityQos → EntityQos → Type 0
  ListsAreCopied s t t' =
      ((n : Text) → IsTakenOver full.calls s.property t.property t'.property n)
      × ((n : Text)
          → IsTakenOver full.calls s.binary_property t.binary_property t'.binary_property n)

  entity_received :
      (ps : List Policy) (s t : EntityQos) (q : full.lib.Qos)
      → AreDistinct ps
      → IsAbsent entity_name ps
      → ListsAreSendable s
      → IsSent ps s q
      → (t' : EntityQos) × (entity_from_ddsc full ps q true t ≡ ok t')
        × ((p : Policy) → IsIn p (entity_name ∷ ps) → IsCopied s.policies t.policies t'.policies p)
        × ((s.property_list ≡ true) → ListsAreCopied s t t')
  unfolding entity_from_ddsc
  entity_received ps s t q distinct absent lists (delivered, undelivered, held, unheld) =
      let present_eq : (p : Policy)
          → IsIn p (entity_name ∷ ps)
          → full.lib.present q p ≡ s.policies.present p =
        λ p i. elim (Bool-cases (s.policies.present p)) [
          | inl on ↦ (delivered p i on).0 ∙ sym on
          | inr off ↦ undelivered p off ∙ sym off
        ] in
      let given : (p : Policy)
          → IsIn p (entity_name ∷ ps)
          → full.lib.present q p ≡ true
          → (old : Delegate p) → set_iso_policy full.lib p q old ≡ ok (s.policies.values p) =
        λ p i on. (delivered p i (sym (present_eq p i) ∙ on)).1 in
      let t₀ = with_flags full q t in
      let (r₁, f₁, same₁, take₁, rest₁) =
        all_received full.lib ps q t₀.policies distinct s.policies.values
          (λ p i. given p (inr i)) in
      let (sendable, held') = sent_lists_held s q lists held unheld in
      let (t₂, f₂, same₂, flag₂, taken, taken') =
        lists_received full (sent_lists s) (record t₀ { policies = r₁ }) q sendable held' in
      let (r₃, f₃, same₃, take₃, rest₃) =
        all_received full.lib last_policies q t₂.policies (tt, tt) s.policies.values
          (λ p i. elim i [ inl e ↦ given p (inl e) | inr i' ↦ absurd i' ]) in
      let values₂ : (p : Policy) → t₂.policies.values p ≡ r₁.values p =
        λ p. ap (λ x. x.values p) same₂ in
      (
        record t₂ { policies = r₃ },
        rw (f₁, f₂, f₃),
        λ p i. (
          ap (λ f. f p) (same₃ ∙ ap (λ x. x.present) same₂ ∙ same₁) ∙ present_eq p i,
          λ on. elim i [
            | inl e ↦ take₃ p (inl e) (present_eq p (inl e) ∙ on)
            | inr i' ↦
                rest₃ p (inl (absent_ne entity_name p ps absent i', tt))
                ∙ values₂ p
                ∙ take₁ p i' (present_eq p (inr i') ∙ on)
          ],
          λ off.
              rest₃ p (inr (present_eq p i ∙ off))
              ∙ values₂ p
              ∙ rest₁ p (inr (present_eq p i ∙ off)),
        ),
        λ on. (
          λ n.
              subst (λ x. IsTakenOver full.calls x.property t.property t₂.property n)
                (sent_lists_on s on) (taken n),
          λ n.
              subst
                (λ x.
                  IsTakenOver full.calls x.binary_property t.binary_property t₂.binary_property n)
                (sent_lists_on s on) (taken' n),
        ),
      )

  -- Where dds_create_qos gives a dds_qos_t, and each policy of the list but the entity factory, the
  -- entity's name and the property policies have values that the C library can hold if their flags
  -- are set, ddsc_qos() returns a dds_qos_t from which ddsc_qos(..., true) of any set of the same
  -- kind succeeds, and gives it the flags of these policies, their values where the flag is set, and
  -- the properties if their flag is set. Of an entity factory whose flag is set neither the flag nor
  -- the value comes back: the flag is then not set, and the value is the one of before.
  pub entity_from_ddsc-entity_to_ddsc :
      (ps : List Policy) (s t : EntityQos) (empty : full.lib.Qos)
      → full.lib.create ≡ some empty
      → AreDistinct ps
      → IsAbsent entity_name ps
      → IsSendable full.lib.max_psmx (entity_name ∷ ps) (without_factory s.policies)
      → ListsAreSendable s
      → (q : full.lib.Qos) × (t' : EntityQos) × (entity_to_ddsc full ps s ≡ ok q)
        × (entity_from_ddsc full ps q true t ≡ ok t')
        × ((p : Policy)
            → IsIn p (entity_name ∷ ps)
            → IsCopied (without_factory s.policies) t.policies t'.policies p)
        × ((s.property_list ≡ true) → ListsAreCopied s t t')
  entity_from_ddsc-entity_to_ddsc ps s t empty made distinct absent sendable lists =
      let (q, e, sent) =
        entity-IsSent ps (without_factory_flag s) empty made distinct absent sendable lists in
      let (t', f, copied, taken) =
        entity_received ps (without_factory_flag s) t q distinct absent lists sent in
      (q, t', entity_to_ddsc-without_factory full ps s ∙ e, f, copied, taken)

pub participant_policies-AreDistinct : AreDistinct participant_policies
participant_policies-AreDistinct = ground arith

pub reader_policies-AreDistinct : AreDistinct reader_policies
reader_policies-AreDistinct = ground arith

pub writer_policies-AreDistinct : AreDistinct writer_policies
writer_policies-AreDistinct = ground arith
