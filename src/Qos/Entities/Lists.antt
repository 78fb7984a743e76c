-- ===== src/Qos/Entities/Lists.antt =====
-- The property policies of an entity's set on their way to the C library and back.
use cyclonedds_cxx.Common.{
  ℕ, ◌≡◌, ◌≢◌, true, false, List, none, refl, sym, ◌∙◌, arith, Bool-cases, inl, inr,
}
use cyclonedds_cxx.Time.Result.{ok}
use cyclonedds_cxx.Qos.Policies.{Policy, Text}
use cyclonedds_cxx.Qos.Sets.Sending.{IsUntouched, IsUntouched-trans, true_ne_false}
use cyclonedds_cxx.Qos.Properties.{PropertyKind, textual, binary, Properties}
use cyclonedds_cxx.Qos.Properties.View.{IsWellFormed}
use cyclonedds_cxx.Qos.Properties.Transfer.{set_c_properties}
use cyclonedds_cxx.Qos.Properties.Sending.{AreSendable}
use cyclonedds_cxx.Qos.Properties.RoundTrip.{
  IsHeld, IsTakenOver, properties_sent, none_received, properties_received,
}
use cyclonedds_cxx.Qos.Entities.{EntityLibrary, EntityQos, set_c_lists, set_iso_lists}
use cyclonedds_cxx.Qos.Entities.Frames.{IsKeptBy, properties_keep_policies}

textual_ne_binary : textual ≢ binary
textual_ne_binary = ground arith

binary_ne_textual : binary ≢ textual
binary_ne_textual = ground arith

-- The C library can hold both property policies of a set.
abbrev pub ListsAreSendable : EntityQos → Type 0
ListsAreSendable s =
    IsWellFormed s.property
    × IsWellFormed s.binary_property
    × AreSendable textual s.property
    × AreSendable binary s.binary_property

module _ (full : EntityLibrary) where
  abbrev pub ListsAreHeld : EntityQos → full.lib.Qos → Type 0
  ListsAreHeld s q =
      ((n : Text) → IsHeld full.calls textual s.property q n)
      × ((n : Text) → IsHeld full.calls binary s.binary_property q n)

  kind_sent :
      (k : PropertyKind) (ps : Properties (List ℕ)) (q : full.lib.Qos)
      → IsWellFormed ps
      → AreSendable k ps
      → ((n : Text) → full.calls.qget_prop k n q ≡ none)
      → (q' : full.lib.Qos) × (set_c_properties full.calls k ps q ≡ ok q')
        × ((n : Text) → IsHeld full.calls k ps q' n)
        × IsKeptBy full k q q'
  unfolding set_c_properties
  kind_sent k ps q wf sendable fresh =
      let (q', e, held) = properties_sent full.calls k ps q wf sendable fresh in
      (q', e, held, properties_keep_policies full k ps.props ps q q' e)

  pub lists_sent :
      (s : EntityQos) (q : full.lib.Qos)
      → ListsAreSendable s
      → ((k : PropertyKind) (n : Text) → full.calls.qget_prop k n q ≡ none)
      → (q' : full.lib.Qos) × (set_c_lists full s q ≡ ok q')
        × ((p : Policy) → IsUntouched full.lib q q' p)
        × ((s.property_list ≡ true) → ListsAreHeld s q')
        × ((s.property_list ≡ false)
            → (k : PropertyKind) (n : Text) → full.calls.qget_prop k n q' ≡ none)
  lists_sent s q (wf, wf', sendable, sendable') fresh = elim (Bool-cases s.property_list) [
    | inl on ↦
        let (r, e, held, (kept, others)) =
          kind_sent textual s.property q wf sendable (fresh textual) in
        let (q', e', held', (kept', others')) =
          kind_sent binary s.binary_property r wf' sendable'
            (λ n. others binary n textual_ne_binary ∙ fresh binary n) in
        (
          q',
          rw (on, e) e',
          λ p. IsUntouched-trans full.lib (kept p) (kept' p),
          λ _. (λ n. others' textual n binary_ne_textual ∙ held n, held'),
          λ off. absurd (true_ne_false (sym on ∙ off)),
        )
    | inr off ↦ (
      q,
      rw off,
      λ p. (refl, λ old. refl),
      λ on. absurd (true_ne_false (sym on ∙ off)),
      λ _. fresh,
    )
  ]

  -- With the policies of the set as they were.
  pub lists_received :
      (s t : EntityQos) (q : full.lib.Qos)
      → ListsAreSendable s
      → ListsAreHeld s q
      → (t' : EntityQos) × (set_iso_lists full q t ≡ ok t')
        × (t'.policies ≡ t.policies)
        × (t'.property_list ≡ t.property_list)
        × ((n : Text) → IsTakenOver full.calls s.property t.property t'.property n)
        × ((n : Text)
            → IsTakenOver full.calls s.binary_property t.binary_property t'.binary_property n)
  lists_received s t q (wf, wf', sendable, sendable') (held, held') =
      elim (Bool-cases (full.has_properties q)) [
        | inl on ↦
            let (p, e, taken) =
              properties_received full.calls textual s.property t.property q wf sendable held in
            let (b, e', taken') =
              properties_received full.calls binary s.binary_property t.binary_property q wf'
                sendable' held' in
            (
              record t { property = p; binary_property = b },
              rw (on, e, e'),
              refl,
              refl,
              taken,
              taken',
            )
        | inr off ↦ (
          t,
          rw off,
          refl,
          refl,
          none_received full.calls textual s.property t.property q wf held
              (λ n. full.without_properties q textual n off),
          none_received full.calls binary s.binary_property t.binary_property q wf' held'
              (λ n. full.without_properties q binary n off),
        )
      ]
