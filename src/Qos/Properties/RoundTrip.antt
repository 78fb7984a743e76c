-- ===== src/Qos/Properties/RoundTrip.antt =====
-- The properties that a delegate gives to the C library are those that a delegate gets from it.
use cyclonedds_cxx.Common.{
  ℕ, ◌≡◌, inl, inr, List, [], ◌∷◌, Option, some, none, Bool, true, false, refl, sym, ap, ◌∙◌,
  Option-cases,
}
use cyclonedds_cxx.Time.Result.{ok}
use cyclonedds_cxx.Qos.Policies.{Text}
use cyclonedds_cxx.Qos.Library.{IsIn}
use cyclonedds_cxx.Qos.Sets.Sending.{true_ne_false}
use cyclonedds_cxx.Qos.Properties.{PropertyKind, Properties, Text-discrete, set, exists, is_some}
use cyclonedds_cxx.Qos.Properties.View.{IsWellFormed, view, set-Becomes}
use cyclonedds_cxx.Qos.Properties.Calls.{PropertyCalls}
use cyclonedds_cxx.Qos.Properties.Transfer.{set_c_properties, set_iso_names, set_iso_properties}
use mathlib.Core.List.{lookup}
use cyclonedds_cxx.Qos.Properties.Sending.{
  IsRepresentableValue, AreSendable, expected, received-set, has_flag, held_or_not, entries_sent,
}

module _ {Qos : Type 0} (calls : PropertyCalls Qos) where
  -- Where the C library holds for each of the names the property `target`.
  names_received :
      (k : PropertyKind) (ns : List Text) (q : Qos) (old : Properties (List ℕ))
      → (target : Text → Option (List ℕ × Bool))
      → ((n : Text)
          → IsIn n ns
          → (v : List ℕ) × (b : Bool) × (calls.qget_prop k n q ≡ some (some v, b))
            × IsRepresentableValue k v
            × (target n ≡ some (v, b)))
      → (ps' : Properties (List ℕ)) × (set_iso_names calls k ns q old ≡ ok ps')
        × ((n : Text) → view old n ≡ target n → view ps' n ≡ target n)
        × ((n : Text) → IsIn n ns → view ps' n ≡ target n)
        × ((n : Text) → ¬ IsIn n ns → view ps' n ≡ view old n)
  unfolding set_iso_names
  names_received k [] q old target given = (old, refl, λ n h. h, λ n i. absurd i, λ n h. refl)
  names_received k (m ∷ ns) q old target given =
      let (v, b, g, r, t) = given m (inl refl) in
      let (here, others) = set-Becomes old m v b in
      let (ps', s, stays, arrives, rest) =
        names_received k ns q (set m v b old) target (λ n i. given n (inr i)) in
      let at_m : view ps' m ≡ target m = stays m (here ∙ sym t) in
      (
        ps',
        rw (g, received-set k m v b old r) s,
        λ n h. elim (Text-discrete n m) [ yes e ↦ rw e at_m | no ne ↦ stays n (others n ne ∙ h) ],
        λ n i. elim i [ inl e ↦ rw e at_m | inr i' ↦ arrives n i' ],
        λ n h. rest n (λ i. h (inr i)) ∙ others n (λ e. h (inl e)),
      )

  abbrev pub IsHeld : PropertyKind → Properties (List ℕ) → Qos → Text → Type 0
  IsHeld k ps q n =
      calls.qget_prop k n q
      ≡ expected (lookup Text-discrete n ps.props) (lookup Text-discrete n ps.props_to_propagate)
          none

  pub properties_sent :
      (k : PropertyKind) (ps : Properties (List ℕ)) (q : Qos)
      → IsWellFormed ps
      → AreSendable k ps
      → ((n : Text) → calls.qget_prop k n q ≡ none)
      → (q' : Qos) × (set_c_properties calls k ps q ≡ ok q') × ((n : Text) → IsHeld k ps q' n)
  unfolding set_c_properties
  properties_sent k ps q wf sendable fresh =
      let (q', s, g) =
        entries_sent calls k ps.props ps q wf.0
          (λ n v h. ((sendable n v h).0, (sendable n v h).1, has_flag ps n v wf h)) in
      (
        q',
        s,
        λ n.
            g n
            ∙ ap
                (expected (lookup Text-discrete n ps.props)
                  (lookup Text-discrete n ps.props_to_propagate))
                (fresh n),
      )

  -- The properties of one delegate, and beside them those that another had.
  abbrev pub IsTakenOver :
      Properties (List ℕ) → Properties (List ℕ) → Properties (List ℕ) → Text → Type 0
  IsTakenOver ps old ps' n =
      ((exists n ps ≡ true) → view ps' n ≡ view ps n)
      × ((exists n ps ≡ false) → view ps' n ≡ view old n)

  -- A dds_qos_t that has no names has none of the properties.
  pub none_received :
      (k : PropertyKind) (ps old : Properties (List ℕ)) (q : Qos)
      → IsWellFormed ps
      → ((n : Text) → IsHeld k ps q n)
      → ((n : Text) → calls.qget_prop k n q ≡ none)
      → (n : Text) → IsTakenOver ps old old n
  none_received k ps old q wf holds nothing n = elim (held_or_not ps n wf) [
    | inl (v, b, e, w, on, o) ↦ absurd (true_ne_false (ap is_some (sym (holds n ∙ o) ∙ nothing n)))
    | inr (off, o) ↦ (λ on. absurd (true_ne_false (sym on ∙ off)), λ _. refl)
  ]

  pub properties_received :
      (k : PropertyKind) (ps old : Properties (List ℕ)) (q : Qos)
      → IsWellFormed ps
      → AreSendable k ps
      → ((n : Text) → IsHeld k ps q n)
      → (ps' : Properties (List ℕ)) × (set_iso_properties calls k q old ≡ ok ps')
        × ((n : Text) → IsTakenOver ps old ps' n)
  unfolding set_iso_properties
  properties_received k ps old q wf sendable holds = elim (Option-cases (calls.names k q)) [
    | inl nameless ↦
        (old, rw nameless, none_received k ps old q wf holds (λ n. calls.unnamed k q n nameless))
    | inr (ns, found) ↦
        let absent : (n : Text)
            → expected (lookup Text-discrete n ps.props)
                (lookup Text-discrete n ps.props_to_propagate) none
              ≡ none
            → ¬ IsIn n ns =
          λ n o i.
            true_ne_false (sym ((calls.named k q ns n found).0 i) ∙ ap is_some (holds n ∙ o)) in
        let (ps', r, stays, arrives, rest) = names_received k ns q old (view ps) (λ n i.
          elim (held_or_not ps n wf) [
            | inl (v, b, e, w, on, o) ↦ (v, b, holds n ∙ o, (sendable n v e).1, w)
            | inr (off, o) ↦ absurd (absent n o i)
          ]) in
        (
          ps',
          rw found r,
          λ n. elim (held_or_not ps n wf) [
            | inl (v, b, e, w, on, o) ↦ (
              λ _. arrives n ((calls.named k q ns n found).1 (ap is_some (holds n ∙ o))),
              λ off. absurd (true_ne_false (sym on ∙ off)),
            )
            | inr (off, o) ↦ (λ on. absurd (true_ne_false (sym on ∙ off)), λ _. rest n (absent n o))
          ],
        )
  ]

  -- Where both maps of a property delegate have the same unique keys, every name and string ends
  -- before its first zero and every sequence of bytes is neither empty nor too long, set_c_policy
  -- into a dds_qos_t without properties and set_iso_policy of any delegate from it succeed: the
  -- delegate gets every property with its flag, and keeps its own for other names.
  pub set_iso_properties-set_c_properties :
      (k : PropertyKind) (ps old : Properties (List ℕ)) (q : Qos)
      → IsWellFormed ps
      → AreSendable k ps
      → ((n : Text) → calls.qget_prop k n q ≡ none)
      → (q' : Qos) × (ps' : Properties (List ℕ)) × (set_c_properties calls k ps q ≡ ok q')
        × (set_iso_properties calls k q' old ≡ ok ps')
        × ((n : Text) → IsTakenOver ps old ps' n)
  set_iso_properties-set_c_properties k ps old q wf sendable fresh =
      let (q', s, holds) = properties_sent k ps q wf sendable fresh in
      let (ps', r, taken) = properties_received k ps old q' wf sendable holds in
      (q', ps', s, r, taken)
