-- ===== src/Qos/Sets/Sending.antt =====
-- What the C library holds of a set after ddsc_qos().
use cyclonedds_cxx.Common.{
  ℕ, true, false, List, [], ◌∷◌, ◌≡◌, ◌≢◌, ◌⊎◌, inl, inr, refl, sym, ap, subst, ◌∙◌, arith,
  Bool-cases,
}
use cyclonedds_cxx.Time.Result.{ok}
use cyclonedds_cxx.Qos.Policies.{Policy, Delegate, entity_factory}
use cyclonedds_cxx.Qos.Policies.FromC.{from_option}
use cyclonedds_cxx.Qos.Policies.Transfer.{set_c_policy, set_iso_policy}
use cyclonedds_cxx.Qos.Policies.RoundTrip.{IsRepresentable, arrives}
use cyclonedds_cxx.Qos.Library.{IsIn, Library, AreDistinct, IsAbsent}
use cyclonedds_cxx.Qos.Sets.{QosSet, set_c_policies}

-- Every policy of the list whose flag is set has a value that the C library can hold, and is not
-- that of the entity factory, for which the C library has none.
abbrev pub IsSendable : ℕ → List Policy → QosSet → Type 0
IsSendable max_psmx ps s =
    (p : Policy)
    → IsIn p ps
    → s.present p ≡ true
    → IsRepresentable max_psmx p (s.values p) × (p ≢ entity_factory)

pub true_ne_false : true ≢ false
true_ne_false = ground arith

module _ (lib : Library) where
  abbrev pub IsDelivered : QosSet → lib.Qos → Policy → Type 0
  IsDelivered s q p =
      (lib.present q p ≡ true) × ((old : Delegate p) → set_iso_policy lib p q old ≡ ok (s.values p))

  abbrev pub IsUntouched : lib.Qos → lib.Qos → Policy → Type 0
  IsUntouched q q' p =
      (lib.present q' p ≡ lib.present q p)
      × ((old : Delegate p) → set_iso_policy lib p q' old ≡ set_iso_policy lib p q old)

  pub IsUntouched-trans :
      {q q₁ q' : lib.Qos} {p : Policy}
      → IsUntouched q q₁ p
      → IsUntouched q₁ q' p
      → IsUntouched q q' p
  IsUntouched-trans (e, f) (e', f') = (e' ∙ e, λ old. f' old ∙ f old)

  pub IsDelivered-untouched :
      (s : QosSet) {q q' : lib.Qos} {p : Policy}
      → IsDelivered s q p
      → IsUntouched q q' p
      → IsDelivered s q' p
  IsDelivered-untouched s (e, f) (e', f') = (e' ∙ e, λ old. f' old ∙ f old)

  one_sent :
      (s : QosSet) (p : Policy) (q : lib.Qos)
      → IsRepresentable lib.max_psmx p (s.values p) × (p ≢ entity_factory)
      → (q' : lib.Qos) × (set_c_policy lib p (s.values p) q ≡ ok q')
        × IsDelivered s q' p
        × ((p' : Policy) → p' ≢ p → IsUntouched q q' p')
  unfolding set_c_policy set_iso_policy
  one_sent s p q (h, ne) =
      elim (arrives lib.infinity lib.max_psmx p (s.values p) lib.infinity_far h) [
        | inl r ↦
            let (v, e, st, e') = r in
            (
              lib.qset p v q,
              rw e,
              (
                lib.present-qset p v q st,
                λ old. unfold from_option in rw (lib.qget-qset p v q st) (e' old),
              ),
              λ p' n. (
                lib.present-qset_other p p' v q (λ e. n (sym e)),
                λ old. rw (lib.qget-qset_other p p' v q (λ e. n (sym e))),
              ),
            )
        | inr r ↦ absurd (ne r.0)
      ]

  -- With the policies whose flags are set delivered, and all others untouched.
  pub all_sent :
      (ps : List Policy) (s : QosSet) (q : lib.Qos)
      → AreDistinct ps
      → IsSendable lib.max_psmx ps s
      → (q' : lib.Qos) × (set_c_policies lib ps s q ≡ ok q')
        × ((p : Policy) → IsIn p ps → s.present p ≡ true → IsDelivered s q' p)
        × ((p : Policy) → IsAbsent p ps ⊎ (s.present p ≡ false) → IsUntouched q q' p)
  unfolding set_c_policies
  all_sent [] s q distinct sendable = (q, refl, λ p i. absurd i, λ p o. (refl, λ old. refl))
  all_sent (p ∷ ps) s q (absent, distinct) sendable = elim (Bool-cases (s.present p)) [
    | inl on ↦
        let (q₁, e, delivered, untouched) = one_sent s p q (sendable p (inl refl) on) in
        let (q', e', f, u) = all_sent ps s q₁ distinct (λ p' i. sendable p' (inr i)) in
        (
          q',
          rw (on, e) e',
          λ p' i on'. elim i [
            | inl eq ↦
                subst (IsDelivered s q') (sym eq)
                  (IsDelivered-untouched s delivered (u p (inl absent)))
            | inr i' ↦ f p' i' on'
          ],
          λ p' o. elim o [
            | inl (ne, rest) ↦ IsUntouched-trans (untouched p' ne) (u p' (inl rest))
            | inr off ↦
                IsUntouched-trans
                  (untouched p' (λ eq. true_ne_false (sym on ∙ ap s.present (sym eq) ∙ off)))
                  (u p' (inr off))
          ],
        )
    | inr off ↦
        let (q', e', f, u) = all_sent ps s q distinct (λ p' i. sendable p' (inr i)) in
        (
          q',
          rw off e',
          λ p' i on'. elim i [
            | inl eq ↦ absurd (true_ne_false (sym on' ∙ ap s.present eq ∙ off))
            | inr i' ↦ f p' i' on'
          ],
          λ p' o. elim o [ inl (ne, rest) ↦ u p' (inl rest) | inr off' ↦ u p' (inr off') ],
        )
  ]
