-- ===== src/Qos/Sets/Assign.antt =====
-- What a reader or writer takes from a topic.
use cyclonedds_cxx.Common.{
  ℕ, true, false, List, [], ◌∷◌, ◌≡◌, ◌≢◌, ◌⊎◌, inl, inr, refl, sym, ap, subst, ◌∙◌, arith,
  Bool-cases,
}
use cyclonedds_cxx.Time.Result.{ok}
use cyclonedds_cxx.Qos.Policies.{Policy}
use cyclonedds_cxx.Qos.Policies.Bounds.{IsValid, check_iff}
use cyclonedds_cxx.Qos.Library.{IsIn, AreDistinct, IsAbsent}
use cyclonedds_cxx.Qos.Sets.{
  Policy-discrete, QosSet, add_present, with_value, set_policy, reader_from_topic,
  writer_from_topic, assign,
}
use cyclonedds_cxx.Qos.Sets.Sending.{true_ne_false}
use mathlib.Mathlib.Logic.Function.Basic.{update_self, update_of_ne}

-- The flag and the value of a policy are those of another set.
abbrev pub IsTaken : QosSet → QosSet → Policy → Type 0
IsTaken from s p = (s.present p ≡ from.present p) × (s.values p ≡ from.values p)

IsTaken-trans : (a b c : QosSet) (p : Policy) → IsTaken a b p → IsTaken b c p → IsTaken a c p
IsTaken-trans a b c p (e, f) (e', f') = (e' ∙ e, f' ∙ f)

one_assigned :
    (max_psmx : ℕ) (p : Policy) (from s : QosSet)
    → IsValid max_psmx p (from.values p)
    → from.present p ≡ true
    → (s' : QosSet) × (set_policy max_psmx p (from.values p) s ≡ ok s')
      × IsTaken from s' p
      × ((p' : Policy) → p' ≢ p → IsTaken s s' p')
unfolding set_policy
one_assigned max_psmx p from s h on = (
  with_value p (from.values p) (add_present p s),
  rw ((check_iff max_psmx p (from.values p)).1 h),
  (
    update_self Policy-discrete p true s.present ∙ sym on,
    update_self Policy-discrete p (from.values p) s.values,
  ),
  λ p' ne. (
    update_of_ne Policy-discrete ne true s.present,
    update_of_ne Policy-discrete ne (from.values p) s.values,
  ),
)

-- Assigning a topic's set, whose values are within their bounds where their flags are set, to the
-- set of a reader or writer succeeds: of the policies that are taken over it has the topic's flag
-- and value where the topic's flag is set, and every other flag and value is as it was.
pub assign_takes :
    (max_psmx : ℕ) (ps : List Policy) (tqos s : QosSet)
    → AreDistinct ps
    → ((p : Policy) → IsIn p ps → tqos.present p ≡ true → IsValid max_psmx p (tqos.values p))
    → (s' : QosSet) × (assign max_psmx ps tqos s ≡ ok s')
      × ((p : Policy) → IsIn p ps → tqos.present p ≡ true → IsTaken tqos s' p)
      × ((p : Policy) → IsAbsent p ps ⊎ (tqos.present p ≡ false) → IsTaken s s' p)
unfolding assign
assign_takes max_psmx [] tqos s distinct valid = (s, refl, λ p i. absurd i, λ p o. (refl, refl))
assign_takes max_psmx (p ∷ ps) tqos s (absent, distinct) valid =
    elim (Bool-cases (tqos.present p)) [
      | inl on ↦
          let (s₁, e, taken, kept) = one_assigned max_psmx p tqos s (valid p (inl refl) on) on in
          let (s', e', f, u) =
            assign_takes max_psmx ps tqos s₁ distinct (λ p' i. valid p' (inr i)) in
          (
            s',
            rw (on, e) e',
            λ p' i on'. elim i [
              | inl eq ↦
                  subst (IsTaken tqos s') (sym eq)
                    (IsTaken-trans tqos s₁ s' p taken (u p (inl absent)))
              | inr i' ↦ f p' i' on'
            ],
            λ p' o. elim o [
              | inl (ne, rest) ↦ IsTaken-trans s s₁ s' p' (kept p' ne) (u p' (inl rest))
              | inr off ↦
                  IsTaken-trans s s₁ s' p'
                    (kept p' (λ eq. true_ne_false (sym on ∙ ap tqos.present (sym eq) ∙ off)))
                    (u p' (inr off))
            ],
          )
      | inr off ↦
          let (s', e', f, u) =
            assign_takes max_psmx ps tqos s distinct (λ p' i. valid p' (inr i)) in
          (
            s',
            rw off e',
            λ p' i on'. elim i [
              | inl eq ↦ absurd (true_ne_false (sym on' ∙ ap tqos.present eq ∙ off))
              | inr i' ↦ f p' i' on'
            ],
            λ p' o. elim o [ inl (ne, rest) ↦ u p' (inl rest) | inr off' ↦ u p' (inr off') ],
          )
    ]

pub reader_from_topic-AreDistinct : AreDistinct reader_from_topic
reader_from_topic-AreDistinct = ground arith

pub writer_from_topic-AreDistinct : AreDistinct writer_from_topic
writer_from_topic-AreDistinct = ground arith
