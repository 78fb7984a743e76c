-- ===== src/Qos/Sets/Receiving.antt =====
-- What a set holds after ddsc_qos(const dds_qos_t*, bool).
use cyclonedds_cxx.Common.{
  true, false, List, [], ◌∷◌, ◌≡◌, ◌⊎◌, inl, inr, refl, sym, ap, subst, ◌∙◌, Bool-cases,
}
use cyclonedds_cxx.Time.Result.{ok}
use cyclonedds_cxx.Qos.Policies.{Policy, Delegate}
use cyclonedds_cxx.Qos.Policies.Transfer.{set_iso_policy}
use cyclonedds_cxx.Qos.Library.{IsIn, Library, AreDistinct, IsAbsent}
use cyclonedds_cxx.Qos.Sets.{Policy-discrete, QosSet, with_value, set_iso_policies}
use cyclonedds_cxx.Qos.Sets.Sending.{true_ne_false}
use mathlib.Mathlib.Logic.Function.Basic.{update_self, update_of_ne}

module _ (lib : Library) where
  -- The values `from` of the policies that the C library has replace those of the set.
  pub all_received :
      (ps : List Policy) (q : lib.Qos) (s : QosSet)
      → AreDistinct ps
      → (from : (p : Policy) → Delegate p)
      → ((p : Policy)
          → IsIn p ps
          → lib.present q p ≡ true
          → (old : Delegate p) → set_iso_policy lib p q old ≡ ok (from p))
      → (s' : QosSet) × (set_iso_policies lib ps q s ≡ ok s')
        × (s'.present ≡ s.present)
        × ((p : Policy) → IsIn p ps → lib.present q p ≡ true → s'.values p ≡ from p)
        × ((p : Policy) → IsAbsent p ps ⊎ (lib.present q p ≡ false) → s'.values p ≡ s.values p)
  unfolding set_iso_policies
  all_received [] q s distinct from given = (s, refl, refl, λ p i. absurd i, λ p o. refl)
  all_received (p ∷ ps) q s (absent, distinct) from given = elim (Bool-cases (lib.present q p)) [
    | inl on ↦
        let s₁ = with_value p (from p) s in
        let (s', e, same, f, u) = all_received ps q s₁ distinct from (λ p' i. given p' (inr i)) in
        (
          s',
          rw (on, given p (inl refl) on (s.values p)) e,
          same,
          λ p' i on'. elim i [
            | inl eq ↦
                subst (λ p₁. s'.values p₁ ≡ from p₁) (sym eq)
                  (u p (inl absent) ∙ update_self Policy-discrete p (from p) s.values)
            | inr i' ↦ f p' i' on'
          ],
          λ p' o. elim o [
            | inl (ne, rest) ↦ u p' (inl rest) ∙ update_of_ne Policy-discrete ne (from p) s.values
            | inr off ↦
                u p' (inr off)
                ∙ update_of_ne Policy-discrete
                    (λ eq. true_ne_false (sym on ∙ ap (lib.present q) (sym eq) ∙ off)) (from p)
                    s.values
          ],
        )
    | inr off ↦
        let (s', e, same, f, u) = all_received ps q s distinct from (λ p' i. given p' (inr i)) in
        (
          s',
          rw off e,
          same,
          λ p' i on'. elim i [
            | inl eq ↦ absurd (true_ne_false (sym on' ∙ ap (lib.present q) eq ∙ off))
            | inr i' ↦ f p' i' on'
          ],
          λ p' o. elim o [ inl (ne, rest) ↦ u p' (inl rest) | inr off' ↦ u p' (inr off') ],
        )
  ]
