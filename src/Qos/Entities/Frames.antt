-- ===== src/Qos/Entities/Frames.antt =====
-- Policies and properties are put into a dds_qos_t without regard to each other.
use cyclonedds_cxx.Common.{
  ℕ, ◌≡◌, ◌≢◌, inl, inr, Bool, List, [], ◌∷◌, Option, some, none, refl, sym, ap, subst, ◌∙◌, arith,
  Bool-cases, if◌then◌else◌,
}
use cyclonedds_cxx.Time.Result.{Result, ok, throws, undefined, ◌>>=◌}
use cyclonedds_cxx.Qos.Policies.{Policy, Delegate, Value, Text}
use cyclonedds_cxx.Qos.Policies.ToC.{to_c}
use cyclonedds_cxx.Qos.Policies.Transfer.{set_c_policy, set_iso_policy, qset_some}
use cyclonedds_cxx.Qos.Conversions.{c_string}
use cyclonedds_cxx.Qos.Sets.{QosSet, set_c_policies}
use cyclonedds_cxx.Qos.Sets.Sending.{IsUntouched, IsUntouched-trans}
use cyclonedds_cxx.Qos.Properties.{PropertyKind, Properties, Text-discrete}
use cyclonedds_cxx.Qos.Properties.Transfer.{at, to_c_value, set_c_entries}
use cyclonedds_cxx.Qos.Entities.{EntityLibrary}
use mathlib.Core.List.{lookup}

-- A chain of two calls that returns has a first call that returns.
both_return :
    {A B : Type 0} (m : Result A) (f : A → Result B) (b : B)
    → (m >>= f) ≡ ok b
    → (a : A) × (m ≡ ok a) × (f a ≡ ok b)
both_return (ok a) f b h = (a, refl, h)
both_return (throws e) f b h = absurd (ground arith)
both_return undefined f b h = absurd (ground arith)

ok_inj : {A : Type 0} (a b : A) → ok a ≡ ok b → a ≡ b
ok_inj a b h = ground arith

module _ (full : EntityLibrary) where
  qset_some_keeps :
      (k : PropertyKind) (n : Text) (p : Policy) (v : Option (Value p)) (q : full.lib.Qos)
      → full.calls.qget_prop k n (qset_some full.lib p v q) ≡ full.calls.qget_prop k n q
  qset_some_keeps k n p none q = refl
  qset_some_keeps k n p (some v) q = full.qget_prop-qset k n p v q

  one_policy_keeps :
      (p : Policy) (d : Delegate p) (q q' : full.lib.Qos)
      → set_c_policy full.lib p d q ≡ ok q'
      → (k : PropertyKind) (n : Text) → full.calls.qget_prop k n q' ≡ full.calls.qget_prop k n q
  unfolding set_c_policy
  one_policy_keeps p d q q' h k n =
      let (v, e, f) =
        both_return (to_c full.lib.infinity p d) (λ v. ok (qset_some full.lib p v q)) q' h in
      subst (λ r. full.calls.qget_prop k n r ≡ full.calls.qget_prop k n q)
        (ok_inj (qset_some full.lib p v q) q' f) (qset_some_keeps k n p v q)

  pub policies_keep_properties :
      (ps : List Policy) (s : QosSet) (q q' : full.lib.Qos)
      → set_c_policies full.lib ps s q ≡ ok q'
      → (k : PropertyKind) (n : Text) → full.calls.qget_prop k n q' ≡ full.calls.qget_prop k n q
  unfolding set_c_policies
  policies_keep_properties [] s q q' h k n = ap (full.calls.qget_prop k n) (sym (ok_inj q q' h))
  policies_keep_properties (p ∷ ps) s q q' h k n = elim (Bool-cases (s.present p)) [
    | inl on ↦
        let (r, e, f) =
          both_return (set_c_policy full.lib p (s.values p) q) (set_c_policies full.lib ps s) q' (
            subst
              (λ b.
                ((if b then set_c_policy full.lib p (s.values p) q else ok q)
                  >>= set_c_policies full.lib ps s)
                ≡ ok q')
              on h) in
        policies_keep_properties ps s r q' f k n ∙ one_policy_keeps p (s.values p) q r e k n
    | inr off ↦
        policies_keep_properties ps s q q'
          (subst
            (λ b.
              ((if b then set_c_policy full.lib p (s.values p) q else ok q)
                >>= set_c_policies full.lib ps s)
              ≡ ok q')
            off h)
          k n
  ]

  -- Every policy, and every property of the other kind, is as it was.
  abbrev pub IsKeptBy : PropertyKind → full.lib.Qos → full.lib.Qos → Type 0
  IsKeptBy k q q' =
      ((p : Policy) → IsUntouched full.lib q q' p)
      × ((k' : PropertyKind) (n : Text)
          → k ≢ k'
          → full.calls.qget_prop k' n q' ≡ full.calls.qget_prop k' n q)

  one_property_keeps :
      (k : PropertyKind) (n : Text) (v : List ℕ) (b : Bool) (q : full.lib.Qos)
      → IsKeptBy k q (full.calls.qset_prop k n v b q)
  unfolding set_iso_policy
  one_property_keeps k n v b q = (
    λ p. (full.present-qset_prop p k n v b q, λ old. rw (full.qget-qset_prop p k n v b q)),
    λ k' n' ne. full.calls.qget_prop-qset_prop_other k k' n n' v b q (inl ne),
  )

  IsKeptBy-trans :
      (k : PropertyKind) (q r q' : full.lib.Qos)
      → IsKeptBy k q r
      → IsKeptBy k r q'
      → IsKeptBy k q q'
  IsKeptBy-trans k q r q' (f, g) (f', g') =
      (λ p. IsUntouched-trans full.lib (f p) (f' p), λ k' n ne. g' k' n ne ∙ g k' n ne)

  pub properties_keep_policies :
      (k : PropertyKind) (es : List (Text × List ℕ)) (ps : Properties (List ℕ))
      (q q' : full.lib.Qos)
      → set_c_entries full.calls k es ps q ≡ ok q'
      → IsKeptBy k q q'
  unfolding set_c_entries
  properties_keep_policies k [] ps q q' h =
      subst (IsKeptBy k q) (ok_inj q q' h) (λ p. (refl, λ old. refl), λ k' n ne. refl)
  properties_keep_policies k (e ∷ es) ps q q' h =
      let (v, c, f) =
        both_return (to_c_value k e.1)
          (λ v. at (lookup Text-discrete e.0 ps.props_to_propagate) >>= λ b.
            set_c_entries full.calls k es ps (full.calls.qset_prop k (c_string e.0) v b q))
          q' h in
      let (b, c', g) =
        both_return (at (lookup Text-discrete e.0 ps.props_to_propagate))
          (λ b. set_c_entries full.calls k es ps (full.calls.qset_prop k (c_string e.0) v b q)) q'
          f in
      IsKeptBy-trans k q (full.calls.qset_prop k (c_string e.0) v b q) q'
        (one_property_keeps k (c_string e.0) v b q)
        (properties_keep_policies k es ps (full.calls.qset_prop k (c_string e.0) v b q) q' g)
