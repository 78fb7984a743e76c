-- ===== src/Qos/Entities/Factory.antt =====
-- The entity factory in what goes to the C library: EntityFactoryDelegate::set_c_policy does nothing.
use cyclonedds_cxx.Common.{
  false, List, [], ◌∷◌, ◌≡◌, inl, inr, refl, sym, ap, subst, ◌∙◌, if◌then◌else◌, Bool-cases,
}
use cyclonedds_cxx.Time.Result.{Result, ok, throws, undefined, ◌>>=◌}
use cyclonedds_cxx.Qos.Policies.{Policy, entity_factory}
use cyclonedds_cxx.Qos.Policies.ToC.{to_c}
use cyclonedds_cxx.Qos.Policies.Transfer.{set_c_policy}
use cyclonedds_cxx.Qos.Library.{Library}
use cyclonedds_cxx.Qos.Sets.{Policy-discrete, QosSet, created, set_c_policies}
use cyclonedds_cxx.Qos.Entities.{
  EntityLibrary, EntityQos, last_policies, set_c_lists, entity_to_ddsc,
}
use mathlib.Mathlib.Logic.Function.Basic.{update, update_self, update_of_ne}

-- A set with the flag of its entity factory cleared.
abbrev pub without_factory : QosSet → QosSet
without_factory s = record s { present = update Policy-discrete s.present entity_factory false }

bind_same :
    {A B : Type 0} (m : Result A) (f g : A → Result B)
    → ((a : A) → f a ≡ g a)
    → (m >>= f) ≡ (m >>= g)
bind_same (ok a) f g h = h a
bind_same (throws e) f g h = refl
bind_same undefined f g h = refl

module _ (lib : Library) where
  abbrev one_set : Policy → QosSet → lib.Qos → Result lib.Qos
  one_set p s q = if s.present p then set_c_policy lib p (s.values p) q else ok q

  factory_not_sent :
      (s : QosSet) (q : lib.Qos)
      → one_set entity_factory s q ≡ one_set entity_factory (without_factory s) q
  unfolding set_c_policy to_c
  factory_not_sent s q =
      rw (update_self Policy-discrete entity_factory false s.present)
        (elim (Bool-cases (s.present entity_factory)) [
          | inl on ↦ rw on refl
          | inr off ↦ rw off refl
        ])

  one_set-without_factory :
      (p : Policy) (s : QosSet) (q : lib.Qos) → one_set p s q ≡ one_set p (without_factory s) q
  one_set-without_factory p s q = elim (Policy-discrete p entity_factory) [
    | yes e ↦
        subst (λ x. one_set x s q ≡ one_set x (without_factory s) q) (sym e) (factory_not_sent s q)
    | no ne ↦ rw (update_of_ne Policy-discrete ne false s.present) refl
  ]

  set_c_policies-without_factory :
      (ps : List Policy) (s : QosSet) (q : lib.Qos)
      → set_c_policies lib ps s q ≡ set_c_policies lib ps (without_factory s) q
  unfolding set_c_policies
  set_c_policies-without_factory [] s q = refl
  set_c_policies-without_factory (p ∷ ps) s q =
      ap (λ m. m >>= set_c_policies lib ps s) (one_set-without_factory p s q)
      ∙ bind_same (one_set p (without_factory s) q) (set_c_policies lib ps s)
          (set_c_policies lib ps (without_factory s)) (set_c_policies-without_factory ps s)

abbrev pub without_factory_flag : EntityQos → EntityQos
without_factory_flag s = record s { policies = without_factory s.policies }

pub entity_to_ddsc-without_factory :
    (full : EntityLibrary) (ps : List Policy) (s : EntityQos)
    → entity_to_ddsc full ps s ≡ entity_to_ddsc full ps (without_factory_flag s)
unfolding entity_to_ddsc
entity_to_ddsc-without_factory full ps s =
    let both = set_c_policies-without_factory full.lib in
    let t = without_factory s.policies in
    ap (λ m. m >>= set_c_lists full s >>= set_c_policies full.lib last_policies s.policies)
      (bind_same (created full.lib) (set_c_policies full.lib ps s.policies)
        (set_c_policies full.lib ps t) (both ps s.policies))
    ∙ bind_same (created full.lib >>= set_c_policies full.lib ps t >>= set_c_lists full s)
        (set_c_policies full.lib last_policies s.policies) (set_c_policies full.lib last_policies t)
        (both last_policies s.policies)
