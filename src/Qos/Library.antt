-- ===== src/Qos/Library.antt =====
-- The C library as the delegates use it: a dds_qos_t, the functions dds_qset_... that put the value
-- of a policy into it, and the functions dds_qget_... that get it, where there is one.
use cyclonedds_cxx.Common.{
  ℕ, ◌≤◌, ◌≡◌, ◌≢◌, ◌⊎◌, length, List, [], ◌∷◌, Option, some, Bool, true, false,
}
use cyclonedds_cxx.Qos.Conversions.RoundTrip.{IsInfinity}
use cyclonedds_cxx.Qos.Policies.{Policy, Value, data_representation, psmx_instances}

abbrev pub IsAbsent : {A : Type 0} → A → List A → Type 0
IsAbsent v [] = Unit {0}
IsAbsent v (w ∷ ws) = (v ≢ w) × IsAbsent v ws

abbrev pub IsIn : {A : Type 0} → A → List A → Type 0
IsIn v [] = ⊥
IsIn v (w ∷ ws) = (v ≡ w) ⊎ IsIn v ws

-- Nothing stands in the list twice.
abbrev pub AreDistinct : {A : Type 0} → List A → Type 0
AreDistinct [] = Unit {0}
AreDistinct (v ∷ vs) = IsAbsent v vs × AreDistinct vs

-- What a dds_qos_t holds as it was set: dds_qset_data_representation drops duplicates, and
-- dds_qset_psmx_instances refuses more than DDS_MAX_PSMX_INSTANCES.
abbrev pub IsStorable : ℕ → (p : Policy) → Value p → Type 0
IsStorable max_psmx data_representation v = AreDistinct v
IsStorable max_psmx psmx_instances v = length v ≤ max_psmx
IsStorable max_psmx _ v = Unit {0}

-- `infinity` is DDS_INFINITY and `max_psmx` DDS_MAX_PSMX_INSTANCES. `create` is dds_create_qos, and
-- `present` tests the flag of a policy in the member `present` of a dds_qos_t.
pub record Library : Type 1 where
  pub Qos : Type 0
  pub infinity : ℕ
  pub max_psmx : ℕ
  pub create : Option Qos
  pub present : Qos → Policy → Bool
  pub qset : (p : Policy) → Value p → Qos → Qos
  pub qget : (p : Policy) → Qos → Option (Value p)
  pub infinity_far : IsInfinity infinity
  pub qget-qset :
      (p : Policy) (v : Value p) (q : Qos) → IsStorable max_psmx p v → qget p (qset p v q) ≡ some v
  pub qget-qset_other :
      (p p' : Policy) (v : Value p) (q : Qos) → p ≢ p' → qget p' (qset p v q) ≡ qget p' q
  pub present-create : (q : Qos) (p : Policy) → create ≡ some q → present q p ≡ false
  pub present-qset :
      (p : Policy) (v : Value p) (q : Qos) → IsStorable max_psmx p v → present (qset p v q) p ≡ true
  pub present-qset_other :
      (p p' : Policy) (v : Value p) (q : Qos) → p ≢ p' → present (qset p v q) p' ≡ present q p'
