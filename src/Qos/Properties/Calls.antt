-- ===== src/Qos/Properties/Calls.antt =====
-- The C library as the property delegates use it: dds_qset_prop_propagate and
-- dds_qset_bprop_propagate put a property into a dds_qos_t, dds_qget_prop_propagate and
-- dds_qget_bprop_propagate get it by its name, and dds_qget_propnames and dds_qget_bpropnames
-- give the names, where there are any.
use cyclonedds_cxx.Common.{ℕ, ◌<◌, ◌≡◌, ◌≢◌, ◌⊎◌, ◌↔◌, length, List, Option, some, none, Bool, true}
use cyclonedds_cxx.Qos.Policies.{Text}
use cyclonedds_cxx.Qos.Library.{IsIn}
use cyclonedds_cxx.Qos.Properties.{PropertyKind, textual, binary, is_some}

-- A binary property without bytes is given as a null pointer.
abbrev pub IsKept : PropertyKind → List ℕ → Type 0
IsKept textual v = Unit {0}
IsKept binary v = 0 < length v

-- What a call gives for a name is a value, or a null pointer, and whether it is propagated.
pub record PropertyCalls (Qos : Type 0) : Type 0 where
  pub names : PropertyKind → Qos → Option (List Text)
  pub qset_prop : PropertyKind → Text → List ℕ → Bool → Qos → Qos
  pub qget_prop : PropertyKind → Text → Qos → Option (Option (List ℕ) × Bool)
  pub named :
      (k : PropertyKind) (q : Qos) (ns : List Text) (n : Text)
      → names k q ≡ some ns
      → IsIn n ns ↔ (is_some (qget_prop k n q) ≡ true)
  pub unnamed : (k : PropertyKind) (q : Qos) (n : Text) → names k q ≡ none → qget_prop k n q ≡ none
  pub qget_prop-qset_prop :
      (k : PropertyKind) (n : Text) (v : List ℕ) (b : Bool) (q : Qos)
      → IsKept k v
      → qget_prop k n (qset_prop k n v b q) ≡ some (some v, b)
  pub qget_prop-qset_prop_other :
      (k k' : PropertyKind) (n n' : Text) (v : List ℕ) (b : Bool) (q : Qos)
      → (k ≢ k') ⊎ (n ≢ n')
      → qget_prop k' n' (qset_prop k n v b q) ≡ qget_prop k' n' q
