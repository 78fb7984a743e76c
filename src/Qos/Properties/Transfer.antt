-- ===== src/Qos/Properties/Transfer.antt =====
-- set_c_policy and set_iso_policy of the property delegates (PolicyDelegate.cpp).
use cyclonedds_cxx.Common.{ℕ, List, [], ◌∷◌, Option, some, none, Bool}
use cyclonedds_cxx.Common.Maps.{insert}
use cyclonedds_cxx.Time.Result.{Result, ok, throws, ◌>>=◌, out_of_range}
use cyclonedds_cxx.Qos.Conversions.{c_string, to_byte_array}
use cyclonedds_cxx.Qos.Policies.{Text}
use cyclonedds_cxx.Qos.Properties.{PropertyKind, textual, binary, Properties, Text-discrete, set}
use cyclonedds_cxx.Qos.Properties.Calls.{PropertyCalls}
use mathlib.Core.List.{lookup}

-- std::map::at
abbrev pub at : {A : Type 0} → Option A → Result A
at none = throws out_of_range
at (some a) = ok a

-- The value as the C library gets it.
unfoldable pub to_c_value : PropertyKind → List ℕ → Result (List ℕ)
unfolding c_string to_byte_array
to_c_value textual v = ok (c_string v)
to_c_value binary v = to_byte_array v

-- What the loop of set_iso_policy makes of what the C library gives for a name. The bytes of a
-- binary property are left as they were where there are none.
unfoldable pub received :
    PropertyKind
    → Text
    → Option (Option (List ℕ) × Bool)
    → Properties (List ℕ)
    → Result (Properties (List ℕ))
unfolding set to_byte_array
received k n none ps = ok ps
received k n (some (none, is_propagate)) ps = ok ps
received textual n (some (some v, is_propagate)) ps = ok (set n v is_propagate ps)
received binary n (some (some [], is_propagate)) ps =
    ok
      (record ps { props_to_propagate = insert Text-discrete n is_propagate ps.props_to_propagate })
received binary n (some (some (b ∷ bs), is_propagate)) ps =
    to_byte_array (b ∷ bs) >>= λ v. ok (set n v is_propagate ps)

module _ {Qos : Type 0} (calls : PropertyCalls Qos) where
  -- The loop of set_c_policy over props_.
  unfoldable pub set_c_entries :
      PropertyKind → List (Text × List ℕ) → Properties (List ℕ) → Qos → Result Qos
  unfolding to_c_value c_string
  set_c_entries k [] ps q = ok q
  set_c_entries k (e ∷ es) ps q = to_c_value k e.1 >>= λ v.
      at (lookup Text-discrete e.0 ps.props_to_propagate) >>= λ b.
      set_c_entries k es ps (calls.qset_prop k (c_string e.0) v b q)

  unfoldable pub set_c_properties : PropertyKind → Properties (List ℕ) → Qos → Result Qos
  unfolding set_c_entries
  set_c_properties k ps q = set_c_entries k ps.props ps q

  unfoldable pub set_iso_names :
      PropertyKind → List Text → Qos → Properties (List ℕ) → Result (Properties (List ℕ))
  unfolding received
  set_iso_names k [] q ps = ok ps
  set_iso_names k (n ∷ ns) q ps = received k n (calls.qget_prop k n q) ps >>= set_iso_names k ns q

  -- Nothing happens where there are no names.
  abbrev pub from_names :
      PropertyKind → Option (List Text) → Qos → Properties (List ℕ) → Result (Properties (List ℕ))
  from_names k none q ps = ok ps
  from_names k (some ns) q ps = set_iso_names k ns q ps

  unfoldable pub set_iso_properties :
      PropertyKind → Qos → Properties (List ℕ) → Result (Properties (List ℕ))
  set_iso_properties k q ps = from_names k (calls.names k q) q ps
