-- ===== src/Qos/Properties.antt =====
-- PropertyDelegate and BinaryPropertyDelegate (PolicyDelegate.cpp): values by name, each with a flag
-- that says whether it is propagated. V is a string or a sequence of bytes.
pub mod View
pub mod Calls
pub mod Transfer
pub mod Sending
pub mod RoundTrip
pub mod Runs
use cyclonedds_cxx.Common.{
  ℕ, Bool, true, false, List, [], ◌∷◌, Option, some, none, length, if◌then◌else◌, refl, arith,
}
use cyclonedds_cxx.Common.Maps.{insert, erase}
use cyclonedds_cxx.Time.Result.{Result, ok, throws, precondition_not_met}
use cyclonedds_cxx.Qos.Policies.{Text}
use mathlib.Core.List.{lookup}
use native.Mathlib.Decide.{ℕ_discrete}

-- Equality of strings.
unfoldable pub Text-discrete : Discrete Text
unfolding ℕ_discrete
Text-discrete [] [] = yes refl
Text-discrete [] (d ∷ ds) = no (λ e. ground arith)
Text-discrete (c ∷ cs) [] = no (λ e. ground arith)
Text-discrete (c ∷ cs) (d ∷ ds) = elim (ℕ_discrete c d) [
  | yes p ↦ elim (Text-discrete cs ds) [ yes q ↦ yes (cc) | no n ↦ no (λ e. n (ground arith)) ]
  | no n ↦ no (λ e. n (ground arith))
]

pub record Properties (V : Type 0) : Type 0 where
  pub props : List (Text × V)
  pub props_to_propagate : List (Text × Bool)

abbrev pub no_properties : {V : Type 0} → Properties V
no_properties = record { props = []; props_to_propagate = [] }

abbrev pub is_some : {A : Type 0} → Option A → Bool
is_some none = false
is_some (some a) = true

-- PropertyDelegate and BinaryPropertyDelegate.
pub data PropertyKind : Type 0 where
  textual binary : PropertyKind

-- What is at a key, or the exception where it is missing.
abbrev pub or_throw : {A : Type 0} → Option A → Result A
or_throw none = throws precondition_not_met
or_throw (some a) = ok a

module _ {V : Type 0} where
  unfoldable pub set : Text → V → Bool → Properties V → Properties V
  set name value is_propagate ps = record {
    props = insert Text-discrete name value ps.props;
    props_to_propagate = insert Text-discrete name is_propagate ps.props_to_propagate;
  }

  -- The constructor from a list of entries.
  unfoldable pub from_entries : List (Text × V) → Bool → Properties V → Properties V
  unfolding set
  from_entries [] is_propagate ps = ps
  from_entries (e ∷ es) is_propagate ps = from_entries es is_propagate (set e.0 e.1 is_propagate ps)

  unfoldable pub get : Text → Properties V → Result V
  get name ps = or_throw (lookup Text-discrete name ps.props)

  unfoldable pub size : Properties V → ℕ
  size ps = length ps.props

  unfoldable pub exists : Text → Properties V → Bool
  exists name ps = is_some (lookup Text-discrete name ps.props)

  abbrev pub without : Text → Properties V → Properties V
  without name ps = record {
    props = erase Text-discrete name ps.props;
    props_to_propagate = erase Text-discrete name ps.props_to_propagate;
  }

  unfoldable pub remove : Text → Properties V → Bool × Properties V
  unfolding exists
  remove name ps = if exists name ps then (true, without name ps) else (false, ps)

  unfoldable pub propagate : Text → Properties V → Result Bool
  propagate name ps = or_throw (lookup Text-discrete name ps.props_to_propagate)
