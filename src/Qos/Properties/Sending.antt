-- ===== src/Qos/Properties/Sending.antt =====
-- What the C library holds after set_c_policy of a property delegate.
use cyclonedds_cxx.Common.{
  ℕ, ◌<◌, ◌≡◌, ◌≢◌, ◌⊎◌, inl, inr, length, List, [], ◌∷◌, Option, some, none, Bool, true, false,
  refl, sym, ap, ◌∙◌, arith, Option-cases,
}
use cyclonedds_cxx.Common.Maps.{IsMap}
use cyclonedds_cxx.Time.Result.{ok}
use cyclonedds_cxx.Qos.Conversions.{to_byte_array}
use cyclonedds_cxx.Qos.Policies.{Text}
use cyclonedds_cxx.Qos.Policies.RoundTrip.Sequences.{IsCText, c_string_id}
use cyclonedds_cxx.Qos.Sets.Sending.{true_ne_false}
use cyclonedds_cxx.Qos.Properties.{
  PropertyKind, textual, binary, Properties, Text-discrete, set, exists, is_some,
}
use cyclonedds_cxx.Qos.Properties.View.{IsWellFormed, view}
use cyclonedds_cxx.Qos.Properties.Calls.{PropertyCalls, IsKept}
use cyclonedds_cxx.Qos.Properties.Transfer.{to_c_value, received, set_c_entries}
use mathlib.Core.List.{lookup}

-- A string ends before its first zero, and bytes are there and fewer than 2^31.
abbrev pub IsRepresentableValue : PropertyKind → List ℕ → Type 0
IsRepresentableValue textual v = IsCText v
IsRepresentableValue binary v = (0 < length v) × (length v < 0x8000_0000)

pub to_c_value_id :
    (k : PropertyKind) (v : List ℕ)
    → IsRepresentableValue k v
    → (to_c_value k v ≡ ok v) × IsKept k v
unfolding to_c_value to_byte_array
to_c_value_id textual v h = (ap ok (c_string_id v h), tt)
to_c_value_id binary v h = (ground arith, h.0)

pub received-set :
    (k : PropertyKind) (n : Text) (v : List ℕ) (b : Bool) (ps : Properties (List ℕ))
    → IsRepresentableValue k v
    → received k n (some (some v, b)) ps ≡ ok (set n v b ps)
unfolding received to_byte_array
received-set textual n v b ps h = refl
received-set binary n [] b ps h = absurd (omega (arith, h.0))
received-set binary n (c ∷ cs) b ps h = ground arith

-- What the C library holds for a name, by the value and the flag that a delegate has for it.
abbrev pub expected :
    Option (List ℕ)
    → Option Bool
    → Option (Option (List ℕ) × Bool)
    → Option (Option (List ℕ) × Bool)
expected none b old = old
expected (some v) none old = old
expected (some v) (some b) old = some (some v, b)

-- Every entry has a name and a value that the C library can hold.
abbrev pub AreSendable : PropertyKind → Properties (List ℕ) → Type 0
AreSendable k ps =
    (n : Text) (v : List ℕ)
    → lookup Text-discrete n ps.props ≡ some v
    → IsCText n × IsRepresentableValue k v

found_first :
    (e : Text × List ℕ) (es : List (Text × List ℕ)) → lookup Text-discrete e.0 (e ∷ es) ≡ some e.1
unfolding lookup
found_first e es = ground arith

found_later :
    (n : Text) (e : Text × List ℕ) (es : List (Text × List ℕ))
    → n ≢ e.0
    → lookup Text-discrete n (e ∷ es) ≡ lookup Text-discrete n es
unfolding lookup
found_later n e es ne = ground arith

still_found :
    (n : Text) (v : List ℕ) (e : Text × List ℕ) (es : List (Text × List ℕ))
    → lookup Text-discrete e.0 es ≡ none
    → lookup Text-discrete n es ≡ some v
    → lookup Text-discrete n (e ∷ es) ≡ some v
unfolding lookup
still_found n v e es absent h = ground arith

pub has_flag :
    (ps : Properties (List ℕ)) (n : Text) (v : List ℕ)
    → IsWellFormed ps
    → lookup Text-discrete n ps.props ≡ some v
    → (b : Bool) × (lookup Text-discrete n ps.props_to_propagate ≡ some b)
has_flag ps n v (m, m', same) h =
    elim (Option-cases (lookup Text-discrete n ps.props_to_propagate)) [
      | inl e ↦ absurd (true_ne_false (sym (ap is_some h) ∙ same n ∙ ap is_some e))
      | inr r ↦ r
    ]

-- A name has a property, which the C library is to hold, or none.
pub held_or_not :
    (ps : Properties (List ℕ)) (n : Text)
    → IsWellFormed ps
    → let o : Option (Option (List ℕ) × Bool) =
        expected
          (lookup Text-discrete n ps.props)
          (lookup Text-discrete n ps.props_to_propagate)
          none in
      ((v : List ℕ) × (b : Bool) × (lookup Text-discrete n ps.props ≡ some v)
        × (view ps n ≡ some (v, b))
        × (exists n ps ≡ true)
        × (o ≡ some (some v, b)))
      ⊎ ((exists n ps ≡ false) × (o ≡ none))
unfolding exists
held_or_not ps n h = elim (Option-cases (lookup Text-discrete n ps.props)) [
  | inl e ↦ inr (rw e, rw e)
  | inr (v, e) ↦ let (b, f) = has_flag ps n v h e in inl (v, b, e, rw (e, f), rw e, rw (e, f))
]

module _ {Qos : Type 0} (calls : PropertyCalls Qos) where
  pub entries_sent :
      (k : PropertyKind) (es : List (Text × List ℕ)) (ps : Properties (List ℕ)) (q : Qos)
      → IsMap Text-discrete es
      → ((n : Text) (v : List ℕ)
          → lookup Text-discrete n es ≡ some v
          → IsCText n
            × IsRepresentableValue k v
            × ((b : Bool) × (lookup Text-discrete n ps.props_to_propagate ≡ some b)))
      → (q' : Qos) × (set_c_entries calls k es ps q ≡ ok q')
        × ((n : Text)
            → calls.qget_prop k n q'
              ≡ expected
                  (lookup Text-discrete n es)
                  (lookup Text-discrete n ps.props_to_propagate)
                  (calls.qget_prop k n q))
  unfolding set_c_entries
  entries_sent k [] ps q m sendable = (q, refl, λ n. unfold lookup in refl)
  entries_sent k (e ∷ es) ps q (absent, m) sendable =
      let (c, r, (b, f)) = sendable e.0 e.1 (found_first e es) in
      let (i, kept) = to_c_value_id k e.1 r in
      let q₁ = calls.qset_prop k e.0 e.1 b q in
      let (q', s, g) =
        entries_sent k es ps q₁ m (λ n v h. sendable n v (still_found n v e es absent h)) in
      (
        q',
        rw (i, f, c_string_id e.0 c) s,
        λ n. elim (Text-discrete n e.0) [
          | yes eq ↦
              rw (eq, found_first e es, f)
                (g e.0 ∙ rw absent (calls.qget_prop-qset_prop k e.0 e.1 b q kept))
          | no ne ↦ rw (found_later n e es ne) (
              g n
              ∙ ap
                  (expected (lookup Text-discrete n es)
                    (lookup Text-discrete n ps.props_to_propagate))
                  (calls.qget_prop-qset_prop_other k k e.0 n e.1 b q (inr (λ eq. ne (sym eq)))))
        ],
      )
