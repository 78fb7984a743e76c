-- ===== src/Qos/Properties/Runs.antt =====
-- The theorems on property policies at concrete inputs, with a C library that keeps what is set.
use cyclonedds_cxx.Common.{
  ℕ, ◌≡◌, ◌≢◌, ◌⊎◌, inl, inr, ◌↔◌, List, [], ◌∷◌, Option, some, none, Bool, true, false, refl, sym,
  ap, subst, arith,
}
use cyclonedds_cxx.Common.Maps.{insert, lookup-insert, lookup-insert_ne}
use cyclonedds_cxx.Time.Result.{ok}
use cyclonedds_cxx.Qos.Policies.{Text}
use cyclonedds_cxx.Qos.Policies.RoundTrip.Sequences.{IsCText}
use cyclonedds_cxx.Qos.Library.{IsIn}
use cyclonedds_cxx.Qos.Sets.Sending.{true_ne_false}
use cyclonedds_cxx.Qos.Properties.{
  PropertyKind, textual, binary, Properties, Text-discrete, set, exists, remove, is_some,
}
use cyclonedds_cxx.Qos.Properties.View.{
  IsWellFormed, view, Answers, Becomes, Removes, map_operations,
}
use cyclonedds_cxx.Qos.Properties.Calls.{PropertyCalls}
use cyclonedds_cxx.Qos.Properties.Transfer.{set_c_properties, set_iso_properties}
use cyclonedds_cxx.Qos.Properties.Sending.{AreSendable}
use cyclonedds_cxx.Qos.Properties.RoundTrip.{set_iso_properties-set_c_properties}
use mathlib.Core.List.{lookup}

abbrev pub Entries : Type 0
Entries = List (Text × (List ℕ × Bool))

-- A dds_qos_t as the entries of both kinds.
abbrev pub put : PropertyKind → Entries → (PropertyKind → Entries) → PropertyKind → Entries
put textual l q textual = l
put textual l q binary = q binary
put binary l q textual = q textual
put binary l q binary = l

abbrev pub keys : Entries → List Text
keys [] = []
keys (e ∷ l) = e.0 ∷ keys l

abbrev pub given : Option (List ℕ × Bool) → Option (Option (List ℕ) × Bool)
given none = none
given (some (v, b)) = some (some v, b)

pub found_named :
    (l : Entries) (n : Text) → IsIn n (keys l) → is_some (given (lookup Text-discrete n l)) ≡ true
unfolding lookup
found_named [] n i = absurd i
found_named (e ∷ l) n (inl p) = ground arith
found_named (e ∷ l) n (inr i) = ground (arith, found_named l n i)

pub named_found :
    (l : Entries) (n : Text) → is_some (given (lookup Text-discrete n l)) ≡ true → IsIn n (keys l)
unfolding lookup
named_found [] n h = absurd (true_ne_false (sym h))
named_found (e ∷ l) n h = elim (Text-discrete n e.0) [
  | yes p ↦ inl p
  | no p ↦ inr (named_found l n (ground arith))
]

pub kept :
    (k : PropertyKind) (n : Text) (v : List ℕ) (b : Bool) (q : PropertyKind → Entries)
    → given (lookup Text-discrete n (put k (insert Text-discrete n (v, b) (q k)) q k))
      ≡ some (some v, b)
kept textual n v b q = rw (lookup-insert Text-discrete n (v, b) (q textual))
kept binary n v b q = rw (lookup-insert Text-discrete n (v, b) (q binary))

pub kept_other :
    (k k' : PropertyKind) (n n' : Text) (v : List ℕ) (b : Bool) (q : PropertyKind → Entries)
    → (k ≢ k') ⊎ (n ≢ n')
    → lookup Text-discrete n' (put k (insert Text-discrete n (v, b) (q k)) q k')
      ≡ lookup Text-discrete n' (q k')
kept_other textual binary n n' v b q o = refl
kept_other binary textual n n' v b q o = refl
kept_other textual textual n n' v b q (inl ne) = absurd (ne refl)
kept_other binary binary n n' v b q (inl ne) = absurd (ne refl)
kept_other textual textual n n' v b q (inr ne) =
    lookup-insert_ne Text-discrete n n' (v, b) (q textual) (λ e. ne (sym e))
kept_other binary binary n n' v b q (inr ne) =
    lookup-insert_ne Text-discrete n n' (v, b) (q binary) (λ e. ne (sym e))

pub nothing_found : (n : Text) → lookup {B = List ℕ × Bool} Text-discrete n [] ≡ none
unfolding lookup
nothing_found n = refl

abbrev pub or_nil : Option (List Text) → List Text
or_nil none = []
or_nil (some l) = l

abbrev pub keeping_properties : PropertyCalls (PropertyKind → Entries)
keeping_properties = record {
  names = λ k q. some (keys (q k));
  qset_prop = λ k n v b q. put k (insert Text-discrete n (v, b) (q k)) q;
  qget_prop = λ k n q. given (lookup Text-discrete n (q k));
  named = λ k q ns n e.
      subst (λ l. IsIn n l ↔ (is_some (given (lookup Text-discrete n (q k))) ≡ true))
        (ap (or_nil) e) (found_named (q k) n, named_found (q k) n);
  unnamed = λ k q n e. absurd (true_ne_false (ap is_some e));
  qget_prop-qset_prop = λ k n v b q _. kept k n v b q;
  qget_prop-qset_prop_other = λ k k' n n' v b q o. ap given (kept_other k k' n n' v b q o);
}

-- Two properties, the first of which is propagated.
abbrev pub two_properties : Properties (List ℕ)
two_properties = record {
  props = (97 ∷ [], 1 ∷ []) ∷ (98 ∷ [], 2 ∷ []) ∷ [];
  props_to_propagate = (97 ∷ [], true) ∷ (98 ∷ [], false) ∷ [];
}

pub two_properties-IsWellFormed : IsWellFormed two_properties
unfolding lookup Text-discrete
two_properties-IsWellFormed = ((refl, (refl, tt)), (refl, (refl, tt)), λ n. ground arith)

sendable_cons :
    (e : Text × List ℕ) (es : List (Text × List ℕ))
    → IsCText e.0 × IsCText e.1
    → ((n : Text) (v : List ℕ) → lookup Text-discrete n es ≡ some v → IsCText n × IsCText v)
    → (n : Text) (v : List ℕ) → lookup Text-discrete n (e ∷ es) ≡ some v
    → IsCText n × IsCText v
unfolding lookup
sendable_cons e es h later n v found = elim (Text-discrete n e.0) [
  | yes p ↦ let same : e.1 ≡ v = ground arith in (subst IsCText (sym p) h.0, subst IsCText same h.1)
  | no p ↦ later n v (ground arith)
]

pub two_properties-AreSendable : AreSendable textual two_properties
unfolding lookup
two_properties-AreSendable =
    sendable_cons (97 ∷ [], 1 ∷ []) ((98 ∷ [], 2 ∷ []) ∷ []) ((omega arith, tt), (omega arith, tt))
      (sendable_cons (98 ∷ [], 2 ∷ []) [] ((omega arith, tt), (omega arith, tt))
        (λ n v h. absurd (true_ne_false (sym (ap is_some h)))))

map_operations_example :
    Answers (98 ∷ []) two_properties (view two_properties (98 ∷ []))
    × (Becomes
          (98 ∷ [])
          (some (3 ∷ [], true))
          two_properties
          (set (98 ∷ []) (3 ∷ []) true two_properties)
        × IsWellFormed (set (98 ∷ []) (3 ∷ []) true two_properties))
    × Removes (98 ∷ []) two_properties (remove (98 ∷ []) two_properties)
map_operations_example =
    map_operations two_properties (98 ∷ []) (3 ∷ []) true two_properties-IsWellFormed

set_iso_properties-set_c_properties_example :
    (q' : PropertyKind → Entries) × (ps' : Properties (List ℕ)) × (set_c_properties
        keeping_properties textual two_properties
        (λ k. [])
      ≡ ok q')
    × (set_iso_properties keeping_properties textual q' two_properties ≡ ok ps')
    × ((n : Text)
        → ((exists n two_properties ≡ true) → view ps' n ≡ view two_properties n)
          × ((exists n two_properties ≡ false) → view ps' n ≡ view two_properties n))
set_iso_properties-set_c_properties_example =
    set_iso_properties-set_c_properties keeping_properties textual two_properties two_properties
      (λ k. []) two_properties-IsWellFormed two_properties-AreSendable
      (λ n. ap given (nothing_found n))
