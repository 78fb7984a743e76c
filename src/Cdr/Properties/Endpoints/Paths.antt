-- ===== src/Cdr/Properties/Endpoints/Paths.antt =====
-- A key_endpoint as the set of the paths of ids that lead into it.
use cyclonedds_cxx.Common.{
  ℕ, ◌≡◌, refl, arith, Bool, true, false, ◌||◌, Option, none, some, List, [], ◌∷◌, ◌==◌, ltb,
  if◌then◌else◌, inl, inr, Option-cases,
}
use cyclonedds_cxx.Cdr.Properties.Endpoints.{KeyEndpoint, no_more, key, at_key, add_key_endpoint}

-- std::map::find: the ids rise.
abbrev pub find : ℕ → KeyEndpoint → Option KeyEndpoint
find id no_more = none
find id (key k sub rest) =
    let later = find id rest in if id == k then some sub else if ltb id k then none else later

abbrev pub contains : List ℕ → KeyEndpoint → Bool
contains [] e = true
contains (i ∷ is) e = elim (find i e) [ none ↦ false | some sub ↦ contains is sub ]

abbrev pub is_prefix : List ℕ → List ℕ → Bool
is_prefix [] p = true
is_prefix (i ∷ is) [] = false
is_prefix (i ∷ is) (j ∷ js) = if i == j then is_prefix is js else false

abbrev or_empty : Option KeyEndpoint → KeyEndpoint
or_empty none = no_more
or_empty (some e) = e

find-at_key :
    (i id : ℕ) (f : KeyEndpoint → KeyEndpoint) (e : KeyEndpoint)
    → find i (at_key id f e) ≡ (if i == id then some (f (or_empty (find i e))) else find i e)
unfolding at_key
find-at_key i id f no_more = ground arith
find-at_key i id f (key k sub rest) = ground (arith, find-at_key i id f rest)

contains-empty : (q p : List ℕ) → contains q no_more ≡ true → is_prefix q p ≡ true
contains-empty [] p h = refl
contains-empty (i ∷ is) p h = cc

-- After add_key_endpoint of a path, the paths are those of before, and the path with its prefixes.
pub contains-add_key_endpoint :
    (q p : List ℕ) (e : KeyEndpoint)
    → contains q (add_key_endpoint p e) ≡ (is_prefix q p || contains q e)
unfolding add_key_endpoint
contains-add_key_endpoint [] p e = refl
contains-add_key_endpoint (i ∷ is) [] e = refl
contains-add_key_endpoint (i ∷ is) (j ∷ js) e = elim (Option-cases (find i e)) [
  | inl absent ↦ ground (
    arith,
    absent,
    find-at_key i j (add_key_endpoint js) e,
    contains-add_key_endpoint is js no_more,
    contains-empty is js,
  )
  | inr (sub, there) ↦
      ground
        (arith, there, find-at_key i j (add_key_endpoint js) e, contains-add_key_endpoint is js sub)
]
