-- ===== src/Cdr/Properties/Endpoints.antt =====
-- key_endpoint and the key flags of members by it: add_key_endpoint, add_key and set_key_values of
-- entity_properties.cpp.
pub mod Paths
use cyclonedds_cxx.Common.{
  ℕ, zero, suc, Bool, true, false, not, ◌||◌, Option, none, some, List, [], ◌∷◌, ◌==◌, ltb,
  if◌then◌else◌,
}
use cyclonedds_cxx.Cdr.Properties.{Entity, Propvec}
use cyclonedds_cxx.Cdr.Properties.Keys.{set_entry, has_keys, erase_key_values}

-- A key_endpoint is a std::map from ids to key_endpoints: its entries by rising id, each with its own
-- map and the entries after it.
pub data KeyEndpoint : Type 0 where
  no_more : KeyEndpoint
  key : ℕ → KeyEndpoint → KeyEndpoint → KeyEndpoint

-- The entry of an id, which is made where there is none, is changed by `f`.
unfoldable pub at_key : ℕ → (KeyEndpoint → KeyEndpoint) → KeyEndpoint → KeyEndpoint
at_key id f no_more = key id (f no_more) no_more
at_key id f (key k sub rest) =
    let later = key k sub (at_key id f rest) in
    if id == k
    then key k (f sub) rest
    else if ltb id k
    then key id (f no_more) (key k sub rest)
    else later

unfoldable pub add_key_endpoint : List ℕ → KeyEndpoint → KeyEndpoint
add_key_endpoint [] e = e
add_key_endpoint (i ∷ is) e = at_key i (add_key_endpoint is) e

abbrev pub has_entries : KeyEndpoint → Bool
has_entries no_more = false
has_entries (key k sub rest) = true

abbrev pub with_key : Entity → Entity
with_key e = record e { is_key = true }

-- The loop of set_key_values with the value of has_keys before it, from a member on. The fuel
-- bounds the members of all levels that are walked.
unfoldable pub set_key_from : ℕ → Bool → Option ℕ → Propvec → Propvec
set_key_from zero h_k p pv = pv
set_key_from (suc fuel) h_k none pv = pv
set_key_from (suc fuel) h_k (some i) pv =
    let marked = if h_k then pv else set_entry i with_key pv in
    let e = marked.entry i in
    let inner = set_key_from fuel (has_keys marked e) e.first_member marked in
    let below = if e.is_key then inner else marked in
    set_key_from fuel h_k (below.entry i).next_on_level below

unfoldable pub set_key_values : Propvec → Entity → Propvec
set_key_values pv e = set_key_from pv.count (has_keys pv e) e.first_member pv

-- The search for the member with an id: `none` is a failed assertion.
unfoldable pub member_from : ℕ → ℕ → Propvec → Option ℕ → Option ℕ
member_from zero id pv p = none
member_from (suc fuel) id pv none = none
member_from (suc fuel) id pv (some i) =
    let rest = member_from fuel id pv (pv.entry i).next_on_level in
    if (pv.entry i).m_id == id then some i else rest

abbrev pub is_some : Option ℕ → Bool
is_some none = false
is_some (some i) = true

-- What add_key does to the members of an entry before its loop.
unfoldable pub prepare_keys : KeyEndpoint → ℕ → Propvec → Propvec
prepare_keys keys i pv =
    if has_entries keys
    then erase_key_values pv (pv.entry i)
    else if is_some (pv.entry i).parent
    then set_key_values pv (pv.entry i)
    else pv

-- The loop of add_key over the keys of an entry; a call of add_key for a member is its
-- preparation and its loop.
unfoldable pub add_keys : KeyEndpoint → ℕ → Propvec → Option Propvec
add_keys no_more i pv = some pv
add_keys (key id sub rest) i pv = elim (member_from pv.count id pv (pv.entry i).first_member) [
  | none ↦ none
  | some j ↦ elim (add_keys sub j (prepare_keys sub j (set_entry j with_key pv))) [
    | none ↦ none
    | some q ↦ add_keys rest i q
  ]
]

unfoldable pub add_key : KeyEndpoint → ℕ → Propvec → Option Propvec
add_key keys i pv = add_keys keys i (prepare_keys keys i pv)
