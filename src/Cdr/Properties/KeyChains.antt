-- ===== src/Cdr/Properties/KeyChains.antt =====
-- The chains of keys: link_keys_unsorted, link_keys_sorted and finish of entity_properties.cpp.
pub mod Sorted
pub mod Enough
use cyclonedds_cxx.Common.{
  ℕ, zero, suc, Bool, true, false, ◌||◌, Option, none, some, List, [], ◌∷◌, ◌==◌, ltb,
  if◌then◌else◌,
}
use cyclonedds_cxx.Cdr.Properties.{Entity, Propvec}
use cyclonedds_cxx.Cdr.Properties.Keys.{set_entry}
use cyclonedds_cxx.Cdr.Properties.Linking.{link_levels}
use cyclonedds_cxx.Cdr.Properties.Endpoints.{KeyEndpoint, add_key, is_some}

infixl 5 ◌>>=◌
abbrev pub ◌>>=◌ : {A B : Type 0} → Option A → (A → Option B) → Option B
none >>= f = none
some a >>= f = f a

abbrev pub with_first_unsorted : ℕ → Entity → Entity
with_first_unsorted i e = record e {
  first_unsorted_key = if is_some e.first_unsorted_key then e.first_unsorted_key else some i;
}

abbrev pub with_prev_unsorted : Option ℕ → Entity → Entity
with_prev_unsorted p e = record e { prev_unsorted_key = p }

abbrev pub with_next_unsorted : ℕ → Entity → Entity
with_next_unsorted i e = record e { next_unsorted_key = some i }

-- `if (p) ...` on the entry that `p` points to.
abbrev pub set_if : Option ℕ → (Entity → Entity) → Propvec → Propvec
set_if none f pv = pv
set_if (some p) f pv = set_entry p f pv

-- The links of the key `i` of the entry `prop` behind the key `prev`.
unfoldable pub link_unsorted : ℕ → ℕ → Option ℕ → Propvec → Propvec
link_unsorted prop i prev pv =
    set_if prev (with_next_unsorted i)
      (set_entry i (with_prev_unsorted prev) (set_entry prop (with_first_unsorted i) pv))

-- The loop of link_keys_unsorted for the entry `prop`, from a member on. The fuel bounds the
-- members of all levels that are walked; `none` is a loop that has not ended with it.
unfoldable pub link_unsorted_from : ℕ → ℕ → Option ℕ → Option ℕ → Propvec → Option Propvec
link_unsorted_from zero prop none prev pv = some pv
link_unsorted_from zero prop (some i) prev pv = none
link_unsorted_from (suc fuel) prop none prev pv = some pv
link_unsorted_from (suc fuel) prop (some i) prev pv =
    let linked = link_unsorted prop i prev pv in
    let key_case = link_unsorted_from fuel i (linked.entry i).first_member none linked >>= λ inner.
    link_unsorted_from fuel prop (inner.entry i).next_on_level (some i) inner in
    let other_case = link_unsorted_from fuel prop (pv.entry i).next_on_level prev pv in
    if (pv.entry i).is_key then key_case else other_case

unfoldable pub link_keys_unsorted : ℕ → Propvec → Option Propvec
link_keys_unsorted prop pv = link_unsorted_from pv.count prop (pv.entry prop).first_member none pv

-- `mapping[id] = member`: the pairs by rising id.
unfoldable pub map_id : ℕ → ℕ → List (ℕ × ℕ) → List (ℕ × ℕ)
map_id id i [] = (id, i) ∷ []
map_id id i ((k, j) ∷ m) =
    let later = (k, j) ∷ map_id id i m in
    if id == k then (k, i) ∷ m else if ltb id k then (id, i) ∷ (k, j) ∷ m else later

abbrev pub with_first_sorted : ℕ → Entity → Entity
with_first_sorted i e = record e {
  first_sorted_key = if is_some e.first_sorted_key then e.first_sorted_key else some i;
}

abbrev pub with_prev_sorted : Option ℕ → Entity → Entity
with_prev_sorted p e = record e { prev_sorted_key = p }

abbrev pub with_next_sorted : ℕ → Entity → Entity
with_next_sorted i e = record e { next_sorted_key = some i }

unfoldable pub link_sorted : ℕ → ℕ → Option ℕ → Propvec → Propvec
link_sorted prop i prev pv =
    set_if prev (with_next_sorted i)
      (set_entry i (with_prev_sorted prev) (set_entry prop (with_first_sorted i) pv))

-- The second loop of link_keys_sorted.
unfoldable pub link_sorted_all : ℕ → Option ℕ → List (ℕ × ℕ) → Propvec → Propvec
link_sorted_all prop prev [] pv = pv
link_sorted_all prop prev ((id, i) ∷ m) pv =
    link_sorted_all prop (some i) m (link_sorted prop i prev pv)

-- The first loop of link_keys_sorted, from a key on, with the mapping so far, and the second loop
-- for the entry `prop` behind it. A call for a key is the same for its own keys. `none` is a loop
-- that has not ended with the fuel.
unfoldable pub link_sorted_from : ℕ → ℕ → Option ℕ → List (ℕ × ℕ) → Propvec → Option Propvec
link_sorted_from zero prop none mapping pv = some (link_sorted_all prop none mapping pv)
link_sorted_from zero prop (some i) mapping pv = none
link_sorted_from (suc fuel) prop none mapping pv = some (link_sorted_all prop none mapping pv)
link_sorted_from (suc fuel) prop (some i) mapping pv =
    let key_case = link_sorted_from fuel i (pv.entry i).first_unsorted_key [] pv >>= λ inner.
    link_sorted_from fuel prop (inner.entry i).next_unsorted_key
      (map_id (pv.entry i).m_id i mapping) inner in
    let other_case = link_sorted_from fuel prop (pv.entry i).next_unsorted_key mapping pv in
    if (pv.entry i).is_key then key_case else other_case

unfoldable pub link_keys_sorted : ℕ → Propvec → Option Propvec
link_keys_sorted prop pv = link_sorted_from pv.count prop (pv.entry prop).first_unsorted_key [] pv

-- The loop that passes xtypes_necessary on to the first entry.
unfoldable pub necessary_from : ℕ → Option ℕ → Propvec → Option Propvec
necessary_from zero none pv = some pv
necessary_from zero (some i) pv = none
necessary_from (suc fuel) none pv = some pv
necessary_from (suc fuel) (some i) pv =
    let marked =
      set_entry 0
        (λ e. record e { xtypes_necessary = e.xtypes_necessary || (pv.entry i).xtypes_necessary })
        pv in
    let rest = necessary_from fuel (marked.entry i).next_on_level marked in
    if (pv.entry 0).xtypes_necessary then some pv else rest

-- The vector is not empty, which the code asserts.
unfoldable pub finish : Propvec → KeyEndpoint → Option Propvec
finish pv keys =
    let linked = link_levels pv.count pv in
    necessary_from linked.count (linked.entry 0).first_member linked >>= λ marked.
    add_key keys 0 marked >>= λ q.
    link_keys_unsorted 0 q >>= λ unsorted. link_keys_sorted 0 unsorted
