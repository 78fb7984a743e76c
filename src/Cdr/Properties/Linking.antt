-- ===== src/Cdr/Properties/Linking.antt =====
-- entity_properties_t::finish of entity_properties.cpp: the links between the members of a type. A
-- loop over entries has the length of the vector as fuel where it follows links.
pub mod Appended
pub mod Levels
pub mod Frames
pub mod Pairing
pub mod Rounds
pub mod Invariant
use cyclonedds_cxx.Common.{
  ℕ, zero, suc, ◌+◌, ◌-◌, Bool, true, false, ◌||◌, Option, none, some, List, [], ◌∷◌, ◌==◌, ltb,
  if◌then◌else◌,
}
use cyclonedds_cxx.Cdr.Properties.{Entity, Propvec}
use cyclonedds_cxx.Cdr.Properties.Keys.{set_entry, has_keys, erase_key_values}

-- The inner loop: the entries from `j` on, as many as `left`.
unfoldable pub next_sibling : ℕ → Propvec → ℕ → ℕ → Option ℕ
next_sibling zero pv d j = none
next_sibling (suc left) pv d j =
    let rest = next_sibling left pv d (j + 1) in
    if d == (pv.entry j).depth then some j else if ltb (pv.entry j).depth d then none else rest

abbrev pub with_next : Option ℕ → Entity → Entity
with_next p e = record e { next_on_level = p }

abbrev pub with_prev : Option ℕ → Entity → Entity
with_prev p e = record e { prev_on_level = p }

abbrev pub with_parent : Option ℕ → Entity → Entity
with_parent p e = record e { parent = p }

abbrev pub with_first : Option ℕ → Entity → Entity
with_first p e = record e { first_member = p }

abbrev pub link_pair : ℕ → Option ℕ → Propvec → Propvec
link_pair i none pv = pv
link_pair i (some j) pv = set_entry j (with_prev (some i)) (set_entry i (with_next (some j)) pv)

unfoldable pub link_sibling : ℕ → Propvec → Propvec
link_sibling i pv = link_pair i (next_sibling (pv.count - (i + 1)) pv (pv.entry i).depth (i + 1)) pv

-- `ptr - 1` is the entry before; at the first, whose depth is 0, it is not taken.
unfoldable pub parent_of : ℕ → Option ℕ → Propvec → Option ℕ
parent_of i none pv = if (pv.entry i).depth == 0 then none else some (i - 1)
parent_of i (some p) pv = (pv.entry p).parent

abbrev pub set_first : ℕ → Option ℕ → Option ℕ → Propvec → Propvec
set_first i (some k) p pv = pv
set_first i none none pv = pv
set_first i none (some p) pv = set_entry p (with_first (some i)) pv

abbrev pub set_p_ext : ℕ → Option ℕ → Propvec → Propvec
set_p_ext i none pv = pv
set_p_ext i (some p) pv = set_entry i (λ e. record e { p_ext = (pv.entry p).e_ext }) pv

abbrev pub attach : ℕ → Option ℕ → Option ℕ → Propvec → Propvec
attach i prev parent pv =
    set_p_ext i parent (set_first i prev parent (set_entry i (with_parent parent) pv))

unfoldable pub link_parent : ℕ → Propvec → Propvec
link_parent i pv =
    attach i (pv.entry i).prev_on_level (parent_of i (pv.entry i).prev_on_level pv) pv

-- The first `n` rounds of the loop over all entries.
unfoldable pub link_levels : ℕ → Propvec → Propvec
link_levels zero pv = pv
link_levels (suc n) pv = link_parent n (link_sibling n (link_levels n pv))
