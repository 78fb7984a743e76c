-- ===== src/Cdr/Properties.antt =====
-- entity_properties of entity_properties.hpp and its steps from member to member
-- (entity_properties.cpp). A propvec is a heap of entries, and a pointer into it an index.
pub mod Keys
pub mod Linking
pub mod Endpoints
pub mod KeyChains
mod Runs
use cyclonedds_cxx.Common.{ℕ, zero, suc, Bool, true, false, ◌||◌, not, Option, none, some, ◌==◌}
use cyclonedds_cxx.Cdr.State.{KeyMode}

pub data Extensibility : Type 0 where
  ext_final ext_appendable ext_mutable : Extensibility

abbrev pub is_mutable : Extensibility → Bool
is_mutable ext_mutable = true
is_mutable ext_final = false
is_mutable ext_appendable = false

abbrev pub is_final : Extensibility → Bool
is_final ext_final = true
is_final ext_appendable = false
is_final ext_mutable = false

pub data BitBound : Type 0 where
  bb_unset bb_8_bits bb_16_bits bb_32_bits bb_64_bits : BitBound

abbrev pub is_unset : BitBound → Bool
is_unset bb_unset = true
is_unset bb_8_bits = false
is_unset bb_16_bits = false
is_unset bb_32_bits = false
is_unset bb_64_bits = false

pub record Entity : Type 0 where
  pub e_ext : Extensibility
  pub p_ext : Extensibility
  pub m_id : ℕ
  pub depth : ℕ
  pub must_understand : Bool
  pub xtypes_necessary : Bool
  pub is_optional : Bool
  pub is_key : Bool
  pub e_bb : BitBound
  pub parent : Option ℕ
  pub prev_on_level : Option ℕ
  pub next_on_level : Option ℕ
  pub first_member : Option ℕ
  pub prev_unsorted_key : Option ℕ
  pub next_unsorted_key : Option ℕ
  pub first_unsorted_key : Option ℕ
  pub prev_sorted_key : Option ℕ
  pub next_sorted_key : Option ℕ
  pub first_sorted_key : Option ℕ

-- The constructor entity_properties.
unfoldable pub entity : ℕ → ℕ → Bool → BitBound → Extensibility → Bool → Entity
entity d id optional bb ext understand = record {
  e_ext = ext;
  p_ext = ext_final;
  m_id = id;
  depth = d;
  must_understand = understand;
  xtypes_necessary = not (is_final ext) || optional;
  is_optional = optional;
  is_key = false;
  e_bb = bb;
  parent = none;
  prev_on_level = none;
  next_on_level = none;
  first_member = none;
  prev_unsorted_key = none;
  next_unsorted_key = none;
  first_unsorted_key = none;
  prev_sorted_key = none;
  next_sorted_key = none;
  first_sorted_key = none;
}

pub record Propvec : Type 0 where
  pub count : ℕ
  pub entry : ℕ → Entity

-- The default case is an assertion, and returns a null pointer where assertions are off.
unfoldable pub first_entity : KeyMode → Entity → Option ℕ
first_entity KeyMode.not_key e = e.first_member
first_entity KeyMode.unsorted e = e.first_unsorted_key
first_entity KeyMode.sorted e = e.first_sorted_key
first_entity KeyMode.unset e = none

unfoldable pub next_entity : KeyMode → Entity → Option ℕ
next_entity KeyMode.not_key e = e.next_on_level
next_entity KeyMode.unsorted e = e.next_unsorted_key
next_entity KeyMode.sorted e = e.next_sorted_key
next_entity KeyMode.unset e = none

unfoldable pub previous_entity : KeyMode → Entity → Option ℕ
previous_entity KeyMode.not_key e = e.prev_on_level
previous_entity KeyMode.unsorted e = e.prev_unsorted_key
previous_entity KeyMode.sorted e = e.prev_sorted_key
previous_entity KeyMode.unset e = none

-- `while (p && p->m_id != id) p = step(p);` with fuel: no chain is longer than the vector.
unfoldable pub search_from : ℕ → (Entity → Option ℕ) → Propvec → ℕ → Option ℕ → Option ℕ
search_from zero step pv id p = none
search_from (suc fuel) step pv id none = none
search_from (suc fuel) step pv id (some i) = elim ((pv.entry i).m_id == id) [
  | true ↦ some i
  | false ↦ search_from fuel step pv id (step (pv.entry i))
]
