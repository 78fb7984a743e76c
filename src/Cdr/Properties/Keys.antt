-- ===== src/Cdr/Properties/Keys.antt =====
-- The key flags of members: has_keys, erase_key_values and append_struct_contents of
-- entity_properties.cpp.
pub mod Erased
use cyclonedds_cxx.Common.{
  ℕ, zero, suc, ◌+◌, ◌-◌, Bool, false, true, Option, none, some, ◌==◌, ltb, if◌then◌else◌,
}
use cyclonedds_cxx.Cdr.Properties.{Entity, Propvec}

-- `ptr->...` is set on the entry with this index.
abbrev pub set_entry : ℕ → (Entity → Entity) → Propvec → Propvec
set_entry i f pv = record pv { entry = λ j. if j == i then f (pv.entry j) else pv.entry j }

-- The loops over the members of a level, with fuel: no chain is longer than the vector.
unfoldable pub has_key_from : ℕ → Propvec → Option ℕ → Bool
has_key_from zero pv p = false
has_key_from (suc fuel) pv none = false
has_key_from (suc fuel) pv (some i) =
    let rest = has_key_from fuel pv (pv.entry i).next_on_level in
    if (pv.entry i).is_key then true else rest

unfoldable pub has_keys : Propvec → Entity → Bool
has_keys pv e = has_key_from pv.count pv e.first_member

abbrev pub without_key : Entity → Entity
without_key e = record e { is_key = false }

unfoldable pub erase_from : ℕ → Propvec → Option ℕ → Propvec
erase_from zero pv p = pv
erase_from (suc fuel) pv none = pv
erase_from (suc fuel) pv (some i) =
    erase_from fuel (set_entry i without_key pv) (pv.entry i).next_on_level

unfoldable pub erase_key_values : Propvec → Entity → Propvec
erase_key_values pv e = erase_from pv.count pv e.first_member

-- An entry of a member's type as it is appended behind the member.
unfoldable pub appended : Entity → Entity
appended e = record e {
  depth = e.depth + 1;
  next_on_level = none;
  prev_on_level = none;
  parent = none;
  first_member = none;
  first_unsorted_key = none;
  first_sorted_key = none;
  next_unsorted_key = none;
  next_sorted_key = none;
  prev_unsorted_key = none;
  prev_sorted_key = none;
}

-- The first entry of `toappend`, its root, is left out.
unfoldable pub append_struct_contents : Propvec → Propvec → Propvec
append_struct_contents appendto toappend = record {
  count = appendto.count + (toappend.count - 1);
  entry = λ j.
      if ltb j appendto.count
      then appendto.entry j
      else appended (toappend.entry (j - appendto.count + 1));
}
