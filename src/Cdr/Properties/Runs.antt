-- ===== src/Cdr/Properties/Runs.antt =====
-- The theorems on the links of entries and on keys at a concrete type:
-- struct { long a; struct { long x; long y; } b; long c; }.
use cyclonedds_cxx.Common.{
  ℕ, ◌≡◌, refl, arith, true, false, Option, none, some, [], ◌∷◌, ◌==◌, if◌then◌else◌,
}
use cyclonedds_cxx.Cdr.Properties.{Propvec, entity, ext_final, bb_unset}
use cyclonedds_cxx.Cdr.Properties.Keys.{erase_key_values, erase_from, has_keys, has_key_from}
use cyclonedds_cxx.Cdr.Properties.Linking.{
  link_levels, link_parent, link_sibling, next_sibling, parent_of,
}
use cyclonedds_cxx.Cdr.Properties.Linking.Levels.{IsWalk}
use cyclonedds_cxx.Cdr.Properties.Linking.Invariant.{IsBlank, IsLinked}
use cyclonedds_cxx.Cdr.Properties.Linking.Rounds.{link_levels-IsLinked}
use cyclonedds_cxx.Cdr.Properties.Endpoints.{
  no_more, key, add_key_endpoint, add_key, add_keys, prepare_keys, member_from, set_key_values,
  set_key_from,
}
use cyclonedds_cxx.Cdr.Properties.Endpoints.Paths.{contains, contains-add_key_endpoint}
use cyclonedds_cxx.Cdr.Properties.KeyChains.{
  link_sorted_all, link_unsorted_from, link_keys_unsorted, finish, necessary_from, link_unsorted,
  link_keys_sorted, link_sorted_from, link_sorted, map_id,
}
use cyclonedds_cxx.Cdr.Properties.KeyChains.Sorted.{IsChain, link_sorted_all-IsChain}

abbrev depth_at : ℕ → ℕ
depth_at i = if i == 0 then 0 else if i == 3 then 2 else if i == 4 then 2 else 1

abbrev nested : Propvec
nested = record { count = 6; entry = λ i. entity (depth_at i) i false bb_unset ext_final false }

-- The type of b, and the vector when b has been put there.
abbrev inner_type : Propvec
inner_type = record {
  count = 3;
  entry = λ i. entity (if i == 0 then 0 else 1) i false bb_unset ext_final false;
}

abbrev outer_type : Propvec
outer_type = record {
  count = 3;
  entry = λ i. entity (if i == 0 then 0 else 1) i false bb_unset ext_final false;
}

nested-IsWalk : IsWalk nested
unfolding entity
nested-IsWalk = record { root = refl; below = λ i h. ground arith; descent = λ i h. ground arith }

nested-IsBlank : IsBlank nested
unfolding entity
nested-IsBlank = record { no_next = λ i. refl; no_prev = λ i. refl; no_first = λ i. refl }

link_levels-IsLinked_example : IsLinked nested (link_levels 6 nested) 6
link_levels-IsLinked_example = link_levels-IsLinked nested nested-IsWalk nested-IsBlank

contains-add_key_endpoint_example :
    contains (2 ∷ 1 ∷ []) (add_key_endpoint (2 ∷ 1 ∷ []) (key 1 no_more no_more)) ≡ true
contains-add_key_endpoint_example =
    contains-add_key_endpoint (2 ∷ 1 ∷ []) (2 ∷ 1 ∷ []) (key 1 no_more no_more)

-- The keys c and a, by their ids 1 and 5.
link_sorted_all-IsChain_example :
    let q = link_sorted_all 0 none ((1, 5) ∷ (5, 1) ∷ []) nested in
    IsChain q none (q.entry 0).first_sorted_key (5 ∷ 1 ∷ [])
unfolding entity
link_sorted_all-IsChain_example =
    link_sorted_all-IsChain 0 ((1, 5) ∷ (5, 1) ∷ []) nested refl
      (λ e. omega arith, refl, (λ e. omega arith, tt), (λ e. omega arith, refl, tt, tt))

-- The key is y of b: the chain of keys of the type has b, and that of b has y.
abbrev finished : Option Propvec
finished = finish nested (key 2 (key 4 no_more no_more) no_more)

abbrev key_chain : Option Propvec → ℕ → Option ℕ × Option ℕ
key_chain none i = (none, none)
key_chain (some q) i = ((q.entry i).first_sorted_key, (q.entry i).next_sorted_key)

finish_nested : (key_chain finished 0).0 ≡ some 2
unfolding finish link_levels link_parent link_sibling next_sibling parent_of entity necessary_from
    add_key add_keys prepare_keys member_from erase_key_values erase_from has_keys has_key_from
    set_key_values set_key_from link_keys_unsorted link_unsorted_from link_unsorted link_keys_sorted
    link_sorted_from link_sorted_all link_sorted map_id
finish_nested = refl

finish_inner : key_chain finished 2 ≡ (some 4, none)
unfolding finish link_levels link_parent link_sibling next_sibling parent_of entity necessary_from
    add_key add_keys prepare_keys member_from erase_key_values erase_from has_keys has_key_from
    set_key_values set_key_from link_keys_unsorted link_unsorted_from link_unsorted link_keys_sorted
    link_sorted_from link_sorted_all link_sorted map_id
finish_inner = refl
