-- ===== src/Qos/Properties/View.antt =====
-- A property policy against the function from names that it stands for.
use cyclonedds_cxx.Common.{
  Bool, true, false, Option, some, none, ◌≡◌, ◌≢◌, refl, sym, ap, arith, Bool-cases, inl, inr,
}
use cyclonedds_cxx.Common.Maps.{
  IsMap, lookup-insert, lookup-insert_ne, lookup-erase, lookup-erase_ne, insert-IsMap, erase-IsMap,
}
use cyclonedds_cxx.Time.Result.{ok, throws, precondition_not_met}
use cyclonedds_cxx.Qos.Policies.{Text}
use cyclonedds_cxx.Qos.Properties.{
  Text-discrete, Properties, is_some, set, get, exists, remove, propagate, without,
}
use mathlib.Core.List.{lookup}

module _ {V : Type 0} where
  abbrev value_at : Text → Properties V → Option V
  value_at n ps = lookup Text-discrete n ps.props

  abbrev flag_at : Text → Properties V → Option Bool
  flag_at n ps = lookup Text-discrete n ps.props_to_propagate

  -- Both maps have unique keys, and they have the same ones.
  abbrev pub IsWellFormed : Properties V → Type 0
  IsWellFormed ps =
      IsMap Text-discrete ps.props
      × IsMap Text-discrete ps.props_to_propagate
      × ((n : Text) → is_some (value_at n ps) ≡ is_some (flag_at n ps))

  abbrev both : Option V → Option Bool → Option (V × Bool)
  both none b = none
  both (some v) none = none
  both (some v) (some b) = some (v, b)

  -- The value and the flag of each name that has a property.
  abbrev pub view : Properties V → Text → Option (V × Bool)
  view ps n = both (value_at n ps) (flag_at n ps)

  -- What the functions that read answer, by the property of the name.
  abbrev pub Answers : Text → Properties V → Option (V × Bool) → Type 0
  Answers n ps none =
      (get n ps ≡ throws precondition_not_met)
      × (propagate n ps ≡ throws precondition_not_met)
      × (exists n ps ≡ false)
  Answers n ps (some (v, b)) = (get n ps ≡ ok v) × (propagate n ps ≡ ok b) × (exists n ps ≡ true)

  pub read-view : (ps : Properties V) (n : Text) → IsWellFormed ps → Answers n ps (view ps n)
  unfolding get propagate exists
  read-view ps n (m, m', same) = ground (arith, same n)

  -- The property of a name is another one, and those of all other names are as they were.
  abbrev pub Becomes : Text → Option (V × Bool) → Properties V → Properties V → Type 0
  Becomes k o ps ps' = (view ps' k ≡ o) × ((q : Text) → q ≢ k → view ps' q ≡ view ps q)

  pub set-Becomes :
      (ps : Properties V) (k : Text) (v : V) (b : Bool) → Becomes k (some (v, b)) ps (set k v b ps)
  unfolding set
  set-Becomes ps k v b = (
    rw (
      lookup-insert Text-discrete k v ps.props,
      lookup-insert Text-discrete k b ps.props_to_propagate,
    ),
    λ q ne. rw (
      lookup-insert_ne Text-discrete k q v ps.props ne,
      lookup-insert_ne Text-discrete k q b ps.props_to_propagate ne,
    ),
  )

  pub set-IsWellFormed :
      (ps : Properties V) (k : Text) (v : V) (b : Bool)
      → IsWellFormed ps
      → IsWellFormed (set k v b ps)
  unfolding set
  set-IsWellFormed ps k v b (m, m', same) = (
    insert-IsMap Text-discrete k v ps.props m,
    insert-IsMap Text-discrete k b ps.props_to_propagate m',
    λ n. elim (Text-discrete n k) [
      | yes e ↦ rw (
        e,
        lookup-insert Text-discrete k v ps.props,
        lookup-insert Text-discrete k b ps.props_to_propagate,
      )
      | no ne ↦
          rw
            (
              lookup-insert_ne Text-discrete k n v ps.props ne,
              lookup-insert_ne Text-discrete k n b ps.props_to_propagate ne,
            )
            (same n)
    ],
  )

  without-Becomes :
      (ps : Properties V) (k : Text) → IsWellFormed ps → Becomes k none ps (without k ps)
  without-Becomes ps k (m, m', same) = (
    rw (lookup-erase Text-discrete k ps.props m),
    λ q ne. rw (
      lookup-erase_ne Text-discrete k q ps.props ne,
      lookup-erase_ne Text-discrete k q ps.props_to_propagate ne,
    ),
  )

  without-IsWellFormed :
      (ps : Properties V) (k : Text) → IsWellFormed ps → IsWellFormed (without k ps)
  without-IsWellFormed ps k (m, m', same) = (
    erase-IsMap Text-discrete k ps.props m,
    erase-IsMap Text-discrete k ps.props_to_propagate m',
    λ n. elim (Text-discrete n k) [
      | yes e ↦ rw (
        e,
        lookup-erase Text-discrete k ps.props m,
        lookup-erase Text-discrete k ps.props_to_propagate m',
      )
      | no ne ↦
          rw
            (
              lookup-erase_ne Text-discrete k n ps.props ne,
              lookup-erase_ne Text-discrete k n ps.props_to_propagate ne,
            )
            (same n)
    ],
  )

  absent_view : (ps : Properties V) (k : Text) → exists k ps ≡ false → view ps k ≡ none
  unfolding exists
  absent_view ps k e = ground arith

  present_view :
      (ps : Properties V) (k : Text)
      → IsWellFormed ps
      → exists k ps ≡ true
      → is_some (view ps k) ≡ true
  unfolding exists
  present_view ps k (m, m', same) e = ground (arith, same k)

  -- What remove answers, and what it leaves.
  abbrev pub Removes : Text → Properties V → Bool × Properties V → Type 0
  Removes k ps r = (r.0 ≡ is_some (view ps k)) × Becomes k none ps r.1 × IsWellFormed r.1

  remove-Removes : (ps : Properties V) (k : Text) → IsWellFormed ps → Removes k ps (remove k ps)
  unfolding remove
  remove-Removes ps k h = elim (Bool-cases (exists k ps)) [
    | inl e ↦
        rw e (sym (present_view ps k h e), without-Becomes ps k h, without-IsWellFormed ps k h)
    | inr e ↦ rw e (sym (ap is_some (absent_view ps k e)), (absent_view ps k e, λ q ne. refl), h)
  ]

  -- On a property policy whose two maps have the same unique keys, get, propagate and exists answer
  -- by the property of the name, set gives the name its property and changes no other, and remove
  -- tells whether there was one, takes it away and changes no other; the maps of what set and remove
  -- leave have the same unique keys again.
  pub map_operations :
      (ps : Properties V) (k : Text) (v : V) (b : Bool)
      → IsWellFormed ps
      → Answers k ps (view ps k)
        × (Becomes k (some (v, b)) ps (set k v b ps) × IsWellFormed (set k v b ps))
        × Removes k ps (remove k ps)
  map_operations ps k v b h =
      (read-view ps k h, (set-Becomes ps k v b, set-IsWellFormed ps k v b h), remove-Removes ps k h)
