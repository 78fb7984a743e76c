-- ===== src/Cdr/Properties/Keys/Erased.antt =====
-- What erase_key_values leaves.
use cyclonedds_cxx.Common.{
  ℕ, zero, suc, ◌≤◌, false, Option, none, some, List, [], ◌∷◌, length, ◌≡◌, refl, sym, subst, All,
  ◌∙◌, arith,
}
use cyclonedds_cxx.Cdr.Properties.{Entity, Propvec}
use cyclonedds_cxx.Cdr.Properties.Keys.{
  set_entry, without_key, has_key_from, has_keys, erase_from, erase_key_values,
}

-- The entries `is` are those of the level from `p` on.
abbrev pub IsLevel : Propvec → Option ℕ → List ℕ → Type 0
IsLevel pv p [] = p ≡ none
IsLevel pv p (i ∷ is) = (p ≡ some i) × IsLevel pv (pv.entry i).next_on_level is

-- Erasing takes keys away and leaves the chains.
erase_from_next :
    (fuel : ℕ) (pv : Propvec) (p : Option ℕ) (j : ℕ)
    → ((erase_from fuel pv p).entry j).next_on_level ≡ (pv.entry j).next_on_level
unfolding erase_from
erase_from_next zero pv p j = refl
erase_from_next (suc fuel) pv none j = refl
erase_from_next (suc fuel) pv (some i) j =
    erase_from_next fuel (set_entry i without_key pv) (pv.entry i).next_on_level j ∙ ground arith

erase_from_keeps :
    (fuel : ℕ) (pv : Propvec) (p : Option ℕ) (j : ℕ)
    → (pv.entry j).is_key ≡ false
    → ((erase_from fuel pv p).entry j).is_key ≡ false
unfolding erase_from
erase_from_keeps zero pv p j h = h
erase_from_keeps (suc fuel) pv none j h = h
erase_from_keeps (suc fuel) pv (some i) j h =
    erase_from_keeps fuel (set_entry i without_key pv) (pv.entry i).next_on_level j (ground arith)

IsLevel-same :
    (pv q : Propvec)
    → ((j : ℕ) → (q.entry j).next_on_level ≡ (pv.entry j).next_on_level)
    → (p : Option ℕ) (is : List ℕ) → IsLevel pv p is
    → IsLevel q p is
IsLevel-same pv q same p [] h = h
IsLevel-same pv q same p (i ∷ is) (h, hs) =
    (h, subst (λ n. IsLevel q n is) (sym (same i)) (IsLevel-same pv q same _ is hs))

erased_level :
    (fuel : ℕ) (pv : Propvec) (p : Option ℕ) (is : List ℕ)
    → IsLevel pv p is
    → length is ≤ fuel
    → All (λ i. ((erase_from fuel pv p).entry i).is_key ≡ false) is
unfolding erase_from
erased_level fuel pv p [] h len = tt
erased_level zero pv p (i ∷ is) h len = absurd (omega arith)
erased_level (suc fuel) pv none (i ∷ is) (h, hs) len = cc
erased_level (suc fuel) pv (some k) (i ∷ is) (h, hs) len =
    let e : k ≡ i = cc in
    let q = set_entry k without_key pv in
    (
      erase_from_keeps fuel q (pv.entry k).next_on_level i (ground (arith, e)),
      erased_level fuel q (pv.entry k).next_on_level is
          (IsLevel-same pv q (λ j. ground arith) _ is
            (subst (λ x. IsLevel pv (pv.entry x).next_on_level is) (sym e) hs))
          (omega arith),
    )

without_keys :
    (fuel : ℕ) (pv : Propvec) (p : Option ℕ) (is : List ℕ)
    → IsLevel pv p is
    → All (λ i. (pv.entry i).is_key ≡ false) is
    → has_key_from fuel pv p ≡ false
unfolding has_key_from
without_keys zero pv p is h none_set = refl
without_keys (suc fuel) pv p [] h none_set = rw h refl
without_keys (suc fuel) pv p (i ∷ is) (h, hs) (unset, none_set) =
    rw h (ground (arith, unset, without_keys fuel pv _ is hs none_set))

-- Of a level whose entries are `is`, at most as many as the vector holds, erase_key_values leaves
-- no member for which has_keys finds a key.
pub has_keys-erase_key_values :
    (pv : Propvec) (e : Entity) (is : List ℕ)
    → IsLevel pv e.first_member is
    → length is ≤ pv.count
    → has_keys (erase_key_values pv e) e ≡ false
unfolding has_keys erase_key_values
has_keys-erase_key_values pv e is level len =
    let q = erase_from pv.count pv e.first_member in
    without_keys q.count q e.first_member is
      (IsLevel-same pv q (erase_from_next pv.count pv e.first_member) e.first_member is level)
      (erased_level pv.count pv e.first_member is level len)
