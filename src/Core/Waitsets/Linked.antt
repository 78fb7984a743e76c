-- ===== src/Core/Waitsets/Linked.antt =====
-- Wait sets and conditions agree on what is attached: `c` keeps `s` in its list exactly if `s` keeps
-- `c` in its map.
use cyclonedds_cxx.Common.{ℕ, ◌≡◌, arith, Bool, true, false, List, [], ◌∷◌, ◌==◌, if◌then◌else◌}
use cyclonedds_cxx.Core.Waitsets.{
  World, Calls, check, has, insert, erase, get_ddsc_entity, add_condition_locked,
  remove_condition_locked,
}
use cyclonedds_cxx.Core.Waitsets.Attach.{
  list_waitset, unlist_waitset, add_waitset, remove_waitset, detach_from_one,
}
use cyclonedds_cxx.Time.Result.{ok}

pub has-insert : (i k : ℕ) (l : List ℕ) → has i (insert k l) ≡ (if i == k then true else has i l)
unfolding insert
has-insert i k l = ground arith

pub has-erase : (i k : ℕ) (l : List ℕ) → has i (erase k l) ≡ (if i == k then false else has i l)
unfolding erase
has-erase i k [] = ground arith
has-erase i k (x ∷ l) = ground (arith, has-erase i k l)

module _ {L : Type 0} where
  abbrev pub AreLinked : World L → Type 0
  AreLinked w = (s c : ℕ) → has s (w.waitset_list c) ≡ has c (w.conditions_ s)

  -- `v` is `w` where this condition is no longer attached to this wait set, on either side.
  abbrev pub IsWithout : ℕ → ℕ → World L → World L → Type 0
  IsWithout c s w v =
      (s' c' : ℕ)
      → (has s' (v.waitset_list c') ≡ (
          if s' == s
          then if c' == c then false else has s' (w.waitset_list c')
          else has s' (w.waitset_list c')))
        × (has c' (v.conditions_ s') ≡ (
            if s' == s
            then if c' == c then false else has c' (w.conditions_ s')
            else has c' (w.conditions_ s')))

  pub IsWithout-AreLinked :
      (c s : ℕ) (w v : World L) → IsWithout c s w v → AreLinked w → AreLinked v
  IsWithout-AreLinked c s w v h a s' c' = ground (arith, h s' c', a s' c')

module _ {L : Type 0} (calls : Calls L) where
  pub add_condition_locked-has :
      (s c : ℕ) (w : World L)
      → (add_condition_locked calls s c w).0 ≡ ok tt
      → (s' c' : ℕ)
      → (has c' ((add_condition_locked calls s c w).1.conditions_ s') ≡ (
          if s' == s
          then if c' == c then true else has c' (w.conditions_ s')
          else has c' (w.conditions_ s')))
        × ((add_condition_locked calls s c w).1.waitset_list c' ≡ w.waitset_list c')
  unfolding add_condition_locked get_ddsc_entity check
  add_condition_locked-has s c w h s' c' = ground (arith, has-insert c' c (w.conditions_ s))

  pub remove_condition_locked-has :
      (s c handle : ℕ) (w : World L)
      → (remove_condition_locked calls s c handle w).0 ≡ ok tt
      → (s' c' : ℕ)
      → (has c' ((remove_condition_locked calls s c handle w).1.conditions_ s') ≡ (
          if s' == s
          then if c' == c then false else has c' (w.conditions_ s')
          else has c' (w.conditions_ s')))
        × ((remove_condition_locked calls s c handle w).1.waitset_list c' ≡ w.waitset_list c')
  unfolding remove_condition_locked get_ddsc_entity check
  remove_condition_locked-has s c handle w h s' c' =
      ground (arith, has-erase c' c (w.conditions_ s))

  pub add_waitset-AreLinked :
      (c s : ℕ) (w : World L)
      → AreLinked w
      → (add_waitset calls c s w).0 ≡ ok tt
      → AreLinked (add_waitset calls c s w).1
  unfolding add_waitset
  add_waitset-AreLinked c s w a h s' c' = ground (
    arith,
    a s c,
    a s' c',
    has-insert s' s (w.waitset_list c),
    λ (e : (add_condition_locked calls s c (list_waitset c s w)).0 ≡ ok tt).
        add_condition_locked-has s c (list_waitset c s w) e s' c',
  )

  pub remove_waitset-has :
      (c s : ℕ) (w : World L) (r : Bool)
      → AreLinked w
      → (remove_waitset calls c s w).0 ≡ ok r
      → IsWithout c s w (remove_waitset calls c s w).1
  unfolding remove_waitset
  remove_waitset-has c s w r a h s' c' = ground (
    arith,
    a s c,
    has-erase s' s (w.waitset_list c),
    λ (e : (remove_condition_locked calls s c 0 (unlist_waitset c s w)).0 ≡ ok tt).
        remove_condition_locked-has s c 0 (unlist_waitset c s w) e s' c',
  )

  pub detach_from_one-has :
      (c handle s : ℕ) (w : World L)
      → AreLinked w
      → (detach_from_one calls c handle s w).0 ≡ ok tt
      → IsWithout c s w (detach_from_one calls c handle s w).1
  unfolding detach_from_one check
  detach_from_one-has c handle s w a h s' c' = ground (
    arith,
    a s c,
    has-erase s' s (w.waitset_list c),
    λ (e : (remove_condition_locked calls s c handle (unlist_waitset c s w)).0 ≡ ok tt).
        remove_condition_locked-has s c handle (unlist_waitset c s w) e s' c',
  )
