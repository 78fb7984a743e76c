-- ===== src/Core/Waitsets/Closing.antt =====
-- Closing a wait set or a condition detaches it everywhere: the loops of WaitSetDelegate::close and
-- ConditionDelegate::detach_from_waitset.
use cyclonedds_cxx.Common.{
  ℕ, ◌≡◌, refl, sym, ap, ◌∙◌, arith, false, List, [], ◌∷◌, ◌==◌, if◌then◌else◌,
}
use cyclonedds_cxx.Core.Waitsets.{World, Action, Calls, ◌>>=◌, check, has}
use cyclonedds_cxx.Core.Waitsets.Attach.{
  remove_waitset, detach_from_one, detach_from_each, detach_from_waitset, shut_waitset,
  shut_condition, forget_entity, close_guard_condition, close_status_condition, detach_each,
  close_waitset,
}
use cyclonedds_cxx.Core.Waitsets.Linked.{
  AreLinked, IsWithout-AreLinked, remove_waitset-has, detach_from_one-has,
}
use cyclonedds_cxx.Time.Result.{Result, ok, throws, undefined}

-- What a sequence of calls does when it returns.
ok_of_elim :
    {L A B : Type 0} (r : Result A) (w : World L) (f : A → Action L B) {b : B}
    → (let m : Action L A = λ _. (r, w) in ((m >>= f) w).0 ≡ ok b)
    → (a : A) × (r ≡ ok a)
ok_of_elim (ok a) w f h = (a, refl)
ok_of_elim (throws e) w f h = cc
ok_of_elim undefined w f h = cc

pub >>=_of_ok :
    {L A B : Type 0} (m : Action L A) (f : A → Action L B) (w : World L) (a : A)
    → (m w).0 ≡ ok a
    → (m >>= f) w ≡ f a (m w).1
>>=_of_ok m f w a e = rw (e, ◌>>=◌)

pub >>=-ok :
    {L A B : Type 0} (m : Action L A) (f : A → Action L B) (w : World L) {b : B}
    → ((m >>= f) w).0 ≡ ok b
    → (a : A) × ((m w).0 ≡ ok a) × ((m >>= f) w ≡ f a (m w).1)
>>=-ok m f w h = let (a, e) = ok_of_elim (m w).0 (m w).1 f h in (a, e, >>=_of_ok m f w a e)

-- In `v`, condition `c` is attached to no wait set of the list, and the other conditions stay where
-- they are in `w`.
abbrev pub IsOff : {L : Type 0} → ℕ → List ℕ → World L → World L → Type 0
IsOff c ss w v =
    (s' c' : ℕ)
    → has s' (v.waitset_list c') ≡ (
        if c' == c
        then if has s' ss then false else has s' (w.waitset_list c')
        else has s' (w.waitset_list c'))

-- In `v`, no condition of the list is attached to wait set `s`, and the other wait sets keep what
-- they have in `w`.
abbrev pub IsBare : {L : Type 0} → ℕ → List ℕ → World L → World L → Type 0
IsBare s cs w v =
    (s' c' : ℕ)
    → has s' (v.waitset_list c') ≡ (
        if s' == s
        then if has c' cs then false else has s' (w.waitset_list c')
        else has s' (w.waitset_list c'))

module _ {L : Type 0} (calls : Calls L) where
  pub detach_from_each-IsOff :
      (c handle : ℕ) (ss : List ℕ) (w : World L)
      → AreLinked w
      → (detach_from_each calls c handle ss w).0 ≡ ok tt
      → AreLinked (detach_from_each calls c handle ss w).1
        × IsOff c ss w (detach_from_each calls c handle ss w).1
  unfolding detach_from_each
  detach_from_each-IsOff c handle [] w a h = (a, λ s' c'. ground arith)
  detach_from_each-IsOff c handle (s ∷ ss) w a h =
      let (u, first, e) =
        >>=-ok (detach_from_one calls c handle s) (λ _. detach_from_each calls c handle ss) w h in
      let without = detach_from_one-has calls c handle s w a first in
      let (linked, off) =
        detach_from_each-IsOff c handle ss (detach_from_one calls c handle s w).1
          (IsWithout-AreLinked c s w (detach_from_one calls c handle s w).1 without a)
          (sym (ap (λ r. r.0) e) ∙ h) in
      rw e (linked, λ s' c'. ground (arith, off s' c', without s' c'))

  pub detach_each-IsBare :
      (s : ℕ) (cs : List ℕ) (w : World L)
      → AreLinked w
      → (detach_each calls s cs w).0 ≡ ok tt
      → AreLinked (detach_each calls s cs w).1 × IsBare s cs w (detach_each calls s cs w).1
  unfolding detach_each
  detach_each-IsBare s [] w a h = (a, λ s' c'. ground arith)
  detach_each-IsBare s (c ∷ cs) w a h =
      let (removed, first, e) =
        >>=-ok (remove_waitset calls c s) (λ _. detach_each calls s cs) w h in
      let without = remove_waitset-has calls c s w removed a first in
      let (linked, bare) =
        detach_each-IsBare s cs (remove_waitset calls c s w).1
          (IsWithout-AreLinked c s w (remove_waitset calls c s w).1 without a)
          (sym (ap (λ r. r.0) e) ∙ h) in
      rw e (linked, λ s' c'. ground (arith, bare s' c', without s' c'))

  close_waitset-eq_ok :
      (s : ℕ) (w : World L)
      → (close_waitset calls s w).0 ≡ ok tt
      → ((detach_each calls s (w.conditions_ s) w).0 ≡ ok tt)
        × ((close_waitset calls s w).1
            ≡ shut_waitset calls s (detach_each calls s (w.conditions_ s) w).1)
  unfolding close_waitset check
  close_waitset-eq_ok s w h = ground arith

  close_guard_condition-eq_ok :
      (c : ℕ) (w : World L)
      → (close_guard_condition calls c w).0 ≡ ok tt
      → ((detach_from_each calls c (w.condition_entity c) (w.waitset_list c) w).0 ≡ ok tt)
        × ((close_guard_condition calls c w).1
            ≡ shut_condition calls c
                (detach_from_each calls c (w.condition_entity c) (w.waitset_list c) w).1)
  unfolding close_guard_condition detach_from_waitset check
  close_guard_condition-eq_ok c w h = ground arith

  close_status_condition-eq_ok :
      (c : ℕ) (w : World L)
      → (close_status_condition calls c w).0 ≡ ok tt
      → ((detach_from_each calls c (w.condition_entity c) (w.waitset_list c) w).0 ≡ ok tt)
        × ((close_status_condition calls c w).1
            ≡ forget_entity calls c
                (detach_from_each calls c (w.condition_entity c) (w.waitset_list c) w).1)
  unfolding close_status_condition detach_from_waitset check
  close_status_condition-eq_ok c w h = ground arith

  -- After a wait set was closed, it is attached to no condition, and every other to what it was.
  pub close_waitset_detaches :
      (s : ℕ) (w : World L)
      → AreLinked w
      → (close_waitset calls s w).0 ≡ ok tt
      → AreLinked (close_waitset calls s w).1
        × ((s' c : ℕ)
            → has s' ((close_waitset calls s w).1.waitset_list c)
              ≡ (if s' == s then false else has s' (w.waitset_list c)))
  close_waitset_detaches s w a h =
      let (returned, e) = close_waitset-eq_ok s w h in
      let (linked, bare) = detach_each-IsBare s (w.conditions_ s) w a returned in
      rw e (linked, λ s' c. ground (arith, bare s' c, a s c))

  -- After a condition was closed, it is attached to no wait set, and every other to what it was.
  pub close_guard_condition_detaches :
      (c : ℕ) (w : World L)
      → AreLinked w
      → (close_guard_condition calls c w).0 ≡ ok tt
      → AreLinked (close_guard_condition calls c w).1
        × ((s c' : ℕ)
            → has s ((close_guard_condition calls c w).1.waitset_list c')
              ≡ (if c' == c then false else has s (w.waitset_list c')))
  close_guard_condition_detaches c w a h =
      let (returned, e) = close_guard_condition-eq_ok c w h in
      let (linked, off) =
        detach_from_each-IsOff c (w.condition_entity c) (w.waitset_list c) w a returned in
      rw e (linked, λ s c'. ground (arith, off s c'))

  pub close_status_condition_detaches :
      (c : ℕ) (w : World L)
      → AreLinked w
      → (close_status_condition calls c w).0 ≡ ok tt
      → AreLinked (close_status_condition calls c w).1
        × ((s c' : ℕ)
            → has s ((close_status_condition calls c w).1.waitset_list c')
              ≡ (if c' == c then false else has s (w.waitset_list c')))
  close_status_condition_detaches c w a h =
      let (returned, e) = close_status_condition-eq_ok c w h in
      let (linked, off) =
        detach_from_each-IsOff c (w.condition_entity c) (w.waitset_list c) w a returned in
      rw e (linked, λ s c'. ground (arith, off s c'))
