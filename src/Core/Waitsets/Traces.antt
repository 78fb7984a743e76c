-- ===== src/Core/Waitsets/Traces.antt =====
-- Sequences of operations on wait sets and conditions.
use cyclonedds_cxx.Common.{ℕ, ◌≡◌, ◌≢◌, sym, ap, ◌∙◌, arith, Bool, false, List, [], ◌∷◌}
use cyclonedds_cxx.Core.Waitsets.{
  World, Action, Calls, ◌>>=◌, ◌>>◌, pure, check, has, get_ddsc_entity, add_condition_locked,
}
use cyclonedds_cxx.Core.Waitsets.Attach.{
  list_waitset, add_waitset, remove_waitset, attach_condition, detach_condition,
  close_guard_condition, close_status_condition, close_waitset,
}
use cyclonedds_cxx.Core.Waitsets.Linked.{
  AreLinked, add_waitset-AreLinked, remove_waitset-has, has-insert,
}
use cyclonedds_cxx.Core.Waitsets.Closing.{
  >>=-ok, close_waitset_detaches, close_guard_condition_detaches, close_status_condition_detaches,
}
use cyclonedds_cxx.Time.Result.{ok}

pub data Operation : Type 0 where
  attaches detaches : ℕ → ℕ → Operation
  closes_waitset closes_guard closes_status : ℕ → Operation

module _ {L : Type 0} (calls : Calls L) where
  unfoldable pub perform : Operation → Action L (Unit {0})
  perform (attaches s c) = attach_condition calls s c
  perform (detaches s c) = do removed ← detach_condition calls s c; pure tt
  perform (closes_waitset s) = close_waitset calls s
  perform (closes_guard c) = close_guard_condition calls c
  perform (closes_status c) = close_status_condition calls c

  unfoldable pub perform_all : List Operation → Action L (Unit {0})
  perform_all [] = pure tt
  perform_all (o ∷ os) = let rest = perform_all os in (do perform o; rest)

  attach_condition-AreLinked :
      (s c : ℕ) (w : World L)
      → AreLinked w
      → (attach_condition calls s c w).0 ≡ ok tt
      → AreLinked (attach_condition calls s c w).1
  unfolding attach_condition check
  attach_condition-AreLinked s c w a h s' c' = ground (
    arith,
    λ (e : (add_waitset calls c s w).0 ≡ ok tt). add_waitset-AreLinked calls c s w a e s' c',
  )

  detach_condition-AreLinked :
      (s c : ℕ) (w : World L)
      → AreLinked w
      → (removed : Bool) → (detach_condition calls s c w).0 ≡ ok removed
      → AreLinked (detach_condition calls s c w).1
  unfolding detach_condition check
  detach_condition-AreLinked s c w a removed h s' c' = ground (
    arith,
    a s' c',
    λ (e : (remove_waitset calls c s w).0 ≡ ok removed).
        remove_waitset-has calls c s w removed a e s' c',
  )

  perform-AreLinked :
      (o : Operation) (w : World L)
      → AreLinked w
      → (perform o w).0 ≡ ok tt
      → AreLinked (perform o w).1
  unfolding perform
  perform-AreLinked (attaches s c) w a h = attach_condition-AreLinked s c w a h
  perform-AreLinked (detaches s c) w a h =
      let (removed, returned, e) = >>=-ok (detach_condition calls s c) (λ _. pure tt) w h in
      rw e (detach_condition-AreLinked s c w a removed returned)
  perform-AreLinked (closes_waitset s) w a h = (close_waitset_detaches calls s w a h).0
  perform-AreLinked (closes_guard c) w a h = (close_guard_condition_detaches calls c w a h).0
  perform-AreLinked (closes_status c) w a h = (close_status_condition_detaches calls c w a h).0

  -- After any sequence of calls that return, a condition lists a wait set exactly if the wait set
  -- keeps the condition, where this held before.
  pub perform_all-AreLinked :
      (os : List Operation) (w : World L)
      → AreLinked w
      → (perform_all os w).0 ≡ ok tt
      → AreLinked (perform_all os w).1
  unfolding perform_all
  perform_all-AreLinked [] w a h = a
  perform_all-AreLinked (o ∷ os) w a h =
      let (u, first, e) = >>=-ok (perform o) (λ _. perform_all os) w h in
      rw e (
        perform_all-AreLinked os (perform o w).1 (perform-AreLinked o w a first)
          (sym (ap (λ r. r.0) e) ∙ h))

  add_condition_locked_failed :
      (s c : ℕ) (w : World L)
      → (add_condition_locked calls s c w).0 ≢ ok tt
      → ((add_condition_locked calls s c w).1.conditions_ ≡ w.conditions_)
        × ((add_condition_locked calls s c w).1.waitset_list ≡ w.waitset_list)
        × ((add_condition_locked calls s c w).1.waitset_closed ≡ w.waitset_closed)
        × (has c (w.conditions_ s) ≡ false)
  unfolding add_condition_locked get_ddsc_entity check
  add_condition_locked_failed s c w h = ground arith

  -- Where attaching a condition fails after the condition has listed the wait set, attaching it
  -- again returns, and the wait set still does not keep it.
  pub attach_condition_again :
      (s c : ℕ) (w : World L)
      → w.waitset_closed s ≡ false
      → has s (w.waitset_list c) ≡ false
      → (attach_condition calls s c w).0 ≢ ok tt
      → let again = attach_condition calls s c (attach_condition calls s c w).1 in
        (again.0 ≡ ok tt) × (has c (again.1.conditions_ s) ≡ false)
  unfolding attach_condition add_waitset check
  attach_condition_again s c w opened unlisted failed = ground (
    arith,
    has-insert s s (w.waitset_list c),
    add_condition_locked_failed s c (list_waitset c s w),
  )
