-- ===== src/Core/Waitsets/Attach.antt =====
-- Attaching conditions to wait sets and detaching them again, by the wait set, by the condition and
-- on close: ConditionDelegate.cpp, WaitSetDelegate.cpp, GuardConditionDelegate.cpp,
-- StatusConditionDelegate.cpp and DDScObjectDelegate::close. The map from handles to delegates is
-- left out, and no delegate's destructor runs.
use cyclonedds_cxx.Common.{ℕ, Bool, true, false, List, [], ◌∷◌, ◌==◌, if◌then◌else◌}
use cyclonedds_cxx.Time.Result.{ok}
use cyclonedds_cxx.Core.Waitsets.{
  World, Action, Calls, ◌>>=◌, ◌>>◌, pure, gets, modify, check, has, insert, erase, set_at,
  add_condition_locked, remove_condition_locked,
}

module _ {L : Type 0} where
  abbrev pub list_waitset : ℕ → ℕ → World L → World L
  list_waitset c s w = record w {
    waitset_list = set_at c (insert s (w.waitset_list c)) w.waitset_list;
  }

  abbrev pub unlist_waitset : ℕ → ℕ → World L → World L
  unlist_waitset c s w = record w {
    waitset_list = set_at c (erase s (w.waitset_list c)) w.waitset_list;
  }

module _ {L : Type 0} (calls : Calls L) where
  unfoldable pub add_waitset : ℕ → ℕ → Action L (Unit {0})
  add_waitset c s w =
      if has s (w.waitset_list c)
      then (ok tt, w)
      else add_condition_locked calls s c (list_waitset c s w)

  unfoldable pub remove_waitset : ℕ → ℕ → Action L Bool
  remove_waitset c s w =
      let remove_it : Action L Bool = (do remove_condition_locked calls s c 0; pure true) in
      if has s (w.waitset_list c) then remove_it (unlist_waitset c s w) else (ok false, w)

  unfoldable pub attach_condition : ℕ → ℕ → Action L (Unit {0})
  unfolding check
  attach_condition s c = do check (λ w. w.waitset_closed s); add_waitset c s

  unfoldable pub detach_condition : ℕ → ℕ → Action L Bool
  unfolding check
  detach_condition s c = do check (λ w. w.waitset_closed s); remove_waitset c s

  -- One round of the loop of ConditionDelegate::detach_from_waitset, and the loop over its copy of
  -- the list.
  unfoldable pub detach_from_one : ℕ → ℕ → ℕ → Action L (Unit {0})
  unfolding check
  detach_from_one c handle s =
      let one : Action L (Unit {0}) = λ w.
        if has s (w.waitset_list c)
        then remove_condition_locked calls s c handle (unlist_waitset c s w)
        else (ok tt, w) in
      (do check (λ w. w.waitset_closed s); one)

  unfoldable pub detach_from_each : ℕ → ℕ → List ℕ → Action L (Unit {0})
  detach_from_each c handle [] = pure tt
  detach_from_each c handle (s ∷ ss) =
      let rest = detach_from_each c handle ss in (do detach_from_one c handle s; rest)

  unfoldable pub detach_from_waitset : ℕ → ℕ → Action L (Unit {0})
  detach_from_waitset c handle w = detach_from_each c handle (w.waitset_list c) w

  abbrev pub delete_entity : ℕ → L → L
  delete_entity e l = if e == 0 then l else calls.delete e l

  -- ConditionDelegate::close, with DDScObjectDelegate::close.
  abbrev pub shut_condition : ℕ → World L → World L
  shut_condition c w = record w {
    library = delete_entity (w.condition_entity c) w.library;
    condition_entity = set_at c 0 w.condition_entity;
    condition_closed = set_at c true w.condition_closed;
    functor = set_at c false w.functor;
  }

  -- GuardConditionDelegate::close, with ConditionDelegate::detach_and_close.
  unfoldable pub close_guard_condition : ℕ → Action L (Unit {0})
  unfolding check
  close_guard_condition c = do
    check (λ w. w.condition_closed c)
    handle ← gets (λ w. w.condition_entity c)
    detach_from_waitset c handle
    modify (shut_condition c)

  abbrev pub forget_entity : ℕ → World L → World L
  forget_entity c w = record w { condition_entity = set_at c 0 w.condition_entity }

  -- StatusConditionDelegate::close: the handle is the entity's, which stays open.
  unfoldable pub close_status_condition : ℕ → Action L (Unit {0})
  unfolding check
  close_status_condition c = do
    check (λ w. w.condition_closed c)
    handle ← gets (λ w. w.condition_entity c)
    detach_from_waitset c handle
    modify (forget_entity c)

  -- The loop of WaitSetDelegate::close over its copy of the conditions.
  unfoldable pub detach_each : ℕ → List ℕ → Action L (Unit {0})
  detach_each s [] = pure tt
  detach_each s (c ∷ cs) = let rest = detach_each s cs in (do removed ← remove_waitset c s; rest)

  -- DDScObjectDelegate::close of a wait set.
  abbrev pub shut_waitset : ℕ → World L → World L
  shut_waitset s w = record w {
    library = delete_entity (w.waitset_entity s) w.library;
    waitset_entity = set_at s 0 w.waitset_entity;
    waitset_closed = set_at s true w.waitset_closed;
  }

  unfoldable pub close_waitset : ℕ → Action L (Unit {0})
  unfolding check
  close_waitset s = do
    check (λ w. w.waitset_closed s)
    conditions ← gets (λ w. w.conditions_ s)
    detach_each s conditions
    modify (shut_waitset s)
