-- ===== src/Core/Waitsets/Waiting.antt =====
-- WaitSetDelegate::wait and dispatch, and ConditionDelegate::dispatch. A functor of the program may
-- change what the library holds, but not the delegates.
use cyclonedds_cxx.Common.{
  ℕ, zero, suc, Bool, not, ◌&&◌, List, [], ◌∷◌, ◌++◌, length, min, if◌then◌else◌,
}
use cyclonedds_cxx.Common.Int.{ℤ, pos, negsuc, eq_ℤ}
use cyclonedds_cxx.Core.Reports.{check_ddsc_result}
use cyclonedds_cxx.Core.Waitsets.{Action, Calls, ◌>>=◌, ◌>>◌, pure, gets, modify, run, check}
use cyclonedds_cxx.Qos.Conversions.{from_duration}
use cyclonedds_cxx.Time.Duration.{Duration}
use cyclonedds_cxx.Time.Result.{ok, throws, timeout}

-- dds_waitset_wait of a handle, with room for a number of results, returns a code and what it put
-- there, which are delegates. `read_guard` is dds_read_guardcondition and `triggered` dds_triggered, of
-- a handle, and `handle` calls a functor.
pub record Waits (L : Type 0) : Type 0 where
  pub infinity : ℕ
  pub wait_for : ℕ → ℕ → ℤ → L → (ℤ × List ℕ) × L
  pub read_guard : ℕ → L → ℤ × Bool
  pub triggered : ℕ → L → ℤ
  pub handle : ℕ → L → L

-- The entries before `n` and before `sz`.
abbrev pub first : ℕ → List ℕ → List ℕ
first n [] = []
first zero (x ∷ xs) = []
first (suc n) (x ∷ xs) = x ∷ first n xs

module _ {L : Type 0} (calls : Calls L) (waits : Waits L) where
  abbrev read_guardcondition : ℕ → Action L Bool
  read_guardcondition c w =
      let (code, triggered) = waits.read_guard (w.condition_entity c) w.library in
      (do run (check_ddsc_result calls.err_nr code); pure triggered) w

  -- The virtual method, of a guard condition and of a status condition, which turns the code of
  -- dds_triggered into a bool.
  unfoldable pub trigger_value : ℕ → Action L Bool
  unfolding check
  trigger_value c = do
    check (λ w. w.condition_closed c)
    guard ← gets (λ w. w.is_guard c)
    code ← gets (λ w. waits.triggered (w.condition_entity c) w.library)
    if guard then read_guardcondition c else pure (not (eq_ℤ code (pos 0)))

  -- ConditionDelegate::dispatch
  unfoldable pub dispatch_condition : ℕ → Action L (Unit {0})
  unfolding trigger_value
  dispatch_condition c = do
    triggered ← trigger_value c
    modify
        λ w. if triggered && w.functor c then record w { library = waits.handle c w.library } else w

  -- The loop of `wait` over the results, and that of `dispatch` over the conditions.
  unfoldable pub dispatch_each : List ℕ → Action L (Unit {0})
  dispatch_each [] = pure tt
  dispatch_each (c ∷ cs) = let rest = dispatch_each cs in (do dispatch_condition c; rest)

  unfoldable pub wait_for_entity : ℕ → ℕ → ℤ → Action L (ℤ × List ℕ)
  wait_for_entity entity sz c_timeout w =
      let (answer, l) = waits.wait_for entity sz c_timeout w.library in
      (ok answer, record w { library = l })

  -- The conditions that triggered are put behind what the sequence holds.
  unfoldable pub returned : List ℕ → ℕ → ℤ × List ℕ → Action L (List ℕ)
  returned triggered sz (pos zero, attach) = run (throws timeout)
  returned triggered sz (pos (suc n), attach) = do
    dispatch_each (first (min (suc n) sz) attach)
    pure (triggered ++ first (min (suc n) sz) attach)
  returned triggered sz (negsuc n, attach) = do
    run (check_ddsc_result calls.err_nr (negsuc n))
    pure triggered

  unfoldable pub wait : ℕ → List ℕ → Duration → Action L (List ℕ)
  unfolding check
  wait s triggered duration = do
    c_timeout ← run (from_duration waits.infinity duration)
    check (λ w. w.waitset_closed s)
    sz ← gets (λ w. length (w.conditions_ s))
    check (λ w. w.waitset_closed s)
    entity ← gets (λ w. w.waitset_entity s)
    answer ← wait_for_entity entity sz c_timeout
    returned triggered sz answer

  -- A TimeoutError is thrown again with another text.
  unfoldable pub dispatch : ℕ → Duration → Action L (Unit {0})
  dispatch s duration = do triggered ← wait s [] duration; dispatch_each triggered
