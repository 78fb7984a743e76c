-- ===== src/Core/Runs.antt =====
-- The theorems on wait sets, conditions and callbacks at concrete inputs.
use cyclonedds_cxx.Common.{
  ℕ, ◌≡◌, ◌≢◌, ◌<◌, ◌+◌, refl, arith, true, false, List, [], ◌∷◌, ◌++◌, ◌==◌, if◌then◌else◌,
}
use cyclonedds_cxx.Common.Int.{ℤ, pos, negsuc, ◌+ℤ◌, ◌*ℤ◌}
use cyclonedds_cxx.Time.Result.{ok}
use cyclonedds_cxx.Time.Duration.{duration, infinite, equal}
use cyclonedds_cxx.Qos.Conversions.{from_duration}
use cyclonedds_cxx.Core.Reports.{retcode_other, check_ddsc_result}
use cyclonedds_cxx.Core.Waitsets.{World, Calls, has, add_condition_locked, remove_condition_locked}
use cyclonedds_cxx.Core.Waitsets.Attach.{
  add_waitset, remove_waitset, attach_condition, detach_condition, detach_from_one,
  detach_from_each, detach_from_waitset, close_guard_condition, detach_each, close_waitset,
}
use cyclonedds_cxx.Core.Waitsets.Linked.{AreLinked}
use cyclonedds_cxx.Core.Waitsets.Closing.{close_waitset_detaches}
use cyclonedds_cxx.Core.Waitsets.Traces.{
  attaches, detaches, closes_guard, perform, perform_all, perform_all-AreLinked,
  attach_condition_again,
}
use cyclonedds_cxx.Core.Waitsets.Waiting.{Waits, trigger_value, dispatch}
use cyclonedds_cxx.Core.Waitsets.Handlers.{dispatch-handle_all}
use cyclonedds_cxx.Core.Callbacks.{
  System, start, obtain_callback_lock, prevent_callbacks, await_callbacks, release_callback_lock,
  finish, arrive, arrive_inside, obtains, finishes, calls, retries, calls_inside, Reach, here,
  later,
}
use cyclonedds_cxx.Core.Callbacks.Protocol.{
  inside, in_callback, IsConsistent, Reach-IsConsistent, no_callback_after_return,
  inside_never_returns,
}
use cyclonedds_cxx.Core.Callbacks.Progress.{HaveReturned, Inevitably, calls_return}

-- What the library holds is the list of the conditions whose functors have run.
abbrev answering : ℤ → Calls (List ℕ)
answering code = record {
  attach = λ s e c l. (code, l);
  detach = λ s e l. (code, l);
  delete = λ e l. l;
  err_nr = λ z. retcode_other;
}

-- Wait set 1 has the conditions 2 and 3, and a handle of its own has each.
abbrev fresh : World (List ℕ)
fresh = record {
  conditions_ = λ s. [];
  waitset_entity = λ s. s + 10;
  waitset_closed = λ s. false;
  waitset_list = λ c. [];
  condition_entity = λ c. c + 20;
  condition_closed = λ c. false;
  is_guard = λ c. c == 2;
  functor = λ c. true;
  library = [];
}

abbrev attached : World (List ℕ)
attached = record fresh {
  conditions_ = λ s. if s == 1 then 2 ∷ 3 ∷ [] else [];
  waitset_list = λ c. if c == 2 then 1 ∷ [] else if c == 3 then 1 ∷ [] else [];
}

attached-AreLinked : AreLinked attached
attached-AreLinked s c = ground arith

perform_all-AreLinked_example :
    AreLinked
      (perform_all
        (answering (pos 0))
        (attaches 1 2 ∷ attaches 1 3 ∷ detaches 1 2 ∷ closes_guard 3 ∷ [])
        fresh).1
unfolding perform_all perform attach_condition detach_condition close_guard_condition add_waitset
    remove_waitset detach_from_waitset detach_from_each detach_from_one remove_condition_locked
    add_condition_locked
perform_all-AreLinked_example =
    perform_all-AreLinked (answering (pos 0))
      (attaches 1 2 ∷ attaches 1 3 ∷ detaches 1 2 ∷ closes_guard 3 ∷ []) fresh (λ s c. refl) refl

close_waitset_detaches_example :
    AreLinked (close_waitset (answering (pos 0)) 1 attached).1
    × ((s c : ℕ)
        → has s ((close_waitset (answering (pos 0)) 1 attached).1.waitset_list c)
          ≡ (if s == 1 then false else has s (attached.waitset_list c)))
unfolding close_waitset detach_each remove_waitset remove_condition_locked
close_waitset_detaches_example =
    close_waitset_detaches (answering (pos 0)) 1 attached attached-AreLinked refl

attach_fails : (attach_condition (answering (negsuc 2)) 1 2 fresh).0 ≢ ok tt
unfolding attach_condition add_waitset add_condition_locked
attach_fails e = cc

attach_condition_again_example :
    let again =
      attach_condition
        (answering (negsuc 2))
        1
        2
        (attach_condition (answering (negsuc 2)) 1 2 fresh).1 in
    (again.0 ≡ ok tt) × (has 2 (again.1.conditions_ 1) ≡ false)
attach_condition_again_example =
    attach_condition_again (answering (negsuc 2)) 1 2 fresh refl refl attach_fails

-- Both conditions trigger, and stay so.
abbrev waiting : Waits (List ℕ)
waiting = record {
  infinity = 0x7fff_ffff_ffff_ffff;
  wait_for = λ e n t l. ((pos 2, 3 ∷ 2 ∷ []), l);
  read_guard = λ e l. (pos 0, true);
  triggered = λ e l. pos 1;
  handle = λ c l. l ++ c ∷ [];
}

one_second : from_duration waiting.infinity (duration (pos 1) 0) ≡ ok (pos 1_000_000_000)
unfolding from_duration infinite equal ◌+ℤ◌ ◌*ℤ◌
one_second = refl

dispatch-handle_all_example :
    dispatch (answering (pos 0)) waiting 1 (duration (pos 1) 0) attached
    ≡ (ok tt, record attached { library = 3 ∷ 2 ∷ 3 ∷ 2 ∷ [] })
unfolding trigger_value check_ddsc_result
dispatch-handle_all_example =
    dispatch-handle_all (answering (pos 0)) waiting 1 (duration (pos 1) 0) attached one_second refl
      1 refl ((refl, λ l. refl), ((refl, λ l. refl), tt))

-- A callback runs, and a call of prevent_callbacks waits for it.
abbrev one_waits : System
one_waits = record start { callback_count = pos 1; running = 1; asleep = 1; started = 1 }

one_waits_reached : Reach start one_waits
unfolding obtain_callback_lock prevent_callbacks arrive
one_waits_reached = later (later here (obtains (pos 1) refl refl)) (calls false (λ e. cc) refl)

Reach-IsConsistent_example : IsConsistent one_waits
Reach-IsConsistent_example = Reach-IsConsistent one_waits_reached

calls_return_example : Inevitably (HaveReturned one_waits) one_waits
calls_return_example = calls_return one_waits_reached refl

-- The callback has ended, and the call has returned.
abbrev all_prevented : System
all_prevented = record start { callback_count = negsuc 0; started = 1; returned = 1 }

all_prevented_reached : Reach start all_prevented
unfolding finish release_callback_lock await_callbacks arrive
all_prevented_reached = later (later one_waits_reached (finishes 0 refl refl)) (retries 0 refl refl)

no_callback_after_return_example :
    (in_callback all_prevented ≡ 0) × (obtain_callback_lock (negsuc 0) ≡ (false, negsuc 0))
no_callback_after_return_example = no_callback_after_return all_prevented_reached (omega arith)

-- A listener has called prevent_callbacks.
abbrev one_inside : System
one_inside = record start { callback_count = pos 1; inner_asleep = 1; started = 1 }

one_inside_reached : Reach start one_inside
unfolding obtain_callback_lock prevent_callbacks arrive_inside
one_inside_reached =
    later (later here (obtains (pos 1) refl refl)) (calls_inside 0 false refl (λ e. cc) refl)

inside_never_returns_example : (0 < inside one_inside) × (one_inside.returned ≡ 0)
inside_never_returns_example = inside_never_returns one_inside_reached (omega arith) here
