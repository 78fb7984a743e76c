-- ===== src/Core/Waitsets/Handlers.antt =====
-- How often `wait` and `dispatch` run the functors of the conditions.
use cyclonedds_cxx.Common.{
  ℕ, suc, ◌≡◌, refl, ◌∙◌, arith, ◌&&◌, if◌then◌else◌, true, false, List, [], ◌∷◌, ◌++◌, length, min,
  All,
}
use cyclonedds_cxx.Common.Int.{ℤ, pos}
use cyclonedds_cxx.Core.Waitsets.{World, Action, Calls, ◌>>=◌, pure, modify, check}
use cyclonedds_cxx.Core.Waitsets.Waiting.{
  Waits, first, trigger_value, dispatch_condition, dispatch_each, wait_for_entity, returned, wait,
  dispatch,
}
use cyclonedds_cxx.Qos.Conversions.{from_duration}
use cyclonedds_cxx.Time.Duration.{Duration}
use cyclonedds_cxx.Time.Result.{ok}

pub >>=_of_eq :
    {L A B : Type 0} (m : Action L A) (f : A → Action L B) (w : World L) {a : A} {w' : World L}
    → m w ≡ (ok a, w')
    → (m >>= f) w ≡ f a w'
>>=_of_eq m f w e = ground arith

module _ {L : Type 0} (calls : Calls L) (waits : Waits L) where
  abbrev pub handle_all : List ℕ → L → L
  handle_all [] l = l
  handle_all (c ∷ cs) l = handle_all cs (waits.handle c l)

  handle_all-append :
      (cs ds : List ℕ) (l : L) → handle_all (cs ++ ds) l ≡ handle_all ds (handle_all cs l)
  handle_all-append [] ds l = refl
  handle_all-append (c ∷ cs) ds l = handle_all-append cs ds (waits.handle c l)

  -- A condition with a functor whose trigger is on, whatever functors have done.
  abbrev pub IsOn : World L → ℕ → Type 0
  IsOn w c =
      (w.functor c ≡ true)
      × ((l : L)
          → trigger_value calls waits c (record w { library = l })
            ≡ (ok true, record w { library = l }))

  dispatch_condition-handle :
      (c : ℕ) (w : World L) (l : L)
      → IsOn w c
      → dispatch_condition calls waits c (record w { library = l })
        ≡ (ok tt, record w { library = waits.handle c l })
  unfolding dispatch_condition
  dispatch_condition-handle c w l on =
      >>=_of_eq (trigger_value calls waits c)
        (λ triggered. modify λ v.
          if triggered && v.functor c then record v { library = waits.handle c v.library } else v)
        (record w { library = l }) (on.1 l)
      ∙ rw on.0 refl

  dispatch_each-handle_all :
      (cs : List ℕ) (w : World L) (l : L)
      → All (IsOn w) cs
      → dispatch_each calls waits cs (record w { library = l })
        ≡ (ok tt, record w { library = handle_all cs l })
  unfolding dispatch_each
  dispatch_each-handle_all [] w l on = refl
  dispatch_each-handle_all (c ∷ cs) w l on =
      >>=_of_eq (dispatch_condition calls waits c) (λ _. dispatch_each calls waits cs)
        (record w { library = l }) (dispatch_condition-handle c w l on.0)
      ∙ dispatch_each-handle_all cs w (waits.handle c l) on.1

  returned-handle_all :
      (sz n : ℕ) (attach : List ℕ) (w : World L) (l : L)
      → All (IsOn w) (first (min (suc n) sz) attach)
      → returned calls waits [] sz (pos (suc n), attach) (record w { library = l }) ≡ (
        ok (first (min (suc n) sz) attach),
        record w { library = handle_all (first (min (suc n) sz) attach) l },
      )
  unfolding returned
  returned-handle_all sz n attach w l on =
      let cs = first (min (suc n) sz) attach in
      >>=_of_eq (dispatch_each calls waits cs) (λ _. pure ([] ++ cs)) (record w { library = l })
        (dispatch_each-handle_all cs w l on)

module _ {L : Type 0} (calls : Calls L) (waits : Waits L) (s : ℕ) (d : Duration) (w : World L)
    {c_timeout : ℤ} (converted : from_duration waits.infinity d ≡ ok c_timeout)
    (opened : w.waitset_closed s ≡ false) where
  wait-eq :
      (triggered : List ℕ) {answer : ℤ × List ℕ} {l : L}
      → waits.wait_for (w.waitset_entity s) (length (w.conditions_ s)) c_timeout w.library
        ≡ (answer, l)
      → wait calls waits s triggered d w
        ≡ returned calls waits triggered
            (length (w.conditions_ s))
            answer
            (record w { library = l })
  unfolding wait check wait_for_entity
  wait-eq triggered answered = ground arith

  wait-handle_all :
      (n : ℕ) {attach : List ℕ} {l : L}
      → waits.wait_for (w.waitset_entity s) (length (w.conditions_ s)) c_timeout w.library
        ≡ ((pos (suc n), attach), l)
      → let cs = first (min (suc n) (length (w.conditions_ s))) attach in
        All (IsOn calls waits w) cs
        → wait calls waits s [] d w ≡ (ok cs, record w { library = handle_all calls waits cs l })
  wait-handle_all n {attach} {l} answered on =
      wait-eq [] answered
      ∙ returned-handle_all calls waits (length (w.conditions_ s)) n attach w l on

  -- A dispatch runs the functors of the reported conditions twice, where they are on throughout.
  pub dispatch-handle_all :
      (n : ℕ) {attach : List ℕ} {l : L}
      → waits.wait_for (w.waitset_entity s) (length (w.conditions_ s)) c_timeout w.library
        ≡ ((pos (suc n), attach), l)
      → let cs = first (min (suc n) (length (w.conditions_ s))) attach in
        All (IsOn calls waits w) cs
        → dispatch calls waits s d w
          ≡ (ok tt, record w { library = handle_all calls waits (cs ++ cs) l })
  unfolding dispatch
  dispatch-handle_all n {attach} {l} answered on =
      let cs = first (min (suc n) (length (w.conditions_ s))) attach in
      >>=_of_eq (wait calls waits s [] d) (dispatch_each calls waits) w
        (wait-handle_all n answered on)
      ∙ dispatch_each-handle_all calls waits cs w (handle_all calls waits cs l) on
      ∙ rw (handle_all-append calls waits cs cs l)
