-- ===== src/Core/Waitsets.antt =====
-- WaitSetDelegate.cpp and ConditionDelegate.cpp: which conditions are attached to which wait sets.
-- Delegates are numbers. A wait set keeps the map `conditions_` of its conditions, and a condition
-- the set `waitSetList` of its wait sets. One call runs at a time, and what it wrote stays written
-- after an exception.
pub mod Linked
pub mod Attach
pub mod Closing
pub mod Traces
pub mod Waiting
pub mod Handlers
use cyclonedds_cxx.Common.{ℕ, ◌≡◌, Bool, true, false, List, [], ◌∷◌, ◌||◌, ◌==◌, if◌then◌else◌, ltb}
use cyclonedds_cxx.Common.Int.{ℤ}
use cyclonedds_cxx.Core.Reports.{Retcode, check_ddsc_result}
use cyclonedds_cxx.Time.Result.{Result, ok, throws, undefined, already_closed}

-- A set of delegates, in any order.
abbrev pub has : ℕ → List ℕ → Bool
has k [] = false
has k (x ∷ xs) = if k == x then true else has k xs

unfoldable pub insert : ℕ → List ℕ → List ℕ
insert k xs = if has k xs then xs else k ∷ xs

unfoldable pub erase : ℕ → List ℕ → List ℕ
erase k [] = []
erase k (x ∷ xs) = let rest = erase k xs in if k == x then rest else x ∷ rest

abbrev pub set_at : {A : Type 0} → ℕ → A → (ℕ → A) → ℕ → A
set_at i v f j = if j == i then v else f j

-- `library` is the state of the C library, and a handle 0 is DDS_HANDLE_NIL.
pub record World (L : Type 0) : Type 0 where
  pub conditions_ : ℕ → List ℕ
  pub waitset_entity : ℕ → ℕ
  pub waitset_closed : ℕ → Bool
  pub waitset_list : ℕ → List ℕ
  pub condition_entity : ℕ → ℕ
  pub condition_closed : ℕ → Bool
  pub is_guard : ℕ → Bool
  pub functor : ℕ → Bool
  pub library : L

abbrev pub Action : Type 0 → Type 0 → Type 0
Action L A = World L → Result A × World L

module _ {L : Type 0} where
  infixl 5 ◌>>=◌ ◌>>◌
  abbrev pub ◌>>=◌ : {A B : Type 0} → Action L A → (A → Action L B) → Action L B
  ◌>>=◌ m f w =
      let (r, w') = m w in
      elim r [ ok a ↦ f a w' | throws e ↦ (throws e, w') | undefined ↦ (undefined, w') ]

  abbrev pub ◌>>◌ : {B : Type 0} → Action L (Unit {0}) → Action L B → Action L B
  m >> k = m >>= λ _. k

  abbrev pub pure : {A : Type 0} → A → Action L A
  pure a w = (ok a, w)

  abbrev pub gets : {A : Type 0} → (World L → A) → Action L A
  gets f w = (ok (f w), w)

  abbrev pub modify : (World L → World L) → Action L (Unit {0})
  modify f w = (ok tt, f w)

  abbrev pub run : {A : Type 0} → Result A → Action L A
  run r w = (r, w)

  -- ObjectDelegate::check, of a delegate with this flag.
  unfoldable pub check : (World L → Bool) → Action L (Unit {0})
  check closed w = (if closed w then throws already_closed else ok tt, w)

  -- DDScObjectDelegate::get_ddsc_entity of a condition, under its lock.
  unfoldable pub get_ddsc_entity : ℕ → Action L ℕ
  unfolding check
  get_ddsc_entity c = do check (λ w. w.condition_closed c); gets (λ w. w.condition_entity c)

-- What the C library answers: dds_waitset_attach and dds_waitset_detach of two handles, the latter
-- with the delegate that is to be reported, and dds_delete. `err_nr` classifies return codes.
pub record Calls (L : Type 0) : Type 0 where
  pub attach : ℕ → ℕ → ℕ → L → ℤ × L
  pub detach : ℕ → ℕ → L → ℤ × L
  pub delete : ℕ → L → L
  pub err_nr : ℤ → Retcode

module _ {L : Type 0} (calls : Calls L) where
  abbrev pub call : (L → ℤ × L) → Action L ℤ
  call f w = let (code, l) = f w.library in (ok code, record w { library = l })

  -- Called while the lock of `s` is held.
  unfoldable pub add_condition_locked : ℕ → ℕ → Action L (Unit {0})
  unfolding get_ddsc_entity check_ddsc_result insert
  add_condition_locked s c w =
      let attach_it : Action L (Unit {0}) = do
        e ← get_ddsc_entity c
        code ← call (calls.attach (w.waitset_entity s) e c)
        run (check_ddsc_result calls.err_nr code)
        modify λ v. record v { conditions_ = set_at s (insert c (v.conditions_ s)) v.conditions_ }
      in if has c (w.conditions_ s) then (ok tt, w) else attach_it w

  unfoldable pub remove_condition_locked : ℕ → ℕ → ℕ → Action L (Unit {0})
  unfolding get_ddsc_entity check_ddsc_result erase
  remove_condition_locked s c handle w =
      let detach_it : Action L (Unit {0}) = do
        e ← if handle == 0 then get_ddsc_entity c else pure handle
        code ← call (calls.detach (w.waitset_entity s) e)
        run (check_ddsc_result calls.err_nr code)
        modify λ v. record v { conditions_ = set_at s (erase c (v.conditions_ s)) v.conditions_ }
      in if has c (w.conditions_ s) then detach_it w else (ok tt, w)
