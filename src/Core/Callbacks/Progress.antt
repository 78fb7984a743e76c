-- ===== src/Core/Callbacks/Progress.antt =====
-- Calls of prevent_callbacks return: it is enough that the callbacks which run come to an end, in
-- whatever order the threads go on, and that those which sleep are woken by signals alone.
use cyclonedds_cxx.Common.{ℕ, zero, suc, ◌+◌, ◌≡◌, ◌⊎◌, inl, inr, refl, arith}
use cyclonedds_cxx.Core.Callbacks.{
  await_callbacks, System, start, finish, arrive, Step, finishes, retries, Reach,
}
use cyclonedds_cxx.Core.Callbacks.Protocol.{
  inside, IsConsistent, Reach-IsConsistent, Step-IsConsistent,
}

-- The steps of the callbacks that run and of the calls that are awake: nothing starts, and no call
-- wakes without a signal.
pub data GoesOn (s : System) (t : System) : Type 0 where
  ends : (r : ℕ) → s.running ≡ suc r → t ≡ finish (record s { running = r }) → GoesOn s t
  looks :
      (a : ℕ)
      → s.awake ≡ suc a
      → t ≡ arrive (await_callbacks s.callback_count) (record s { awake = a })
      → GoesOn s t

-- Whichever of these steps are taken, after finitely many of them `P` holds, and until then there is
-- one to take.
pub data Inevitably (P : System → Type 0) : System → Type 0 where
  now : {s : System} → P s → Inevitably P s
  after :
      {s : System} (t : System)
      → GoesOn s t
      → ((u : System) → GoesOn s u → Inevitably P u)
      → Inevitably P s

-- Every call of prevent_callbacks in `s` has returned in `t`, and no callback has started.
abbrev pub HaveReturned : System → System → Type 0
HaveReturned s t =
    (t.asleep + t.awake ≡ 0)
    × (t.returned ≡ s.returned + s.asleep + s.awake)
    × (t.started ≡ s.started)
    × (t.running ≡ 0)

-- Between `s` and that state: the calls of `s` wait or have returned.
abbrev IsUnderWay : System → System → Type 0
IsUnderWay s t =
    IsConsistent t
    × (inside t ≡ 0)
    × (t.returned + t.asleep + t.awake ≡ s.returned + s.asleep + s.awake)
    × (t.started ≡ s.started)

GoesOn-Step : {s t : System} → GoesOn s t → Step s t
GoesOn-Step (ends r e h) = finishes r e h
GoesOn-Step (looks a e h) = retries a e h

ends-lem :
    (r : ℕ) (t u : System)
    → u ≡ finish (record t { running = r })
    → (u.running ≡ r)
      × (inside u ≡ inside t)
      × (u.returned + u.asleep + u.awake ≡ t.returned + t.asleep + t.awake)
      × (u.started ≡ t.started)
unfolding finish
ends-lem r t u h = ground arith

looks-lem :
    (a : ℕ) (t u : System)
    → IsConsistent t
    → t.awake ≡ suc a
    → u ≡ arrive (await_callbacks t.callback_count) (record t { awake = a })
    → (u.running ≡ t.running)
      × (u.awake ≡ a)
      × (inside u ≡ inside t)
      × (u.returned + u.asleep + u.awake ≡ t.returned + t.asleep + t.awake)
      × (u.started ≡ t.started)
unfolding arrive await_callbacks
looks-lem a t u i e h = ground arith

GoesOn-IsUnderWay : (s t u : System) → GoesOn t u → IsUnderWay s t → IsUnderWay s u
GoesOn-IsUnderWay s t u (ends r e h) (i, q, b, c) =
    let k = ends-lem r t u h in
    (
      Step-IsConsistent (finishes r e h) i,
      omega (arith, k.1, q),
      omega (arith, k.2, b),
      omega (arith, k.3, c),
    )
GoesOn-IsUnderWay s t u (looks a e h) (i, q, b, c) =
    let k = looks-lem a t u i e h in
    (
      Step-IsConsistent (retries a e h) i,
      omega (arith, k.2, q),
      omega (arith, k.3, b),
      omega (arith, k.4, c),
    )

-- A state with no callback that runs and no call that is awake has no call that sleeps.
all_returned : (s t : System) → IsUnderWay s t → t.running ≡ 0 → t.awake ≡ 0 → HaveReturned s t
all_returned s t i e f = ground arith

next_step :
    (r a : ℕ) (s t : System)
    → t.running ≡ r
    → t.awake ≡ a
    → IsUnderWay s t
    → ((u : System) × GoesOn t u) ⊎ HaveReturned s t
next_step zero zero s t e f i = inr (all_returned s t i e f)
next_step (suc r) a s t e f i = inl (finish (record t { running = r }), ends r e refl)
next_step zero (suc a) s t e f i =
    inl (arrive (await_callbacks t.callback_count) (record t { awake = a }), looks a f refl)

-- After a step one callback less runs, or one call less is awake.
after_step :
    (n : ℕ) (s : System)
    → ((u : System) → suc u.running ≡ n → IsUnderWay s u → Inevitably (HaveReturned s) u)
    → (t : System) → t.running ≡ n
    → IsUnderWay s t
    → ((u : System)
        → u.running ≡ n
        → suc u.awake ≡ t.awake
        → IsUnderWay s u
        → Inevitably (HaveReturned s) u)
    → (v : System) → GoesOn t v
    → Inevitably (HaveReturned s) v
after_step n s fewer t e i again v (ends r g h) =
    fewer v (omega (arith, g, e, (ends-lem r t v h).0)) (GoesOn-IsUnderWay s t v (ends r g h) i)
after_step n s fewer t e i again v (looks b g h) =
    let k = looks-lem b t v i.0 g h in
    again v (omega (arith, e, k.0)) (omega (arith, g, k.1))
      (GoesOn-IsUnderWay s t v (looks b g h) i)

-- Among as many callbacks, the calls that are awake return or sleep again one by one.
looked_at :
    (a n : ℕ) (s : System)
    → ((u : System) → suc u.running ≡ n → IsUnderWay s u → Inevitably (HaveReturned s) u)
    → (t : System) → t.running ≡ n
    → t.awake ≡ a
    → IsUnderWay s t
    → Inevitably (HaveReturned s) t
looked_at zero n s fewer t e f i = elim (next_step t.running t.awake s t refl refl i) [
  | inr done ↦ now done
  | inl (u, st) ↦ after u st (after_step n s fewer t e i (λ v g h j. absurd (omega (arith, f, h))))
]
looked_at (suc a) n s fewer t e f i = elim (next_step t.running t.awake s t refl refl i) [
  | inr done ↦ now done
  | inl (u, st) ↦
      after u st
        (after_step n s fewer t e i (λ v g h j. looked_at a n s fewer v g (omega (arith, f, h)) j))
]

under_way_ends :
    (n : ℕ) (s t : System) → t.running ≡ n → IsUnderWay s t → Inevitably (HaveReturned s) t
under_way_ends zero s t e i = looked_at t.awake 0 s (λ u g j. absurd (omega arith)) t e refl i
under_way_ends (suc n) s t e i =
    looked_at t.awake (suc n) s (λ u g j. under_way_ends n s u (omega arith) j) t e refl i

-- Where no listener has called prevent_callbacks itself, every call of it in a state that threads
-- reach returns, in whatever order the callbacks that run end and the calls that are awake go on,
-- where no callback or call starts and no call wakes without a signal.
pub calls_return : {s : System} → Reach start s → inside s ≡ 0 → Inevitably (HaveReturned s) s
calls_return {s} r q = under_way_ends s.running s s refl (Reach-IsConsistent r, q, refl, refl)
