-- ===== src/Core/Callbacks/Protocol.antt =====
-- No callback runs after prevent_callbacks has returned, and none is waited for in vain.
use cyclonedds_cxx.Common.{ℕ, zero, suc, ◌+◌, ◌<◌, ◌≡◌, arith, false}
use cyclonedds_cxx.Common.Int.{ℤ, pos, negsuc}
use cyclonedds_cxx.Core.Callbacks.{
  obtain_callback_lock, await_callbacks, prevent_callbacks, System, start, finish, arrive,
  arrive_inside, Step, obtains, is_refused, finishes, calls, retries, wakes, calls_inside,
  retries_inside, wakes_inside, Reach, here, later,
}

abbrev pub inside : System → ℕ
inside s = s.inner_asleep + s.inner_awake

abbrev pub in_callback : System → ℕ
in_callback s = s.running + inside s

-- The count is that of the callbacks until a call of prevent_callbacks returns, and -1 from then on
-- with none left. A call sleeps only while there are callbacks.
abbrev pub IsCounted : ℤ → System → Type 0
IsCounted (pos k) s = (k ≡ in_callback s) × (s.returned ≡ 0) × (k ≡ 0 → s.asleep ≡ 0)
IsCounted (negsuc zero) s = (in_callback s ≡ 0) × (s.asleep ≡ 0)
IsCounted (negsuc (suc n)) s = ⊥

abbrev pub IsConsistent : System → Type 0
IsConsistent s = IsCounted s.callback_count s

pub Step-IsConsistent : {s t : System} → Step s t → IsConsistent s → IsConsistent t
unfolding obtain_callback_lock finish prevent_callbacks arrive arrive_inside
Step-IsConsistent (obtains c e h) i = ground arith
Step-IsConsistent (is_refused c e h) i = ground arith
Step-IsConsistent (finishes r e h) i = ground arith
Step-IsConsistent (calls expired e h) i = ground arith
Step-IsConsistent (retries a e h) i = ground arith
Step-IsConsistent (wakes a e h) i = ground arith
Step-IsConsistent (calls_inside r expired e f h) i = ground arith
Step-IsConsistent (retries_inside a e h) i = ground arith
Step-IsConsistent (wakes_inside a e h) i = ground arith

Reach-keeps : {s t : System} → IsConsistent s → Reach s t → IsConsistent t
Reach-keeps i here = i
Reach-keeps i (later r st) = Step-IsConsistent st (Reach-keeps i r)

-- Until prevent_callbacks returns, callback_count is the number of callbacks that run, and a call
-- sleeps only while there are some. After that it is -1, and none runs.
pub Reach-IsConsistent : {s : System} → Reach start s → IsConsistent s
Reach-IsConsistent r = Reach-keeps (omega arith) r

consistent_after_return :
    (s : System)
    → IsConsistent s
    → 0 < s.returned
    → (in_callback s ≡ 0) × (obtain_callback_lock s.callback_count ≡ (false, s.callback_count))
unfolding obtain_callback_lock
consistent_after_return s i h = ground arith

-- Once a call of prevent_callbacks has returned, no callback runs, and none gets the lock.
pub no_callback_after_return :
    {s : System}
    → Reach start s
    → 0 < s.returned
    → (in_callback s ≡ 0) × (obtain_callback_lock s.callback_count ≡ (false, s.callback_count))
no_callback_after_return {s} r h = consistent_after_return s (Reach-IsConsistent r) h

inside_keeps : {s t : System} → Step s t → IsConsistent s → 0 < inside s → 0 < inside t
unfolding obtain_callback_lock finish prevent_callbacks await_callbacks arrive arrive_inside
inside_keeps (obtains c e h) i p = ground arith
inside_keeps (is_refused c e h) i p = ground arith
inside_keeps (finishes r e h) i p = ground arith
inside_keeps (calls expired e h) i p = ground arith
inside_keeps (retries a e h) i p = ground arith
inside_keeps (wakes a e h) i p = ground arith
inside_keeps (calls_inside r expired e f h) i p = ground arith
inside_keeps (retries_inside a e h) i p = ground arith
inside_keeps (wakes_inside a e h) i p = ground arith

Reach-inside :
    {s t : System} → IsConsistent s → 0 < inside s → Reach s t → (0 < inside t) × IsConsistent t
Reach-inside i p here = (p, i)
Reach-inside i p (later r st) =
    let (q, j) = Reach-inside i p r in (inside_keeps st j q, Step-IsConsistent st j)

stuck : (t : System) → 0 < inside t → IsConsistent t → t.returned ≡ 0
stuck t p i = ground arith

-- Where a listener has called prevent_callbacks and waits there, it waits for ever, and so does
-- every other call.
pub inside_never_returns :
    {s t : System} → Reach start s → 0 < inside s → Reach s t → (0 < inside t) × (t.returned ≡ 0)
inside_never_returns {s} {t} r p q =
    let (still, consistent) = Reach-inside (Reach-IsConsistent r) p q in
    (still, stuck t still consistent)
