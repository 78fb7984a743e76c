-- ===== src/Core/Callbacks.antt =====
-- The lock on callbacks of EntityDelegate.cpp, under which ListenerDispatcher.cpp runs a listener and
-- DataReader::close waits for it. Threads are counted by the place where they stand, and the code
-- from one wait for callback_mutex to the next is one step.
pub mod Protocol
pub mod Progress
use cyclonedds_cxx.Common.{ℕ, zero, suc, ◌+◌, ◌≡◌, ◌≢◌, Bool, true, false, ◌&&◌, if◌then◌else◌}
use cyclonedds_cxx.Common.Int.{ℤ, pos, negsuc, eq_ℤ}

-- `callback_count` is not bounded here: it is a long, and counts running callbacks.
unfoldable pub obtain_callback_lock : ℤ → Bool × ℤ
obtain_callback_lock (pos n) = (true, pos (suc n))
obtain_callback_lock (negsuc n) = (false, negsuc n)

unfoldable pub release_callback_lock : ℤ → ℤ
release_callback_lock (pos (suc n)) = pos n
release_callback_lock (pos zero) = negsuc 0
release_callback_lock (negsuc n) = negsuc (suc n)

-- What a call of prevent_callbacks does until it gives up the mutex: its assertion fails, it waits
-- for callback_cond, or it returns and leaves this count.
pub data Outcome : Type 0 where
  aborts waits : Outcome
  returns : ℤ → Outcome

-- The loop and what follows it, from its test on.
unfoldable pub await_callbacks : ℤ → Outcome
await_callbacks (pos (suc n)) = waits
await_callbacks (pos zero) = returns (negsuc 0)
await_callbacks (negsuc n) = returns (negsuc 0)

-- `expired` is that no reference to the object is left.
unfoldable pub prevent_callbacks : Bool → ℤ → Outcome
unfolding await_callbacks
prevent_callbacks expired count =
    if expired && eq_ℤ count (pos 1) then aborts else await_callbacks count

-- `running` callbacks have the lock and are in the listener. `asleep` and `awake` calls of
-- prevent_callbacks wait for callback_cond and for the mutex after it; those with `inner_` are made
-- by a listener. `started` and `returned` count the callbacks and the calls so far.
pub record System : Type 0 where
  pub callback_count : ℤ
  pub running : ℕ
  pub asleep : ℕ
  pub awake : ℕ
  pub inner_asleep : ℕ
  pub inner_awake : ℕ
  pub started : ℕ
  pub returned : ℕ

abbrev pub start : System
start = record {
  callback_count = pos 0;
  running = 0;
  asleep = 0;
  awake = 0;
  inner_asleep = 0;
  inner_awake = 0;
  started = 0;
  returned = 0;
}

-- ddsrt_cond_broadcast
abbrev pub broadcast : System → System
broadcast s = record s {
  asleep = 0;
  awake = s.awake + s.asleep;
  inner_asleep = 0;
  inner_awake = s.inner_awake + s.inner_asleep;
}

-- release_callback_lock, which broadcasts at 0.
unfoldable pub finish : System → System
unfolding release_callback_lock
finish s =
    let t : System = record s { callback_count = release_callback_lock s.callback_count } in
    if eq_ℤ t.callback_count (pos 0) then broadcast t else t

-- Where a call of prevent_callbacks goes; one that aborts stops the program.
unfoldable pub arrive : Outcome → System → System
arrive aborts s = s
arrive waits s = record s { asleep = s.asleep + 1 }
arrive (returns c) s = record s { callback_count = c; returned = s.returned + 1 }

unfoldable pub arrive_inside : Outcome → System → System
arrive_inside aborts s = s
arrive_inside waits s = record s { inner_asleep = s.inner_asleep + 1 }
arrive_inside (returns c) s = record s {
  callback_count = c;
  running = s.running + 1;
  returned = s.returned + 1;
}

-- The steps of callbacks, of calls of prevent_callbacks, and of waits that end without a signal.
pub data Step (s : System) (t : System) : Type 0 where
  obtains :
      (c : ℤ)
      → obtain_callback_lock s.callback_count ≡ (true, c)
      → t ≡ record s { callback_count = c; running = s.running + 1; started = s.started + 1 }
      → Step s t
  is_refused :
      (c : ℤ)
      → obtain_callback_lock s.callback_count ≡ (false, c)
      → t ≡ record s { callback_count = c }
      → Step s t
  finishes : (r : ℕ) → s.running ≡ suc r → t ≡ finish (record s { running = r }) → Step s t
  calls :
      (expired : Bool)
      → prevent_callbacks expired s.callback_count ≢ aborts
      → t ≡ arrive (prevent_callbacks expired s.callback_count) s
      → Step s t
  retries :
      (a : ℕ)
      → s.awake ≡ suc a
      → t ≡ arrive (await_callbacks s.callback_count) (record s { awake = a })
      → Step s t
  wakes : (a : ℕ) → s.asleep ≡ suc a → t ≡ record s { asleep = a; awake = s.awake + 1 } → Step s t
  calls_inside :
      (r : ℕ) (expired : Bool)
      → s.running ≡ suc r
      → prevent_callbacks expired s.callback_count ≢ aborts
      → t ≡ arrive_inside (prevent_callbacks expired s.callback_count) (record s { running = r })
      → Step s t
  retries_inside :
      (a : ℕ)
      → s.inner_awake ≡ suc a
      → t ≡ arrive_inside (await_callbacks s.callback_count) (record s { inner_awake = a })
      → Step s t
  wakes_inside :
      (a : ℕ)
      → s.inner_asleep ≡ suc a
      → t ≡ record s { inner_asleep = a; inner_awake = s.inner_awake + 1 }
      → Step s t

pub data Reach (s : System) : System → Type 0 where
  here : Reach s s
  later : {t u : System} → Reach s t → Step t u → Reach s u
