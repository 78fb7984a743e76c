-- ===== src/Core/Listeners.antt =====
-- The listener of an entity: enable, listener_set, listener_get and get_listener_mask of
-- EntityDelegate.cpp. What a call wrote stays written after an exception. The listener and its
-- argument on the heap are left out.
pub mod Served
mod Runs
use cyclonedds_cxx.Common.{
  ℕ, ◌≡◌, Bool, true, false, List, [], ◌∷◌, Option, none, some, if◌then◌else◌,
}
use cyclonedds_cxx.Common.Int.{ℤ, pos, negsuc}
use cyclonedds_cxx.Core.Reports.{Retcode, check_ddsc_result}
use cyclonedds_cxx.Core.Status.{Status, status_bit, Mask, no_bits, single, status_mask_contains}
use cyclonedds_cxx.Time.Result.{Result, ok, throws, undefined}

-- A dds_listener_t: the statuses with a callback of ListenerDispatcher.cpp.
pub record Callbacks : Type 0 where
  pub on : Status → Bool
  pub reset_on_invoke : Bool

-- dds_set_listener of the entity, where no listener is a null pointer. What the entity has is taken
-- over on success, and kept on failure.
pub record Library (L : Type 0) : Type 0 where
  pub set_listener : Option Callbacks → L → ℤ × L
  pub installed : L → Option Callbacks
  pub err_nr : ℤ → Retcode
  pub installed-ok :
      (c : Option Callbacks) (l : L) (n : ℕ)
      → (set_listener c l).0 ≡ pos n
      → installed (set_listener c l).1 ≡ c
  pub installed-failed :
      (c : Option Callbacks) (l : L) (n : ℕ)
      → (set_listener c l).0 ≡ negsuc n
      → installed (set_listener c l).1 ≡ installed l

-- A listener is a number, and 0 a null pointer.
pub record Delegate (L : Type 0) : Type 0 where
  pub enabled : Bool
  pub listener_mask : Mask
  pub listener_callbacks : Option Callbacks
  pub listener : ℕ
  pub library : L

-- The constructor, of an entity in this library.
abbrev pub created : {L : Type 0} → L → Delegate L
created l = record {
  enabled = false;
  listener_mask = no_bits;
  listener_callbacks = none;
  listener = 0;
  library = l;
}

-- The callbacks that listener_set chooses.
unfoldable pub chosen : Mask → Bool → Callbacks
chosen mask reset = record {
  on = λ s. status_mask_contains mask (single (status_bit s));
  reset_on_invoke = reset;
}

module _ {L : Type 0} (lib : Library L) where
  -- dds_set_listener and the check of its result.
  unfoldable pub install : Option Callbacks → Delegate L → Result (Unit {0}) × Delegate L
  install c d =
      let (code, l) = lib.set_listener c d.library in
      (check_ddsc_result lib.err_nr code, record d { library = l })

  unfoldable pub enable : Delegate L → Result (Unit {0}) × Delegate L
  enable d = install d.listener_callbacks (record d { enabled = true })

  abbrev pub store : Callbacks → Result (Unit {0}) × Delegate L → Result (Unit {0}) × Delegate L
  store c (ok u, d) = (ok u, record d { listener_callbacks = some c })
  store c (throws e, d) = (throws e, d)
  store c (undefined, d) = (undefined, d)

  unfoldable pub listener_set : ℕ → Mask → Bool → Delegate L → Result (Unit {0}) × Delegate L
  listener_set listener mask reset d =
      let c = chosen mask reset in
      let d' : Delegate L = record d { listener = listener; listener_mask = mask } in
      store c (if d.enabled then install (some c) d' else (ok tt, d'))

  pub data Setting : Type 0 where
    enables : Setting
    sets : ℕ → Mask → Bool → Setting

  unfoldable pub apply : Setting → Delegate L → Result (Unit {0}) × Delegate L
  apply enables d = enable d
  apply (sets listener mask reset) d = listener_set listener mask reset d

  abbrev pub and_then :
      Result (Unit {0}) × Delegate L
      → (Delegate L → Result (Unit {0}) × Delegate L)
      → Result (Unit {0}) × Delegate L
  and_then (ok u, d) f = f d
  and_then (throws e, d) f = (throws e, d)
  and_then (undefined, d) f = (undefined, d)

  unfoldable pub apply_all : List Setting → Delegate L → Result (Unit {0}) × Delegate L
  apply_all [] d = (ok tt, d)
  apply_all (x ∷ xs) d = let rest = apply_all xs in and_then (apply x d) rest
