-- ===== src/Core/Listeners/Runs.antt =====
-- The theorems on status masks and listeners at concrete inputs.
use cyclonedds_cxx.Common.{ℕ, ◌+◌, ◌≡◌, refl, arith, true, ◌&&◌, ◌||◌, [], ◌∷◌, Option, none, ◌==◌}
use cyclonedds_cxx.Common.Int.{pos, negsuc}
use cyclonedds_cxx.Core.Reports.{retcode_other, check_ddsc_result}
use cyclonedds_cxx.Core.Status.{
  Status, data_available, sample_lost, status_bit, Mask, to_ddsc_mask, from_ddsc_mask,
}
use cyclonedds_cxx.Core.Status.RoundTrip.{from_ddsc_mask-to_ddsc_mask}
use cyclonedds_cxx.Core.Listeners.{
  Callbacks, Library, created, install, enable, listener_set, enables, sets, apply, apply_all,
}
use cyclonedds_cxx.Core.Listeners.Served.{calls_for, apply_all-calls_for}

-- A C library whose statuses have other bits.
abbrev ddsc_bit : Status → ℕ
ddsc_bit s = status_bit s + 3

abbrev two_statuses : Mask
two_statuses i = (i == 10) || (i == 7)

ddsc_bit_injective : (s t : Status) → ddsc_bit s ≡ ddsc_bit t → s ≡ t
ddsc_bit_injective s t h = ground arith

from_ddsc_mask-to_ddsc_mask_example :
    (from_ddsc_mask ddsc_bit (to_ddsc_mask ddsc_bit two_statuses) 7 ≡ true)
    × (to_ddsc_mask ddsc_bit (from_ddsc_mask ddsc_bit two_statuses) 10 ≡ true)
from_ddsc_mask-to_ddsc_mask_example =
    from_ddsc_mask-to_ddsc_mask ddsc_bit (λ s. ground arith) ddsc_bit_injective two_statuses
      two_statuses sample_lost

never_refused : (c l : Option Callbacks) (n : ℕ) → pos 0 ≡ negsuc n → c ≡ l
never_refused c l n e = cc

-- An entity that takes over every listener.
abbrev accepting : Library (Option Callbacks)
accepting = record {
  set_listener = λ c l. (pos 0, c);
  installed = λ l. l;
  err_nr = λ z. retcode_other;
  installed-ok = λ c l n e. refl;
  installed-failed = never_refused;
}

apply_all-calls_for_example :
    let d =
      (apply_all accepting (enables ∷ sets 1 two_statuses true ∷ enables ∷ []) (created none)).1 in
    calls_for d.library data_available ≡ (d.enabled && d.listener_mask 10)
unfolding apply_all apply enable listener_set install check_ddsc_result
apply_all-calls_for_example =
    apply_all-calls_for accepting (enables ∷ sets 1 two_statuses true ∷ enables ∷ []) none refl refl
      data_available
