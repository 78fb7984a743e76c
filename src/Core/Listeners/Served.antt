-- ===== src/Core/Listeners/Served.antt =====
-- The C library calls a listener for the statuses of its mask, in whatever order an entity gets its
-- listener and is enabled.
use cyclonedds_cxx.Common.{
  ℕ, ◌≡◌, ◌≢◌, refl, subst, sym, ap, ◌∙◌, arith, Bool, true, false, ◌&&◌, List, [], ◌∷◌, Option,
  none, some, inl, inr, Bool-cases, if◌then◌else◌,
}
use cyclonedds_cxx.Common.Int.{ℤ, pos, negsuc}
use cyclonedds_cxx.Core.Reports.{check_ddsc_result}
use cyclonedds_cxx.Core.Status.{Status, status_bit, Mask}
use cyclonedds_cxx.Core.Status.RoundTrip.{contains-single, status_bit-lt}
use cyclonedds_cxx.Core.Listeners.{
  Callbacks, Library, Delegate, created, chosen, install, enable, store, listener_set, Setting,
  enables, sets, apply, and_then, apply_all,
}
use cyclonedds_cxx.Time.Result.{Result, ok, throws, undefined}

abbrev pub calls_for : Option Callbacks → Status → Bool
calls_for none s = false
calls_for (some c) s = c.on s

module _ {L : Type 0} (lib : Library L) where
  -- The callbacks are those of the mask, and the C library has them exactly if the entity is enabled.
  pub record IsServed (d : Delegate L) : Type 0 where
    pub chosen_by_mask :
        (s : Status) → calls_for d.listener_callbacks s ≡ d.listener_mask (status_bit s)
    pub installed_lem : lib.installed d.library ≡ (if d.enabled then d.listener_callbacks else none)

  accepted : (code : ℤ) → check_ddsc_result lib.err_nr code ≡ ok tt → (n : ℕ) × (code ≡ pos n)
  unfolding check_ddsc_result
  accepted (pos n) h = (n, refl)
  accepted (negsuc n) h = cc

  refused : (code : ℤ) → check_ddsc_result lib.err_nr code ≢ ok tt → (n : ℕ) × (code ≡ negsuc n)
  unfolding check_ddsc_result
  refused (pos n) h = absurd (h refl)
  refused (negsuc n) h = (n, refl)

  install-ok :
      (c : Option Callbacks) (d : Delegate L)
      → (install lib c d).0 ≡ ok tt
      → lib.installed (install lib c d).1.library ≡ c
  unfolding install
  install-ok c d h =
      let (n, e) = accepted (lib.set_listener c d.library).0 h in lib.installed-ok c d.library n e

  install-failed :
      (c : Option Callbacks) (d : Delegate L)
      → (install lib c d).0 ≢ ok tt
      → lib.installed (install lib c d).1.library ≡ lib.installed d.library
  unfolding install
  install-failed c d h =
      let (n, e) = refused (lib.set_listener c d.library).0 h in
      lib.installed-failed c d.library n e

  install_frame :
      (c : Option Callbacks) (d : Delegate L)
      → ((install lib c d).1.enabled ≡ d.enabled)
        × ((install lib c d).1.listener_mask ≡ d.listener_mask)
        × ((install lib c d).1.listener_callbacks ≡ d.listener_callbacks)
  unfolding install
  install_frame c d = (refl, refl, refl)

  chosen-on :
      (mask : Mask) (reset : Bool) (s : Status) → (chosen mask reset).on s ≡ mask (status_bit s)
  unfolding chosen
  chosen-on mask reset s = contains-single (status_bit s) mask (status_bit-lt s)

  enable-IsServed :
      (d : Delegate L) → IsServed d → (enable lib d).0 ≡ ok tt → IsServed (enable lib d).1
  unfolding enable
  enable-IsServed d v h =
      let on : Delegate L = record d { enabled = true } in
      let frame = install_frame d.listener_callbacks on in
      record {
        chosen_by_mask = λ s. ground (arith, v.chosen_by_mask s, frame);
        installed_lem = ground (arith, install-ok d.listener_callbacks on h, frame);
      }

  renamed : ℕ → Mask → Delegate L → Delegate L
  renamed listener mask d = record d { listener = listener; listener_mask = mask }

  store-ok :
      (c : Callbacks) (r : Result (Unit {0})) (d : Delegate L)
      → (store lib c (r, d)).0 ≡ ok tt
      → (r ≡ ok tt) × ((store lib c (r, d)).1 ≡ record d { listener_callbacks = some c })
  store-ok c (ok u) d h = (refl, refl)
  store-ok c (throws e) d h = cc
  store-ok c undefined d h = cc

  store-failed :
      (c : Callbacks) (r : Result (Unit {0})) (d : Delegate L)
      → (store lib c (r, d)).0 ≢ ok tt
      → (r ≢ ok tt) × ((store lib c (r, d)).1 ≡ d)
  store-failed c (ok u) d h = absurd (h refl)
  store-failed c (throws e) d h = (λ k. cc, refl)
  store-failed c undefined d h = (λ k. cc, refl)

  listener_set-enabled :
      (listener : ℕ) (mask : Mask) (reset : Bool) (d : Delegate L)
      → d.enabled ≡ true
      → listener_set lib listener mask reset d
        ≡ store lib
            (chosen mask reset)
            (install lib (some (chosen mask reset)) (renamed listener mask d))
  unfolding listener_set renamed
  listener_set-enabled listener mask reset d e = ground arith

  listener_set-disabled :
      (listener : ℕ) (mask : Mask) (reset : Bool) (d : Delegate L)
      → d.enabled ≡ false
      → listener_set lib listener mask reset d ≡ (
        ok tt,
        record (renamed listener mask d) { listener_callbacks = some (chosen mask reset) },
      )
  unfolding listener_set renamed
  listener_set-disabled listener mask reset d e = ground arith

  listener_set-IsServed :
      (listener : ℕ) (mask : Mask) (reset : Bool) (d : Delegate L)
      → IsServed d
      → (listener_set lib listener mask reset d).0 ≡ ok tt
      → IsServed (listener_set lib listener mask reset d).1
  unfolding renamed
  listener_set-IsServed listener mask reset d v h = elim (Bool-cases d.enabled) [
    | inl e ↦
        let c = chosen mask reset in
        let eq = listener_set-enabled listener mask reset d e in
        let d' = install lib (some c) (renamed listener mask d) in
        let (returned, stored) = store-ok c d'.0 d'.1 (sym (ap (λ r. r.0) eq) ∙ h) in
        let frame = install_frame (some c) (renamed listener mask d) in
        subst IsServed (sym (ap (λ r. r.1) eq ∙ stored)) (record {
          chosen_by_mask = λ s. ground (arith, chosen-on mask reset s, frame.1);
          installed_lem =
              ground (arith, e, install-ok (some c) (renamed listener mask d) returned, frame.0);
        })
    | inr e ↦
        subst IsServed (sym (ap (λ r. r.1) (listener_set-disabled listener mask reset d e)))
          (record {
            chosen_by_mask = chosen-on mask reset;
            installed_lem = ground (arith, e, v.installed_lem);
          })
  ]

  and_then-ok :
      (r : Result (Unit {0})) (d : Delegate L) (f : Delegate L → Result (Unit {0}) × Delegate L)
      → (and_then lib (r, d) f).0 ≡ ok tt
      → (r ≡ ok tt) × (and_then lib (r, d) f ≡ f d)
  and_then-ok (ok u) d f h = (refl, refl)
  and_then-ok (throws e) d f h = cc
  and_then-ok undefined d f h = cc

  apply-IsServed :
      (x : Setting lib) (d : Delegate L)
      → IsServed d
      → (apply lib x d).0 ≡ ok tt
      → IsServed (apply lib x d).1
  unfolding apply
  apply-IsServed enables d v h = enable-IsServed d v h
  apply-IsServed (sets listener mask reset) d v h = listener_set-IsServed listener mask reset d v h

  apply_all-IsServed :
      (xs : List (Setting lib)) (d : Delegate L)
      → IsServed d
      → (apply_all lib xs d).0 ≡ ok tt
      → IsServed (apply_all lib xs d).1
  unfolding apply_all
  apply_all-IsServed [] d v h = v
  apply_all-IsServed (x ∷ xs) d v h =
      let d' = apply lib x d in
      let (first, e) = and_then-ok d'.0 d'.1 (apply_all lib xs) h in
      rw e (apply_all-IsServed xs d'.1 (apply-IsServed x d v first) (sym (ap (λ r. r.0) e) ∙ h))

  served-calls_for :
      (d : Delegate L)
      → IsServed d
      → (s : Status)
      → calls_for (lib.installed d.library) s ≡ (d.enabled && d.listener_mask (status_bit s))
  served-calls_for d v s = ground (arith, v.installed_lem, v.chosen_by_mask s)

  -- However often an entity without a listener gets listeners and is enabled, if the calls return:
  -- the C library calls for a status exactly if the entity is enabled and the status is in the mask.
  pub apply_all-calls_for :
      (xs : List (Setting lib)) (l : L)
      → lib.installed l ≡ none
      → (apply_all lib xs (created l)).0 ≡ ok tt
      → (s : Status)
      → let d = (apply_all lib xs (created l)).1 in
        calls_for (lib.installed d.library) s ≡ (d.enabled && d.listener_mask (status_bit s))
  apply_all-calls_for xs l none_yet h s =
      served-calls_for (apply_all lib xs (created l)).1
        (apply_all-IsServed xs (created l)
          (record { chosen_by_mask = λ t. refl; installed_lem = none_yet }) h)
        s

  -- A listener that the C library refuses for an enabled entity: the mask is the new one, and what
  -- is called is what was.
  pub listener_set-refused :
      (listener : ℕ) (mask : Mask) (reset : Bool) (d : Delegate L)
      → d.enabled ≡ true
      → (listener_set lib listener mask reset d).0 ≢ ok tt
      → let d' = (listener_set lib listener mask reset d).1 in
        (d'.listener_mask ≡ mask)
        × (lib.installed d'.library ≡ lib.installed d.library)
        × (d'.listener_callbacks ≡ d.listener_callbacks)
  unfolding renamed
  listener_set-refused listener mask reset d e h =
      let c = chosen mask reset in
      let eq = listener_set-enabled listener mask reset d e in
      let d' = install lib (some c) (renamed listener mask d) in
      let (failed, kept) = store-failed c d'.0 d'.1 (λ k. h (ap (λ r. r.0) eq ∙ k)) in
      let frame = install_frame (some c) (renamed listener mask d) in
      let same = ap (λ r. r.1) eq ∙ kept in
      (
        ap (λ (x : Delegate L). x.listener_mask) same ∙ frame.1,
        ap (λ (x : Delegate L). lib.installed x.library) same
            ∙ install-failed (some c) (renamed listener mask d) failed,
        ap (λ (x : Delegate L). x.listener_callbacks) same ∙ frame.2,
      )
