-- ===== src/Core/Status/RoundTrip.antt =====
-- A mask of statuses comes back from the C library as it was.
use cyclonedds_cxx.Common.{
  ℕ, zero, suc, ◌<◌, ◌≡◌, ◌≢◌, refl, sym, ap, ◌∙◌, arith, Bool, true, false, ◌&&◌, ◌||◌, List, [],
  ◌∷◌, ◌==◌, ltb, lt→ltb, ==_iff, if◌then◌else◌,
}
use cyclonedds_cxx.Core.Status.{
  Status, status_bit, Mask, single, covers_below, status_mask_contains, meets_below, meets, no_bits,
  merge_if, converted_statuses, to_ddsc_each, to_ddsc_mask, from_ddsc_each, from_ddsc_mask,
}

covers_below-single :
    (n k : ℕ) (m : Mask) → covers_below n m (single k) ≡ (if ltb k n then m k else true)
unfolding covers_below
covers_below-single zero k m = ground arith
covers_below-single (suc n) k m = ground (arith, covers_below-single n k m)

meets_below-single :
    (n k : ℕ) (m : Mask) → meets_below n m (single k) ≡ (if ltb k n then m k else false)
unfolding meets_below
meets_below-single zero k m = ground arith
meets_below-single (suc n) k m = ground (arith, meets_below-single n k m)

pub contains-single : (k : ℕ) (m : Mask) → k < 32 → status_mask_contains m (single k) ≡ m k
unfolding status_mask_contains
contains-single k m a =
    covers_below-single 32 k m ∙ ap (λ (b : Bool). if b then m k else true) (lt→ltb k 32 a)

meets-single : (k : ℕ) (m : Mask) → k < 32 → meets m (single k) ≡ m k
unfolding meets
meets-single k m a =
    meets_below-single 32 k m ∙ ap (λ (b : Bool). if b then m k else false) (lt→ltb k 32 a)

pub status_bit-lt : (s : Status) → status_bit s < 32
status_bit-lt s = ground arith

status_bit_injective : (s t : Status) → status_bit s ≡ status_bit t → s ≡ t
status_bit_injective s t h = ground arith

or_nothing : (b : Bool) → b ≡ (b || false)
or_nothing b = ground arith

==_swap : (i j : ℕ) (b : Bool) → (i == j) ≡ b → (j == i) ≡ b
==_swap i j b h = ground arith

-- One round of a conversion: `l` is whether the status comes later, and `e` whether it comes now.
merge_if-listed :
    (b f l e : Bool) (mask : Mask) (k j : ℕ)
    → (e ≡ true → (b ≡ f) × ((j == k) ≡ true))
    → (e ≡ false → (j == k) ≡ false)
    → (merge_if b mask k j || (l && f)) ≡ (mask j || ((if e then true else l) && f))
merge_if-listed b f l true mask k j h g = ground (arith, h refl)
merge_if-listed b f l false mask k j h g = ground (arith, g refl)

abbrev listed : Status → List Status → Bool
listed t [] = false
listed t (s ∷ ss) = if status_bit s == status_bit t then true else listed t ss

listed-converted_statuses : (t : Status) → listed t converted_statuses ≡ true
listed-converted_statuses t = ground arith

module _ (ddsc_bit : Status → ℕ) (fits : (s : Status) → ddsc_bit s < 32)
    (differ : (s t : Status) → ddsc_bit s ≡ ddsc_bit t → s ≡ t) where
  ddsc_bit_ne : (s t : Status) → (status_bit s == status_bit t) ≡ false → ddsc_bit t ≢ ddsc_bit s
  ddsc_bit_ne s t ne e = let same = ap status_bit (differ t s e) in ground (arith, same)

  status_bit_ne :
      (s t : Status) → (status_bit s == status_bit t) ≡ false → (ddsc_bit t == ddsc_bit s) ≡ false
  status_bit_ne s t ne = ground (arith, ddsc_bit_ne s t ne)

  to_ddsc_each-at :
      (t : Status) (ss : List Status) (from mask : Mask)
      → to_ddsc_each ddsc_bit ss from mask (ddsc_bit t)
        ≡ (mask (ddsc_bit t) || (listed t ss && from (status_bit t)))
  unfolding to_ddsc_each
  to_ddsc_each-at t [] from mask = or_nothing (mask (ddsc_bit t))
  to_ddsc_each-at t (s ∷ ss) from mask =
      let asked = status_mask_contains from (single (status_bit s)) in
      to_ddsc_each-at t ss from (merge_if asked mask (ddsc_bit s))
      ∙ merge_if-listed asked (from (status_bit t)) (listed t ss) (status_bit s == status_bit t)
          mask (ddsc_bit s) (ddsc_bit t)
          (λ e.
            let same = status_bit_injective s t ((==_iff (status_bit s) (status_bit t)).0 e) in
            (
              contains-single (status_bit s) from (status_bit-lt s)
                  ∙ ap (λ (u : Status). from (status_bit u)) same,
              (==_iff (ddsc_bit t) (ddsc_bit s)).1 (sym (ap ddsc_bit same)),
            ))
          (status_bit_ne s t)

  from_ddsc_each-at :
      (t : Status) (ss : List Status) (from mask : Mask)
      → from_ddsc_each ddsc_bit ss from mask (status_bit t)
        ≡ (mask (status_bit t) || (listed t ss && from (ddsc_bit t)))
  unfolding from_ddsc_each
  from_ddsc_each-at t [] from mask = or_nothing (mask (status_bit t))
  from_ddsc_each-at t (s ∷ ss) from mask =
      let asked = meets from (single (ddsc_bit s)) in
      from_ddsc_each-at t ss from (merge_if asked mask (status_bit s))
      ∙ merge_if-listed asked (from (ddsc_bit t)) (listed t ss) (status_bit s == status_bit t) mask
          (status_bit s) (status_bit t)
          (λ e.
            let same = status_bit_injective s t ((==_iff (status_bit s) (status_bit t)).0 e) in
            (
              meets-single (ddsc_bit s) from (fits s) ∙ ap (λ (u : Status). from (ddsc_bit u)) same,
              ==_swap (status_bit s) (status_bit t) true e,
            ))
          (==_swap (status_bit s) (status_bit t) false)

  -- A mask of statuses that goes to the C library and back has the statuses of before, and so has
  -- one that comes from the C library and goes back.
  pub from_ddsc_mask-to_ddsc_mask :
      (m c : Mask) (t : Status)
      → (from_ddsc_mask ddsc_bit (to_ddsc_mask ddsc_bit m) (status_bit t) ≡ m (status_bit t))
        × (to_ddsc_mask ddsc_bit (from_ddsc_mask ddsc_bit c) (ddsc_bit t) ≡ c (ddsc_bit t))
  unfolding from_ddsc_mask to_ddsc_mask
  from_ddsc_mask-to_ddsc_mask m c t =
      let all = listed-converted_statuses t in
      (
        ground (
          arith,
          all,
          from_ddsc_each-at t converted_statuses (to_ddsc_mask ddsc_bit m) no_bits,
          to_ddsc_each-at t converted_statuses m no_bits,
        ),
        ground (
          arith,
          all,
          to_ddsc_each-at t converted_statuses (from_ddsc_mask ddsc_bit c) no_bits,
          from_ddsc_each-at t converted_statuses c no_bits,
        ),
      )
