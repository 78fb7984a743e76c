-- ===== src/Cdr/Properties/Linking/Pairing.antt =====
-- The links to the next entry of a level, which the round of an entry sets first.
use cyclonedds_cxx.Common.{
  ℕ, suc, ◌+◌, ◌-◌, ◌<◌, ◌≡◌, sym, ap, ◌∙◌, subst, ◌⊎◌, inl, inr, arith, Option, none, some, ◌==◌,
  Bool-cases, Option-cases,
}
use cyclonedds_cxx.Cdr.Properties.{Propvec}
use cyclonedds_cxx.Cdr.Properties.Linking.{next_sibling, link_pair, link_sibling, parent_of}
use cyclonedds_cxx.Cdr.Properties.Linking.Levels.{
  IsNext, sibling, sibling-eq_some, IsNext-sibling, IsNext-unique, IsWalk, IsParent, entry_before,
  IsParent-next,
}
use cyclonedds_cxx.Cdr.Properties.Linking.Frames.{
  link_pair_frame, link_pair-prev, link_pair-prev_ne,
}
use cyclonedds_cxx.Cdr.Properties.Linking.Invariant.{IsLinked, next_sibling_same}

abbrev pub paired : Propvec → Propvec → ℕ → Propvec
paired pv q n = link_pair n (sibling pv n) q

module _ (pv q : Propvec) (n : ℕ) (w : IsWalk pv) (lt : n < pv.count) (l : IsLinked pv q n) where
  pub link_sibling-paired : link_sibling n q ≡ paired pv q n
  unfolding link_sibling
  link_sibling-paired =
      ap (λ (o : Option ℕ). link_pair n o q)
        (ap (λ (c : ℕ). next_sibling (c - (n + 1)) q (q.entry n).depth (n + 1)) l.counted
          ∙ ap (λ (d : ℕ). next_sibling (pv.count - (n + 1)) q d (n + 1)) (l.depths n)
          ∙ next_sibling_same (pv.count - (n + 1)) (pv.entry n).depth (n + 1) pv q l.depths)

  pub paired-prev_self : (j : ℕ) → IsNext pv n j → ((paired pv q n).entry j).prev_on_level ≡ some n
  paired-prev_self j h = rw (IsNext-sibling pv n j h) (link_pair-prev n j q)

  paired-prev_ne :
      (j : ℕ)
      → ¬ IsNext pv n j
      → ((paired pv q n).entry j).prev_on_level ≡ (q.entry j).prev_on_level
  paired-prev_ne j h = link_pair-prev_ne n (sibling pv n) q j (λ e. h (sibling-eq_some pv n j lt e))

  pub paired-prev_of :
      (i j : ℕ) → i < suc n → IsNext pv i j → ((paired pv q n).entry j).prev_on_level ≡ some i
  paired-prev_of i j a h = elim (Bool-cases (i == n)) [
    | inl e ↦ let same : i ≡ n = ground arith in rw same (paired-prev_self j (rw (← same) h))
    | inr ne ↦
        paired-prev_ne j (λ g. absurd (ground (arith, IsNext-unique pv i n j h g)))
        ∙ l.prev_of i j (ground arith) h
  ]

  IsNext-cases : (j : ℕ) → IsNext pv n j ⊎ (¬ IsNext pv n j)
  IsNext-cases j = elim (Option-cases (sibling pv n)) [
    | inl e ↦ inr (λ g. absurd (ground (arith, e, IsNext-sibling pv n j g)))
    | inr (r, e) ↦ elim (Bool-cases (j == r)) [
      | inl at ↦
          let same : r ≡ j = ground arith in
          inl (sibling-eq_some pv n j lt (e ∙ ap (λ (k : ℕ). some k) same))
      | inr off ↦ inr (λ g. absurd (ground (arith, e, IsNext-sibling pv n j g)))
    ]
  ]

  pub paired-prev_from :
      (i j : ℕ) → ((paired pv q n).entry j).prev_on_level ≡ some i → (i < suc n) × IsNext pv i j
  paired-prev_from i j e = elim (IsNext-cases j) [
    | inl g ↦
        let same : n ≡ i = ground (arith, paired-prev_self j g) in
        (omega (arith, same), subst (λ (k : ℕ). IsNext pv k j) same g)
    | inr away ↦
        let (a, h) = l.prev_from i j (sym (paired-prev_ne j away) ∙ e) in (omega (arith, a), h)
  ]

  -- The type that the entry `n` is a member of, once its sibling before is known.
  pub new-IsParent :
      (c : Option ℕ)
      → ((paired pv q n).entry n).prev_on_level ≡ c
      → ((pv.entry n).depth ≡ 0 → parent_of n c (paired pv q n) ≡ none)
        × (0 < (pv.entry n).depth
            → (p : ℕ) × (parent_of n c (paired pv q n) ≡ some p) × IsParent pv p n)
  unfolding parent_of
  new-IsParent none e =
      let depth = (link_pair_frame n (sibling pv n) q n).1 ∙ l.depths n in
      (
        λ z. ground (arith, depth),
        λ p. (
          n - 1,
          ground (arith, depth),
          entry_before n pv w lt p
              (λ k g. absurd (ground (arith, paired-prev_of k n (omega (arith, g.0)) g, e))),
        ),
      )
  new-IsParent (some k) e =
      let (a, g) = paired-prev_from k n e in
      let same = (link_pair_frame n (sibling pv n) q k).2 in
      (
        λ z. same ∙ l.parent_root k g.0 (sym g.2 ∙ z),
        λ p.
            let (r, found, is) = l.parent_lem k g.0 (rw (← g.2) p) in
            (r, same ∙ found, IsParent-next pv r k n is g),
      )

  pub parent_of-none :
      (r : ℕ)
      → 0 < (pv.entry n).depth
      → parent_of n none (paired pv q n) ≡ some r
      → r < n
      → n ≡ suc r
  unfolding parent_of
  parent_of-none r p e a = ground (arith, (link_pair_frame n (sibling pv n) q n).1, l.depths n)
