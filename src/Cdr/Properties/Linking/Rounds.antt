-- ===== src/Cdr/Properties/Linking/Rounds.antt =====
-- The round of one entry keeps what IsLinked says, and so does the loop over all entries.
use cyclonedds_cxx.Common.{
  ℕ, zero, suc, ◌+◌, ◌<◌, ◌≤◌, ◌≡◌, ◌≢◌, refl, sym, ◌∙◌, subst, ◌⊎◌, inl, inr, arith, Option, none,
  some, ◌==◌, if◌then◌else◌, Bool-cases, Option-cases,
}
use cyclonedds_cxx.Cdr.Properties.{Propvec}
use cyclonedds_cxx.Cdr.Properties.Linking.{
  link_sibling, parent_of, attach, link_parent, link_levels,
}
use cyclonedds_cxx.Cdr.Properties.Linking.Levels.{IsNext, sibling, IsWalk, IsParent}
use cyclonedds_cxx.Cdr.Properties.Linking.Frames.{
  link_pair_frame, link_pair-next, attach_frame, attach-first, attach-first_some, attach-first_none,
}
use cyclonedds_cxx.Cdr.Properties.Linking.Invariant.{IsLinked, IsBlank, start-IsLinked}
use cyclonedds_cxx.Cdr.Properties.Linking.Pairing.{
  paired, link_sibling-paired, paired-prev_of, paired-prev_from, new-IsParent, parent_of-none,
}

module _ (pv q : Propvec) (n : ℕ) (w : IsWalk pv) (lt : n < pv.count) (l : IsLinked pv q n) where
  abbrev round : Propvec
  round = link_parent n (link_sibling n q)

  -- The round, by what it finds before the entry `n`.
  round-attach :
      (c : Option ℕ)
      → ((paired pv q n).entry n).prev_on_level ≡ c
      → round ≡ attach n c (parent_of n c (paired pv q n)) (paired pv q n)
  unfolding link_parent
  round-attach c e = rw (link_sibling-paired pv q n w lt l) (rw e)

  round_frame :
      (k : ℕ)
      → (round.count ≡ pv.count)
        × ((round.entry k).depth ≡ (pv.entry k).depth)
        × ((round.entry k).next_on_level ≡ ((paired pv q n).entry k).next_on_level)
        × ((round.entry k).prev_on_level ≡ ((paired pv q n).entry k).prev_on_level)
  round_frame k =
      let c = ((paired pv q n).entry n).prev_on_level in
      let e = round-attach c refl in
      let after = attach_frame n c (parent_of n c (paired pv q n)) (paired pv q n) k in
      let before = link_pair_frame n (sibling pv n) q k in
      rw e (after.0 ∙ before.0 ∙ l.counted, after.1 ∙ before.1 ∙ l.depths k, after.2, after.3)

  round-parent :
      (k : ℕ)
      → (round.entry k).parent ≡ (
          if k == n
          then parent_of n ((paired pv q n).entry n).prev_on_level (paired pv q n)
          else (q.entry k).parent)
  round-parent k =
      let c = ((paired pv q n).entry n).prev_on_level in
      rw (round-attach c refl) (
        ground (
          arith,
          (attach_frame n c (parent_of n c (paired pv q n)) (paired pv q n) k).4,
          (link_pair_frame n (sibling pv n) q k).2,
        ))

  -- The round leaves the first members, but that of the parent of an entry with none before it.
  round-first :
      (c : Option ℕ)
      → ((paired pv q n).entry n).prev_on_level ≡ c
      → ((k : ℕ) → (round.entry k).first_member ≡ (q.entry k).first_member)
          × ((c ≢ none) ⊎ ((pv.entry n).depth ≡ 0))
        ⊎ ((r : ℕ) × (n ≡ suc r)
            × IsParent pv r n
            × ((k : ℕ)
                → (round.entry k).first_member
                  ≡ (if k == r then some n else (q.entry k).first_member)))
  round-first (some b) e = inl (
    (λ k. rw (round-attach (some b) e) (
        attach-first_some n b (parent_of n (some b) (paired pv q n)) (paired pv q n) k
        ∙ (link_pair_frame n (sibling pv n) q k).3)),
    inl (λ h. cc),
  )
  round-first none e = elim (Bool-cases ((pv.entry n).depth == 0)) [
    | inl z ↦
        let rootward = (new-IsParent pv q n w lt l none e).0 (ground arith) in
        inl (
          (λ k.
              rw (round-attach none e, rootward)
                (attach-first_none n none (paired pv q n) k
                  ∙ (link_pair_frame n (sibling pv n) q k).3)),
          inr (ground arith),
        )
    | inr nz ↦
        let (r, found, is) = (new-IsParent pv q n w lt l none e).1 (ground arith) in
        inr (
          r,
          parent_of-none pv q n w lt l r (ground arith) found is.0,
          is,
          λ k.
              rw (round-attach none e, found)
                (ground (
                  arith,
                  attach-first n r (paired pv q n) k,
                  (link_pair_frame n (sibling pv n) q k).3,
                )),
        )
  ]

  round-parent_self :
      (round.entry n).parent ≡ parent_of n ((paired pv q n).entry n).prev_on_level (paired pv q n)
  round-parent_self = ground (arith, round-parent n)

  round-next :
      (i : ℕ)
      → (round.entry i).next_on_level ≡ (if i == n then sibling pv n else (q.entry i).next_on_level)
  round-next i =
      (round_frame i).2 ∙ link_pair-next n (sibling pv n) q i (l.next_left n (omega arith))

  -- Where the first member of an entry comes right after it, none of its level comes before.
  no_prev_before :
      (p k : ℕ) → suc p ≡ n → (pv.entry n).depth ≡ (pv.entry p).depth + 1 → ¬ IsNext pv k n
  no_prev_before p k e d g = elim (Bool-cases (k == p)) [
    | inl at ↦ ground (arith, g.2)
    | inr off ↦ ground (arith, g.0, g.2, g.3 p)
  ]

  second_on_level :
      (p : ℕ)
      → suc p ≡ n
      → (pv.entry n).depth ≡ (pv.entry p).depth + 1
      → ¬ ((((paired pv q n).entry n).prev_on_level ≢ none) ⊎ ((pv.entry n).depth ≡ 0))
  second_on_level p e d (inr z) = omega arith
  second_on_level p e d (inl ne) = elim (Option-cases ((paired pv q n).entry n).prev_on_level) [
    | inl f ↦ ne f
    | inr (k, f) ↦ no_prev_before p k e d (paired-prev_from pv q n w lt l k n f).1
  ]

  round-first_of :
      (p : ℕ)
      → suc p < suc n
      → (pv.entry (suc p)).depth ≡ (pv.entry p).depth + 1
      → (round.entry p).first_member ≡ some (suc p)
  round-first_of p a d = elim (round-first ((paired pv q n).entry n).prev_on_level refl) [
    | inl (same, why) ↦ elim (Bool-cases (suc p == n)) [
      | inl at ↦
          let here : suc p ≡ n = ground arith in
          absurd (
            second_on_level p here
              (subst (λ (k : ℕ). (pv.entry k).depth ≡ (pv.entry p).depth + 1) here d) why)
      | inr off ↦ same p ∙ l.first_of p (ground arith) d
    ]
    | inr (r, e, is, first) ↦ elim (Bool-cases (suc p == n)) [
      | inl at ↦ ground (arith, first p)
      | inr off ↦ ground (arith, first p, l.first_of p)
    ]
  ]

  round-first_from :
      (p i : ℕ)
      → (round.entry p).first_member ≡ some i
      → (i ≡ suc p) × (i < suc n) × ((pv.entry i).depth ≡ (pv.entry p).depth + 1)
  round-first_from p i e = elim (round-first ((paired pv q n).entry n).prev_on_level refl) [
    | inl (same, why) ↦
        let (a, b, d) = l.first_from p i (sym (same p) ∙ e) in (a, omega (arith, b), d)
    | inr (r, f, is, first) ↦ elim (Bool-cases (p == r)) [
      | inl at ↦
          let here : n ≡ i = ground (arith, first p) in
          let up : r ≡ p = ground arith in
          (
            omega (arith, here, up, f),
            omega (arith, here),
            subst (λ (k : ℕ). (pv.entry k).depth ≡ (pv.entry p).depth + 1) here
                (subst (λ (k : ℕ). (pv.entry n).depth ≡ (pv.entry k).depth + 1) up is.1),
          )
      | inr off ↦
          let (a, b, d) = l.first_from p i (ground (arith, first p)) in (a, omega (arith, b), d)
    ]
  ]

  round-parent_root : (j : ℕ) → j < suc n → (pv.entry j).depth ≡ 0 → (round.entry j).parent ≡ none
  round-parent_root j a z = elim (Bool-cases (j == n)) [
    | inl at ↦
        let here : n ≡ j = ground arith in
        subst (λ (k : ℕ). (round.entry k).parent ≡ none) here
          (round-parent_self
            ∙ (new-IsParent pv q n w lt l ((paired pv q n).entry n).prev_on_level refl).0
                (subst (λ (k : ℕ). (pv.entry k).depth ≡ 0) (sym here) z))
    | inr off ↦ ground (arith, round-parent j, l.parent_root j)
  ]

  round-parent_lem :
      (j : ℕ)
      → j < suc n
      → 0 < (pv.entry j).depth
      → (p : ℕ) × ((round.entry j).parent ≡ some p) × IsParent pv p j
  round-parent_lem j a d = elim (Bool-cases (j == n)) [
    | inl at ↦
        let here : n ≡ j = ground arith in
        let (p, found, is) =
          (new-IsParent pv q n w lt l ((paired pv q n).entry n).prev_on_level refl).1
            (subst (λ (k : ℕ). 0 < (pv.entry k).depth) (sym here) d) in
        (
          p,
          subst (λ (k : ℕ). (round.entry k).parent ≡ some p) here (round-parent_self ∙ found),
          subst (λ (k : ℕ). IsParent pv p k) here is,
        )
    | inr off ↦
        let (p, found, is) = l.parent_lem j (ground arith) d in
        (p, ground (arith, round-parent j, found), is)
  ]

  pub round-IsLinked : IsLinked pv round (suc n)
  round-IsLinked = record {
    counted = (round_frame 0).0;
    depths = λ i. (round_frame i).1;
    next_of = λ i a. ground (arith, round-next i, l.next_of i);
    next_left = λ i a. ground (arith, round-next i, l.next_left i);
    prev_of = λ i j a h. (round_frame j).3 ∙ paired-prev_of pv q n w lt l i j a h;
    prev_from = λ i j e. paired-prev_from pv q n w lt l i j (sym (round_frame j).3 ∙ e);
    parent_root = round-parent_root;
    parent_lem = round-parent_lem;
    first_of = round-first_of;
    first_from = round-first_from;
  }

link_levels_prefix :
    (n : ℕ) (pv : Propvec)
    → IsWalk pv
    → IsBlank pv
    → n ≤ pv.count
    → IsLinked pv (link_levels n pv) n
unfolding link_levels
link_levels_prefix zero pv w b le = start-IsLinked pv b
link_levels_prefix (suc n) pv w b le =
    round-IsLinked pv (link_levels n pv) n w (omega arith)
      (link_levels_prefix n pv w b (omega arith))

-- Where the depths of a vector are those of a walk and no entry has a link, the loop links each
-- entry with the next of its level in both directions, with the type that it is a member of, and
-- each type with its first member, and sets no other link.
pub link_levels-IsLinked :
    (pv : Propvec) → IsWalk pv → IsBlank pv → IsLinked pv (link_levels pv.count pv) pv.count
link_levels-IsLinked pv w b = link_levels_prefix pv.count pv w b (omega arith)
