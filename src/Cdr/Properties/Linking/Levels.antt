-- ===== src/Cdr/Properties/Linking/Levels.antt =====
-- The links between the members of a level, and between a member and its type, after the first loop
-- of finish.
use cyclonedds_cxx.Common.{
  ℕ, zero, suc, ◌+◌, ◌-◌, ◌<◌, ◌≤◌, ◌≡◌, inl, inr, arith, Option, some, ◌==◌, ltb, Bool-cases,
}
use cyclonedds_cxx.Cdr.Properties.{Propvec}
use cyclonedds_cxx.Cdr.Properties.Linking.{next_sibling}

-- `j` is the next entry of the level of `i`: the entries between lie deeper.
abbrev pub IsNext : Propvec → ℕ → ℕ → Type 0
IsNext pv i j =
    (i < j)
    × (j < pv.count)
    × ((pv.entry j).depth ≡ (pv.entry i).depth)
    × ((k : ℕ) → i < k → k < j → (pv.entry i).depth < (pv.entry k).depth)

abbrev pub sibling : Propvec → ℕ → Option ℕ
sibling pv i = next_sibling (pv.count - (i + 1)) pv (pv.entry i).depth (i + 1)

next_sibling-eq_some :
    (left : ℕ) (pv : Propvec) (d j r k : ℕ)
    → next_sibling left pv d j ≡ some r
    → (j ≤ r) × (r < j + left) × ((pv.entry r).depth ≡ d) × (j ≤ k → k < r → d < (pv.entry k).depth)
unfolding next_sibling
next_sibling-eq_some zero pv d j r k h = cc
next_sibling-eq_some (suc left) pv d j r k h =
    ground (arith, next_sibling-eq_some left pv d (j + 1) r k)

-- Where the entries before `r` are deeper than `d`, and `r` is not, the search ends there.
next_sibling_finds :
    (left : ℕ) (pv : Propvec) (d j r : ℕ)
    → j ≤ r
    → r < j + left
    → (pv.entry r).depth ≡ d
    → ((k : ℕ) → j ≤ k → k < r → d < (pv.entry k).depth)
    → next_sibling left pv d j ≡ some r
unfolding next_sibling
next_sibling_finds zero pv d j r a b e h = absurd (omega arith)
next_sibling_finds (suc left) pv d j r a b e h =
    ground (arith, h j, next_sibling_finds left pv d (j + 1) r, λ (k : ℕ). h k)

pub sibling-eq_some :
    (pv : Propvec) (i j : ℕ) → i < pv.count → sibling pv i ≡ some j → IsNext pv i j
sibling-eq_some pv i j lt h =
    let at =
      λ (k : ℕ). next_sibling-eq_some (pv.count - (i + 1)) pv (pv.entry i).depth (i + 1) j k h in
    (omega (arith, at 0), omega (arith, at 0), (at 0).2, λ k a b. (at k).3 (omega arith) b)

pub IsNext-sibling : (pv : Propvec) (i j : ℕ) → IsNext pv i j → sibling pv i ≡ some j
IsNext-sibling pv i j h =
    next_sibling_finds (pv.count - (i + 1)) pv (pv.entry i).depth (i + 1) j (omega (arith, h.0))
      (omega (arith, h.0, h.1)) h.2 (λ k a b. h.3 k (omega arith) b)

-- An entry is next to one entry only.
pub IsNext-unique : (pv : Propvec) (i k j : ℕ) → IsNext pv i j → IsNext pv k j → i ≡ k
IsNext-unique pv i k j h g = ground (arith, h.0, h.2, g.0, g.2, h.3 k, g.3 i)

-- The depths of a type and its members in the order of a walk: the type itself at depth 0, and every
-- member at most one deeper than the entry before.
pub record IsWalk (pv : Propvec) : Type 0 where
  pub root : (pv.entry 0).depth ≡ 0
  pub below : (i : ℕ) → suc i < pv.count → 0 < (pv.entry (suc i)).depth
  pub descent : (i : ℕ) → suc i < pv.count → (pv.entry (suc i)).depth ≤ (pv.entry i).depth + 1

-- From an entry at least as deep as `n`, with none less deep behind it, back to the one of the level
-- of `n`.
walk_back :
    (m n : ℕ) (pv : Propvec)
    → IsWalk pv
    → n < pv.count
    → m < n
    → ((k : ℕ) → m < k → k < n → (pv.entry n).depth < (pv.entry k).depth)
    → (pv.entry n).depth ≤ (pv.entry m).depth
    → 0 < (pv.entry n).depth
    → (k : ℕ) × IsNext pv k n
walk_back zero n pv w lt a deep le p = absurd (omega (arith, w.root))
walk_back (suc m) n pv w lt a deep le p =
    elim (Bool-cases ((pv.entry (suc m)).depth == (pv.entry n).depth)) [
      | inl e ↦ (suc m, (a, lt, ground arith, λ k b c. ground (arith, deep k b c)))
      | inr ne ↦
          walk_back m n pv w lt (omega arith)
            (λ k b c. elim (Bool-cases (k == suc m)) [
              | inl at ↦ ground arith
              | inr off ↦ deep k (ground arith) c
            ])
            (ground (arith, w.descent m)) p
    ]

-- A member with no entry of its level before it follows its type.
follows_parent :
    (n : ℕ) (pv : Propvec)
    → IsWalk pv
    → suc n < pv.count
    → ((k : ℕ) → ¬ IsNext pv k (suc n))
    → (pv.entry (suc n)).depth ≡ (pv.entry n).depth + 1
follows_parent n pv w lt alone =
    elim (Bool-cases (ltb (pv.entry n).depth (pv.entry (suc n)).depth)) [
      | inl deeper ↦ ground (arith, w.descent n)
      | inr not_deeper ↦
          let (k, found) =
            walk_back n (suc n) pv w lt (omega arith) (λ k b c. absurd (omega arith)) (ground arith)
              (w.below n lt) in
          absurd (alone k found)
    ]

-- `p` is the entry of which `j` is a member: the last before it that is less deep.
abbrev pub IsParent : Propvec → ℕ → ℕ → Type 0
IsParent pv p j =
    (p < j)
    × ((pv.entry j).depth ≡ (pv.entry p).depth + 1)
    × ((k : ℕ) → p < k → k < j → (pv.entry j).depth ≤ (pv.entry k).depth)

pub entry_before :
    (n : ℕ) (pv : Propvec)
    → IsWalk pv
    → n < pv.count
    → 0 < (pv.entry n).depth
    → ((k : ℕ) → ¬ IsNext pv k n)
    → IsParent pv (n - 1) n
entry_before zero pv w lt p alone = absurd (omega (arith, w.root))
entry_before (suc n) pv w lt p alone =
    let same : suc n - 1 ≡ n = omega arith in
    rw same (omega arith, follows_parent n pv w lt alone, λ k a b. absurd (omega arith))

-- What an entry is a member of, the next entry of its level is a member of too.
pub IsParent-next : (pv : Propvec) (p k n : ℕ) → IsParent pv p k → IsNext pv k n → IsParent pv p n
IsParent-next pv p k n h g = (
  omega (arith, h.0, g.0),
  ground (arith, h.1, g.2),
  λ i a b. ground (arith, h.2 i a, g.3 i, g.2),
)
