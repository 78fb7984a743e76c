-- ===== src/Cdr/Properties/Linking/Invariant.antt =====
-- What the first rounds of the loop over all entries in finish have linked.
use cyclonedds_cxx.Common.{ℕ, zero, suc, ◌+◌, ◌<◌, ◌≤◌, ◌≡◌, refl, arith, none, some}
use cyclonedds_cxx.Cdr.Properties.{Propvec}
use cyclonedds_cxx.Cdr.Properties.Linking.{next_sibling}
use cyclonedds_cxx.Cdr.Properties.Linking.Levels.{IsNext, sibling, IsParent}

-- No entry has a link yet.
pub record IsBlank (pv : Propvec) : Type 0 where
  pub no_next : (i : ℕ) → (pv.entry i).next_on_level ≡ none
  pub no_prev : (i : ℕ) → (pv.entry i).prev_on_level ≡ none
  pub no_first : (i : ℕ) → (pv.entry i).first_member ≡ none

-- `q` is `pv` with the first `n` entries linked.
pub record IsLinked (pv q : Propvec) (n : ℕ) : Type 0 where
  pub counted : q.count ≡ pv.count
  pub depths : (i : ℕ) → (q.entry i).depth ≡ (pv.entry i).depth
  pub next_of : (i : ℕ) → i < n → (q.entry i).next_on_level ≡ sibling pv i
  pub next_left : (i : ℕ) → n ≤ i → (q.entry i).next_on_level ≡ none
  pub prev_of : (i j : ℕ) → i < n → IsNext pv i j → (q.entry j).prev_on_level ≡ some i
  pub prev_from : (i j : ℕ) → (q.entry j).prev_on_level ≡ some i → (i < n) × IsNext pv i j
  pub parent_root : (j : ℕ) → j < n → (pv.entry j).depth ≡ 0 → (q.entry j).parent ≡ none
  pub parent_lem :
      (j : ℕ)
      → j < n
      → 0 < (pv.entry j).depth
      → (p : ℕ) × ((q.entry j).parent ≡ some p) × IsParent pv p j
  pub first_of :
      (p : ℕ)
      → suc p < n
      → (pv.entry (suc p)).depth ≡ (pv.entry p).depth + 1
      → (q.entry p).first_member ≡ some (suc p)
  pub first_from :
      (p i : ℕ)
      → (q.entry p).first_member ≡ some i
      → (i ≡ suc p) × (i < n) × ((pv.entry i).depth ≡ (pv.entry p).depth + 1)

pub start-IsLinked : (pv : Propvec) → IsBlank pv → IsLinked pv pv 0
start-IsLinked pv b = record {
  counted = refl;
  depths = λ i. refl;
  next_of = λ i lt. absurd (omega arith);
  next_left = λ i le. b.no_next i;
  prev_of = λ i j lt. absurd (omega arith);
  prev_from = λ i j e. ground (arith, b.no_prev j);
  parent_root = λ j lt. absurd (omega arith);
  parent_lem = λ j lt. absurd (omega arith);
  first_of = λ p lt. absurd (omega arith);
  first_from = λ p i e. ground (arith, b.no_first p);
}

-- The sibling is looked for among depths that the links leave alone.
pub next_sibling_same :
    (left d j : ℕ) (pv q : Propvec)
    → ((i : ℕ) → (q.entry i).depth ≡ (pv.entry i).depth)
    → next_sibling left q d j ≡ next_sibling left pv d j
unfolding next_sibling
next_sibling_same zero d j pv q same = refl
next_sibling_same (suc left) d j pv q same =
    ground (arith, same j, next_sibling_same left d (j + 1) pv q same)
