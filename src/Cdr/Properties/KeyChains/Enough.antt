-- ===== src/Cdr/Properties/KeyChains/Enough.antt =====
-- The fuel of the walks over keys is enough where links lead forward, as the first loop of finish
-- leaves them.
use cyclonedds_cxx.Common.{
  ℕ, ◌+◌, ◌<◌, ◌≤◌, ◌≡◌, sym, ◌∙◌, arith, inl, inr, Option, none, some, ltb, ltb→lt, Bool-cases,
}
use cyclonedds_cxx.Cdr.Properties.{Propvec}
use cyclonedds_cxx.Cdr.Properties.Linking.{link_levels}
use cyclonedds_cxx.Cdr.Properties.Linking.Levels.{IsWalk, sibling-eq_some}
use cyclonedds_cxx.Cdr.Properties.Linking.Invariant.{IsBlank}
use cyclonedds_cxx.Cdr.Properties.Linking.Rounds.{link_levels-IsLinked}

-- Links to the next of a level and to the first member lead to later entries of the vector.
pub record IsForward (pv : Propvec) : Type 0 where
  pub nexts : (i j : ℕ) → (pv.entry i).next_on_level ≡ some j → (i < j) × (j < pv.count)
  pub firsts : (i j : ℕ) → (pv.entry i).first_member ≡ some j → (i < j) × (j < pv.count)

abbrev pub HasLinksOf : Propvec → Propvec → Type 0
HasLinksOf q pv =
    (q.count ≡ pv.count)
    × ((k : ℕ) → (q.entry k).next_on_level ≡ (pv.entry k).next_on_level)
    × ((k : ℕ) → (q.entry k).first_member ≡ (pv.entry k).first_member)

-- The fuel reaches from the entry to the end of the vector.
abbrev Reaches : ℕ → ℕ → Option ℕ → Type 0
Reaches fuel count none = Unit {0}
Reaches fuel count (some i) = (i < count) × (count ≤ fuel + i)

-- The links of the levels lead forward.
pub link_levels-IsForward :
    (pv : Propvec) → IsWalk pv → IsBlank pv → IsForward (link_levels pv.count pv)
link_levels-IsForward pv w b =
    let l = link_levels-IsLinked pv w b in
    record {
      nexts = λ i j e. elim (Bool-cases (ltb i pv.count)) [
        | inl a ↦
            let g =
              sibling-eq_some pv i j (ltb→lt i pv.count a)
                (sym (l.next_of i (ltb→lt i pv.count a)) ∙ e) in
            (g.0, omega (arith, g.1, l.counted))
        | inr a ↦ absurd (ground (arith, e, l.next_left i))
      ];
      firsts = λ i j e.
          let (a, c, d) = l.first_from i j e in (omega (arith, a), omega (arith, c, l.counted));
    }
