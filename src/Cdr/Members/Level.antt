-- ===== src/Cdr/Members/Level.antt =====
-- check_struct_completeness where all members are read: it looks at the members of the struct as
-- finish of entity_properties.cpp has linked them, and at no others.
use cyclonedds_cxx.Common.{
  ℕ, zero, suc, ◌+◌, ◌-◌, ◌<◌, ◌≤◌, ◌≡◌, ◌≢◌, refl, ap, ◌∙◌, subst, inl, inr, arith, true, false,
  Option, none, some, List, ◌==◌, ltb, Bool-cases, Option-cases,
}
use cyclonedds_cxx.Cdr.State.{must_understand_fail, Stream, StreamMode, KeyMode, ok, failed}
use cyclonedds_cxx.Cdr.Stream.{abort_status, add_status}
use cyclonedds_cxx.Cdr.Ready.{raise_heeded}
use cyclonedds_cxx.Cdr.Properties.{Propvec, next_entity}
use cyclonedds_cxx.Cdr.Properties.Linking.{next_sibling}
use cyclonedds_cxx.Cdr.Properties.Linking.Levels.{
  IsNext, sibling, sibling-eq_some, IsWalk, IsParent,
}
use cyclonedds_cxx.Cdr.Properties.Linking.Invariant.{IsLinked}
use cyclonedds_cxx.Cdr.Members.{contains, necessary, check_members, check_struct_completeness}
use cyclonedds_cxx.Cdr.Members.Completeness.{guard_open}

-- `j` is `i`, or an entry of its level behind it with the same parent.
abbrev IsOnLevel : Propvec → ℕ → ℕ → Type 0
IsOnLevel pv i j =
    (i ≤ j)
    × ((pv.entry j).depth ≡ (pv.entry i).depth)
    × ((k : ℕ) → i ≤ k → k ≤ j → (pv.entry i).depth ≤ (pv.entry k).depth)

next_sibling-none :
    (left : ℕ) (pv : Propvec) (d i j : ℕ)
    → next_sibling left pv d i ≡ none
    → i ≤ j
    → j < i + left
    → ((k : ℕ) → i ≤ k → k ≤ j → d ≤ (pv.entry k).depth)
    → (pv.entry j).depth ≢ d
unfolding next_sibling
next_sibling-none zero pv d i j e a b h = absurd (omega arith)
next_sibling-none (suc left) pv d i j e a b h = elim (Bool-cases (i == j)) [
  | inl same ↦ ground arith
  | inr other ↦
      next_sibling-none left pv d (i + 1) j (ground (arith, h i)) (ground arith) (omega arith)
        (λ k c f. h k (omega arith) f)
]

-- An entry without a next one is the last of its level.
last_of_level :
    (pv : Propvec) (i j : ℕ) → sibling pv i ≡ none → j < pv.count → IsOnLevel pv i j → j ≡ i
last_of_level pv i j e lt (le, same, deep) = elim (Bool-cases (ltb i j)) [
  | inl later ↦ absurd (
      next_sibling-none (pv.count - (i + 1)) pv (pv.entry i).depth (i + 1) j e (ground arith)
        (ground arith) (λ k a b. deep k (omega arith) b) same)
  | inr now ↦ ground arith
]

-- The others of the level are on that of the next one.
IsOnLevel-next :
    (pv : Propvec) (i n j : ℕ) → IsNext pv i n → IsOnLevel pv i j → j ≢ i → IsOnLevel pv n j
IsOnLevel-next pv i n j (a, b, c, d) (le, same, deep) ne = (
  elim (Bool-cases (ltb j n)) [
    | inl before ↦ absurd (ground (arith, d j))
    | inr behind ↦ ground arith
  ],
  omega arith,
  λ k e f. omega (arith, c, deep k (omega arith) f),
)

IsOnLevel-before : (pv : Propvec) (i n j : ℕ) → IsNext pv i n → IsOnLevel pv n j → IsOnLevel pv i j
IsOnLevel-before pv i n j (a, b, c, d) (le, same, deep) = (
  omega arith,
  omega arith,
  λ k e f. elim (Bool-cases (ltb k n)) [
    | inl before ↦ elim (Bool-cases (k == i)) [
      | inl at ↦ ground arith
      | inr off ↦ ground (arith, d k)
    ]
    | inr behind ↦ ground (arith, deep k)
  ],
)

-- The entry `j` need not be there, or was read.
abbrev pub IsServed : Propvec → List ℕ → ℕ → Type 0
IsServed q ids j = necessary (q.entry j) ≡ true → contains ids (q.entry j).m_id ≡ true

module _ (pv q : Propvec) (ids : List ℕ) (s : Stream) (w : IsWalk pv) (l : IsLinked pv q pv.count)
    (heeds : s.fault_mask must_understand_fail ≡ true) where
  abbrev IsAccepted : ℕ → Option ℕ → Type 0
  IsAccepted fuel p = check_members fuel q KeyMode.not_key ids p s ≡ ok tt s

  abbrev IsRefused : ℕ → Option ℕ → Type 0
  IsRefused fuel p =
      check_members fuel q KeyMode.not_key ids p s ≡ failed (add_status must_understand_fail s)

  none-IsAccepted : (fuel : ℕ) → IsAccepted fuel none
  unfolding check_members
  none-IsAccepted zero = refl
  none-IsAccepted (suc fuel) = refl

  suc-IsAccepted :
      (fuel i : ℕ)
      → IsServed q ids i
      → IsAccepted fuel (q.entry i).next_on_level
      → IsAccepted (suc fuel) (some i)
  unfolding check_members next_entity
  suc-IsAccepted fuel i served rest = ground (arith, served, rest)

  suc-IsRefused :
      (fuel i : ℕ) → IsRefused fuel (q.entry i).next_on_level → IsRefused (suc fuel) (some i)
  unfolding check_members next_entity
  suc-IsRefused fuel i rest = ground (arith, rest, raise_heeded must_understand_fail s heeds)

  here-IsRefused :
      (fuel i : ℕ)
      → necessary (q.entry i) ≡ true
      → contains ids (q.entry i).m_id ≡ false
      → IsRefused (suc fuel) (some i)
  unfolding check_members next_entity
  here-IsRefused fuel i must missing =
      ground (arith, must, missing, raise_heeded must_understand_fail s heeds)

  level-IsAccepted :
      (fuel i : ℕ)
      → i < pv.count
      → pv.count ≤ fuel + i
      → ((j : ℕ) → j < pv.count → IsOnLevel pv i j → IsServed q ids j)
      → IsAccepted fuel (some i)
  level-IsAccepted zero i lt enough served = absurd (omega arith)
  level-IsAccepted (suc fuel) i lt enough served =
      suc-IsAccepted fuel i (served i lt (omega arith, refl, λ k a b. ground arith)) (
        rw (l.next_of i lt) (elim (Option-cases (sibling pv i)) [
          | inl e ↦ rw e (none-IsAccepted fuel)
          | inr (n, e) ↦
              let next = sibling-eq_some pv i n lt e in
              rw e (
                level-IsAccepted fuel n next.1 (omega (arith, next.0))
                  (λ j a h. served j a (IsOnLevel-before pv i n j next h)))
        ]))

  level-IsRefused :
      (fuel i j : ℕ)
      → i < pv.count
      → pv.count ≤ fuel + i
      → j < pv.count
      → IsOnLevel pv i j
      → necessary (q.entry j) ≡ true
      → contains ids (q.entry j).m_id ≡ false
      → IsRefused fuel (some i)
  level-IsRefused zero i j lt enough lt' on must missing = absurd (omega arith)
  level-IsRefused (suc fuel) i j lt enough lt' on must missing = elim (Bool-cases (j == i)) [
    | inl same ↦
        let e : j ≡ i = ground arith in
        here-IsRefused fuel i (subst (λ k. necessary (q.entry k) ≡ true) e must)
          (subst (λ k. contains ids (q.entry k).m_id ≡ false) e missing)
    | inr other ↦
        let ne : j ≢ i = λ e. ground arith in
        suc-IsRefused fuel i (
          rw (l.next_of i lt) (elim (Option-cases (sibling pv i)) [
            | inl e ↦ absurd (ne (last_of_level pv i j e lt' on))
            | inr (n, e) ↦
                let next = sibling-eq_some pv i n lt e in
                rw e (
                  level-IsRefused fuel n j next.1 (omega (arith, next.0)) lt'
                    (IsOnLevel-next pv i n j next on ne) must missing)
          ]))
  ]

  -- The members of `r` are the level of its first member.
  IsParent-IsOnLevel :
      (r j : ℕ)
      → j < pv.count
      → IsParent pv r j
      → ((q.entry r).first_member ≡ some (suc r)) × IsOnLevel pv (suc r) j
  IsParent-IsOnLevel r j lt (a, b, c) =
      let deep : (pv.entry (suc r)).depth ≡ (pv.entry r).depth + 1 =
        elim (Bool-cases (suc r == j)) [
          | inl same ↦ ground arith
          | inr other ↦ ground (arith, c (suc r), w.descent r)
        ] in
      (
        l.first_of r (omega arith) deep,
        (
          omega arith,
          omega arith,
          λ k e f. elim (Bool-cases (k == j)) [
            | inl same ↦ ground arith
            | inr other ↦ ground (arith, c k)
          ],
        ),
      )

  IsOnLevel-IsParent :
      (r j : ℕ)
      → (pv.entry (suc r)).depth ≡ (pv.entry r).depth + 1
      → IsOnLevel pv (suc r) j
      → IsParent pv r j
  IsOnLevel-IsParent r j e (a, b, c) =
      (omega arith, omega arith, λ k f g. omega (arith, c k (omega arith) (omega arith)))

  all-IsAccepted :
      (r : ℕ)
      → ((j : ℕ) → j < pv.count → IsParent pv r j → IsServed q ids j)
      → IsAccepted pv.count (q.entry r).first_member
  all-IsAccepted r served = elim (Option-cases (q.entry r).first_member) [
    | inl e ↦ rw e (none-IsAccepted pv.count)
    | inr (i, e) ↦
        let (at, lt, deep) = l.first_from r i e in
        rw e (
          level-IsAccepted pv.count i lt (omega arith) (λ j a h. served j a (
            IsOnLevel-IsParent r j
              (subst (λ k. (pv.entry k).depth ≡ (pv.entry r).depth + 1) at deep)
              (subst (λ k. IsOnLevel pv k j) at h))))
  ]

  one-IsRefused :
      (r j : ℕ)
      → j < pv.count
      → IsParent pv r j
      → necessary (q.entry j) ≡ true
      → contains ids (q.entry j).m_id ≡ false
      → IsRefused pv.count (q.entry r).first_member
  one-IsRefused r j lt parent must missing =
      let (first, on) = IsParent-IsOnLevel r j lt parent in
      rw first
        (level-IsRefused pv.count (suc r) j (omega (arith, on.0)) (omega arith) lt on must missing)

from_first_member :
    (q : Propvec) (ids : List ℕ) (s : Stream) (r : ℕ) {n : ℕ}
    → s.mode ≡ StreamMode.read
    → s.key ≡ KeyMode.not_key
    → abort_status s ≡ false
    → q.count ≡ n
    → check_struct_completeness q (q.entry r) ids s
      ≡ check_members n q KeyMode.not_key ids (q.entry r).first_member s
unfolding check_struct_completeness
from_first_member q ids s r {n} reads all clean counted =
    let p = (q.entry r).first_member in
    rw (guard_open s reads clean) (
      ap (λ k. check_members q.count q k ids p s) all
      ∙ ap (λ m. check_members m q KeyMode.not_key ids p s) counted)

-- Of a stream in mode read that reads all members, not only keys, that has met no fault that it
-- heeds, and that heeds must_understand_fail, and of entries with the links that finish gives the
-- entries of a walk over types, which may differ in everything else: check_struct_completeness
-- succeeds for the struct `r` and leaves the stream as it is if each member of the struct that is a
-- key or has to be understood was read, and it fails with must_understand_fail if one was not.
pub check_struct_completeness_iff :
    (pv q : Propvec) (ids : List ℕ) (s : Stream) (r : ℕ)
    → IsWalk pv
    → IsLinked pv q pv.count
    → s.mode ≡ StreamMode.read
    → s.key ≡ KeyMode.not_key
    → abort_status s ≡ false
    → s.fault_mask must_understand_fail ≡ true
    → (((j : ℕ) → j < pv.count → IsParent pv r j → IsServed q ids j)
        → check_struct_completeness q (q.entry r) ids s ≡ ok tt s)
      × ((j : ℕ)
          → j < pv.count
          → IsParent pv r j
          → necessary (q.entry j) ≡ true
          → contains ids (q.entry j).m_id ≡ false
          → check_struct_completeness q (q.entry r) ids s
            ≡ failed (add_status must_understand_fail s))
check_struct_completeness_iff pv q ids s r w l reads all clean heeds =
    let e = from_first_member q ids s r reads all clean l.counted in
    (
      λ served. e ∙ all-IsAccepted pv q ids s w l heeds r served,
      λ j a h must missing. e ∙ one-IsRefused pv q ids s w l heeds r j a h must missing,
    )
