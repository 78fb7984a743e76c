-- ===== src/Time/Duration/Arithmetic.antt =====
-- Sums and differences of durations, against the nanoseconds that they stand for.
use cyclonedds_cxx.Common.{
  ℕ, ◌+◌, ◌-◌, ◌*◌, ◌≤◌, ◌<◌, ◌≡◌, ◌⊎◌, inl, inr, ltb, arith, Bool-cases, ltb→lt, ltb→le,
}
use cyclonedds_cxx.Common.Int.{pos, ◌+ℤ◌, ◌-ℤ◌}
use cyclonedds_cxx.Time.Result.{error, illegal_operation, ok, throws, ns, max_int32, validate}
use cyclonedds_cxx.Time.Duration.{Duration, duration, add, subtract}

-- Seconds and nanoseconds of a finite duration.
abbrev pub IsNormal : ℕ → ℕ → Type 0
IsNormal s n = (s < max_int32) × (n < ns)

abbrev pub total : ℕ → ℕ → ℕ
total s n = s * ns + n

pub validate_normal : (s n : ℕ) → IsNormal s n → validate (pos s) n ≡ ok tt
unfolding validate
validate_normal s n h = ground arith

-- The sum of two finite durations that are not negative, whose seconds add up to less than
-- 0x7ffffffe, is the sum of their nanoseconds. It is finite again,
-- unless the nanoseconds add up to exactly one second: then the whole second stays in them.
pub add-total :
    (s n s' n' : ℕ)
    → IsNormal s n
    → IsNormal s' n'
    → s + s' + 1 < max_int32
    → (t : ℕ) × (u : ℕ) × (add (duration (pos s) n) (duration (pos s') n')
        ≡ ok (duration (pos t) u))
      × (total t u ≡ total s n + total s' n')
      × (IsNormal t u ⊎ ((n + n' ≡ ns) × (u ≡ ns)))
unfolding add ◌+ℤ◌
add-total s n s' n' h h' room = elim (Bool-cases (ltb ns (n + n'))) [
  | inl over ↦ (
    s + s' + 1,
    n + n' - ns,
    ground (arith, validate_normal s n, validate_normal s' n'),
    omega (arith, ltb→lt _ _ over),
    ground arith,
  )
  | inr under ↦ (
    s + s',
    n + n',
    ground (arith, validate_normal s n, validate_normal s' n'),
    omega arith,
    ground arith,
  )
]

-- Two finite durations that are not negative, whose seconds add up to less than 0x7ffffffe and
-- whose nanoseconds add up to one second, have a sum that is valid for no
-- further arithmetic: every sum with it throws.
pub add_one_second :
    (s n s' n' : ℕ)
    → IsNormal s n
    → IsNormal s' n'
    → s + s' + 1 < max_int32
    → n + n' ≡ ns
    → (add (duration (pos s) n) (duration (pos s') n') ≡ ok (duration (pos (s + s')) ns))
      × ((a : Duration) → add (duration (pos (s + s')) ns) a ≡ throws illegal_operation)
unfolding add ◌+ℤ◌
add_one_second s n s' n' h h' room e = (
  ground (arith, validate_normal s n, validate_normal s' n'),
  λ a. unfold validate in ground arith,
)

-- A difference of finite durations that are not negative is the difference of their nanoseconds, and finite; where
-- that would be negative the operator throws.
pub subtract-total :
    (s n s' n' : ℕ)
    → IsNormal s n
    → IsNormal s' n'
    → ((total s' n' ≤ total s n)
        × ((t : ℕ) × (u : ℕ) × (subtract (duration (pos s) n) (duration (pos s') n')
              ≡ ok (duration (pos t) u))
            × (total t u + total s' n' ≡ total s n)
            × IsNormal t u))
      ⊎ ((total s n < total s' n')
          × (subtract (duration (pos s) n) (duration (pos s') n') ≡ throws error))
unfolding subtract ◌-ℤ◌
subtract-total s n s' n' h h' = elim (Bool-cases (ltb (total s n) (total s' n'))) [
  | inl negative ↦
      inr (ltb→lt _ _ negative, ground (arith, validate_normal s n, validate_normal s' n'))
  | inr fits ↦ elim (Bool-cases (ltb n n')) [
    | inl borrows ↦ inl (
      ltb→le _ _ fits,
      (
        s - s' - 1,
        n + ns - n',
        ground (
          arith,
          validate_normal s n,
          validate_normal s' n',
          validate_normal (s - s' - 1) (n + ns - n'),
        ),
        omega (arith, ltb→le _ _ fits, ltb→lt _ _ borrows),
        ground arith,
      ),
    )
    | inr plain ↦ inl (
      ltb→le _ _ fits,
      (
        s - s',
        n - n',
        ground
            (arith, validate_normal s n, validate_normal s' n', validate_normal (s - s') (n - n')),
        omega (arith, ltb→le _ _ fits, ltb→le _ _ plain),
        ground arith,
      ),
    )
  ]
]
