-- ===== src/Cdr/Zeroes.antt =====
-- The bytes that align clears, and those that it leaves.
use cyclonedds_cxx.Common.{ℕ, zero, suc, ◌+◌, ◌≤◌, ◌<◌, ◌≡◌, refl, ◌∙◌, ◌⊎◌, arith, [], ◌∷◌}
use cyclonedds_cxx.Common.Memory.{Memory, poke}
use cyclonedds_cxx.Cdr.Stream.{zero_bytes}

pub zero_bytes_outside :
    (n p : ℕ) (m : Memory) (a : ℕ) → (a < p) ⊎ (p + n ≤ a) → zero_bytes n p m a ≡ m a
unfolding zero_bytes
zero_bytes_outside zero p m a h = refl
zero_bytes_outside (suc n) p m a h =
    zero_bytes_outside n (suc p) (poke m p (0 ∷ [])) a (omega arith) ∙ unfold poke in ground arith

pub zero_bytes_inside : (n p : ℕ) (m : Memory) (a : ℕ) → p ≤ a → a < p + n → zero_bytes n p m a ≡ 0
unfolding zero_bytes poke
zero_bytes_inside zero p m a lo hi = absurd (omega arith)
zero_bytes_inside (suc n) p m a lo hi = ground (
  arith,
  zero_bytes_inside n (suc p) (poke m p (0 ∷ [])) a,
  zero_bytes_outside n (suc p) (poke m p (0 ∷ [])) a,
)
