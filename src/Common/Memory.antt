-- ===== src/Common/Memory.antt =====
-- Bytes at addresses. A memory is a function, so a store outside of a buffer would be seen.
use cyclonedds_cxx.Common.Tests.{◌==◌, if◌then◌else◌}
use cyclonedds_cxx.Common.Lists.{length}
use Prim.Native.Nat.{ℕ, zero, suc, ◌+◌, ◌≤◌, ◌<◌}
use mathlib.Core.Path.{◌≡◌, refl, ap, ap₂, ◌∙◌}
use mathlib.Core.Logic.{◌⊎◌, inl, inr}
use mathlib.Core.List.{List, [], ◌∷◌, ◌++◌}
use native.Mathlib.Omega.{arith}

abbrev pub Memory : Type 0
Memory = ℕ → ℕ

-- The bytes at `p` and above are replaced by `bs`.
unfoldable pub poke : Memory → ℕ → List ℕ → Memory
poke m p [] a = m a
poke m p (b ∷ bs) a = if a == p then b else poke m (suc p) bs a

unfoldable pub peek : Memory → ℕ → ℕ → List ℕ
peek m p zero = []
peek m p (suc n) = m p ∷ peek m (suc p) n

-- Two memories hold the same bytes from `lo` up to, not including, `hi`.
abbrev pub Agrees : Memory → Memory → ℕ → ℕ → Type 0
Agrees m m' lo hi = (a : ℕ) → lo ≤ a → a < hi → m a ≡ m' a

pub poke_below : (m : Memory) (p : ℕ) (bs : List ℕ) (a : ℕ) → a < p → poke m p bs a ≡ m a
unfolding poke
poke_below m p [] a h = refl
poke_below m p (b ∷ bs) a h = ground (arith, poke_below m (suc p) bs a (omega arith))

pub poke_above :
    (m : Memory) (p : ℕ) (bs : List ℕ) (a : ℕ) → p + length bs ≤ a → poke m p bs a ≡ m a
unfolding poke
poke_above m p [] a h = refl
poke_above m p (b ∷ bs) a h = ground (arith, poke_above m (suc p) bs a (omega arith))

pub poke_outside :
    (m : Memory) (p : ℕ) (bs : List ℕ) (a : ℕ) → (a < p) ⊎ (p + length bs ≤ a) → poke m p bs a ≡ m a
poke_outside m p bs a (inl h) = poke_below m p bs a h
poke_outside m p bs a (inr h) = poke_above m p bs a h

pub peek-Agrees : (m m' : Memory) (p n : ℕ) → Agrees m m' p (p + n) → peek m p n ≡ peek m' p n
unfolding peek
peek-Agrees m m' p zero h = refl
peek-Agrees m m' p (suc n) h =
    ap₂ (λ x xs. x ∷ xs) (h p (omega arith) (omega arith))
      (peek-Agrees m m' (suc p) n (λ a lo hi. h a (omega arith) (omega arith)))

pub peek-poke : (m : Memory) (p : ℕ) (bs : List ℕ) → peek (poke m p bs) p (length bs) ≡ bs
unfolding peek poke
peek-poke m p [] = refl
peek-poke m p (b ∷ bs) =
    ap₂ (λ x xs. x ∷ xs) (ground arith)
      (peek-Agrees (poke m p (b ∷ bs)) (poke m (suc p) bs) (suc p) (length bs)
          (λ a lo hi. ground arith)
        ∙ peek-poke m (suc p) bs)

pub poke-append :
    (m : Memory) (p q : ℕ) (xs ys : List ℕ) (a : ℕ)
    → p + length xs ≡ q
    → poke m p (xs ++ ys) a ≡ poke (poke m q ys) p xs a
unfolding poke
poke-append m p q [] ys a e = ap (λ n. poke m n ys a) (omega arith)
poke-append m p q (x ∷ xs) ys a e = rw (poke-append m (suc p) q xs ys a (omega arith))

-- The bytes of a list and of what follows it, read back from where they were put.
pub peek-poke_left :
    (m : Memory) (p : ℕ) (xs ys : List ℕ) → peek (poke m p (xs ++ ys)) p (length xs) ≡ xs
peek-poke_left m p xs ys =
    peek-Agrees _ _ p (length xs) (λ a lo hi. poke-append m p _ xs ys a refl)
    ∙ peek-poke (poke m (p + length xs) ys) p xs

pub poke_right :
    (m : Memory) (p : ℕ) (xs ys : List ℕ) (a : ℕ)
    → p + length xs ≤ a
    → poke m p (xs ++ ys) a ≡ poke m (p + length xs) ys a
poke_right m p xs ys a h = poke-append m p _ xs ys a refl ∙ poke_above _ p xs a h
