-- ===== src/Cdr/Properties/KeyChains/Sorted.antt =====
-- The chain of keys that link_keys_sorted leaves: the members of its mapping one after the other.
use cyclonedds_cxx.Common.{
  ℕ, ◌≡◌, ◌≢◌, refl, ◌∙◌, arith, Option, none, some, List, [], ◌∷◌, ◌==◌, if◌then◌else◌,
}
use cyclonedds_cxx.Cdr.Properties.{Propvec}
use cyclonedds_cxx.Cdr.Properties.KeyChains.{link_sorted, link_sorted_all}

-- From `p` on, the entries of the list follow each other, the first of them behind `prev`.
abbrev pub IsChain : Propvec → Option ℕ → Option ℕ → List ℕ → Type 0
IsChain pv prev p [] = p ≡ none
IsChain pv prev p (i ∷ is) =
    (p ≡ some i)
    × ((pv.entry i).prev_sorted_key ≡ prev)
    × IsChain pv (some i) (pv.entry i).next_sorted_key is

abbrev pub members : List (ℕ × ℕ) → List ℕ
members [] = []
members ((id, i) ∷ m) = i ∷ members m

abbrev pub IsApart : ℕ → List (ℕ × ℕ) → Type 0
IsApart k [] = Unit {0}
IsApart k ((id, i) ∷ m) = (k ≢ i) × IsApart k m

-- The members are different, none is `prop`, and none has a key after it yet.
abbrev pub AreFree : Propvec → ℕ → List (ℕ × ℕ) → Type 0
AreFree pv prop [] = Unit {0}
AreFree pv prop ((id, i) ∷ m) =
    (prop ≢ i) × ((pv.entry i).next_sorted_key ≡ none) × IsApart i m × AreFree pv prop m

link_sorted_lem :
    (prop i : ℕ) (prev : Option ℕ) (pv : Propvec) (k : ℕ)
    → (((link_sorted prop i prev pv).entry k).prev_sorted_key
        ≡ (if k == i then prev else (pv.entry k).prev_sorted_key))
      × (prev ≢ some k
          → ((link_sorted prop i prev pv).entry k).next_sorted_key ≡ (pv.entry k).next_sorted_key)
unfolding link_sorted
link_sorted_lem prop i none pv k = ground arith
link_sorted_lem prop i (some p) pv k = ground arith

link_sorted-next :
    (prop i p : ℕ) (pv : Propvec)
    → ((link_sorted prop i (some p) pv).entry p).next_sorted_key ≡ some i
unfolding link_sorted
link_sorted-next prop i p pv = ground arith

link_sorted-first :
    (prop i k : ℕ) (prev : Option ℕ) (pv : Propvec)
    → (pv.entry prop).first_sorted_key ≡ some k
    → ((link_sorted prop i prev pv).entry prop).first_sorted_key ≡ some k
unfolding link_sorted
link_sorted-first prop i k none pv h = ground arith
link_sorted-first prop i k (some p) pv h = ground arith

link_sorted-first_new :
    (prop i : ℕ) (pv : Propvec)
    → (pv.entry prop).first_sorted_key ≡ none
    → ((link_sorted prop i none pv).entry prop).first_sorted_key ≡ some i
unfolding link_sorted
link_sorted-first_new prop i pv h = ground arith

-- What the loop leaves at an entry that is apart from its members.
link_sorted_all_frame :
    (prop : ℕ) (prev : Option ℕ) (m : List (ℕ × ℕ)) (pv : Propvec) (k : ℕ)
    → IsApart k m
    → (((link_sorted_all prop prev m pv).entry k).prev_sorted_key ≡ (pv.entry k).prev_sorted_key)
      × (prev ≢ some k
          → ((link_sorted_all prop prev m pv).entry k).next_sorted_key
            ≡ (pv.entry k).next_sorted_key)
unfolding link_sorted_all
link_sorted_all_frame prop prev [] pv k a = (refl, λ h. refl)
link_sorted_all_frame prop prev ((id, i) ∷ m) pv k a = ground (
  arith,
  link_sorted_lem prop i prev pv k,
  link_sorted_all_frame prop (some i) m (link_sorted prop i prev pv) k a.1,
)

link_sorted_all-first :
    (prop k : ℕ) (prev : Option ℕ) (m : List (ℕ × ℕ)) (pv : Propvec)
    → (pv.entry prop).first_sorted_key ≡ some k
    → ((link_sorted_all prop prev m pv).entry prop).first_sorted_key ≡ some k
unfolding link_sorted_all
link_sorted_all-first prop k prev [] pv h = h
link_sorted_all-first prop k prev ((id, i) ∷ m) pv h =
    link_sorted_all-first prop k (some i) m (link_sorted prop i prev pv)
      (link_sorted-first prop i k prev pv h)

abbrev IsNotIn : Option ℕ → List (ℕ × ℕ) → Type 0
IsNotIn none m = Unit {0}
IsNotIn (some k) m = IsApart k m

link_sorted-AreFree :
    (prop i : ℕ) (prev : Option ℕ) (m : List (ℕ × ℕ)) (pv : Propvec)
    → IsNotIn prev m
    → AreFree pv prop m
    → AreFree (link_sorted prop i prev pv) prop m
link_sorted-AreFree prop i prev [] pv a f = tt
link_sorted-AreFree prop i none ((id, j) ∷ m) pv a f = (
  f.0,
  (link_sorted_lem prop i none pv j).1 (λ e. cc) ∙ f.1,
  f.2,
  link_sorted-AreFree prop i none m pv tt f.3,
)
link_sorted-AreFree prop i (some k) ((id, j) ∷ m) pv a f = (
  f.0,
  (link_sorted_lem prop i (some k) pv j).1 (λ e. ground arith) ∙ f.1,
  f.2,
  link_sorted-AreFree prop i (some k) m pv a.1 f.3,
)

link_sorted_all-next :
    (prop k : ℕ) (m : List (ℕ × ℕ)) (pv : Propvec)
    → IsApart k m
    → AreFree pv prop m
    → (pv.entry k).next_sorted_key ≡ none
    → let q = link_sorted_all prop (some k) m pv in
      IsChain q (some k) (q.entry k).next_sorted_key (members m)
unfolding link_sorted_all
link_sorted_all-next prop k [] pv a f h = h
link_sorted_all-next prop k ((id, i) ∷ m) pv a f h =
    let linked = link_sorted prop i (some k) pv in
    let at_k = link_sorted_all_frame prop (some i) m linked k a.1 in
    let at_i = link_sorted_all_frame prop (some i) m linked i f.2 in
    let one = link_sorted_lem prop i (some k) pv i in
    (
      at_k.1 (λ e. ground arith) ∙ link_sorted-next prop i k pv,
      ground (arith, at_i.0, one.0),
      link_sorted_all-next prop i m linked f.2 (link_sorted-AreFree prop i (some k) m pv a.1 f.3)
          (one.1 (λ e. ground arith) ∙ f.1),
    )

-- The second loop of link_keys_sorted for an entry without sorted keys and members that are
-- different: first_sorted_key and next_sorted_key lead along the members of the mapping in its
-- order and end there, and prev_sorted_key leads back.
pub link_sorted_all-IsChain :
    (prop : ℕ) (m : List (ℕ × ℕ)) (pv : Propvec)
    → (pv.entry prop).first_sorted_key ≡ none
    → AreFree pv prop m
    → let q = link_sorted_all prop none m pv in
      IsChain q none (q.entry prop).first_sorted_key (members m)
unfolding link_sorted_all
link_sorted_all-IsChain prop [] pv h f = h
link_sorted_all-IsChain prop ((id, i) ∷ m) pv h f =
    let linked = link_sorted prop i none pv in
    let at_i = link_sorted_all_frame prop (some i) m linked i f.2 in
    let one = link_sorted_lem prop i none pv i in
    (
      link_sorted_all-first prop i (some i) m linked (link_sorted-first_new prop i pv h),
      ground (arith, at_i.0, one.0),
      link_sorted_all-next prop i m linked f.2 (link_sorted-AreFree prop i none m pv tt f.3)
          (one.1 (λ e. cc) ∙ f.1),
    )
