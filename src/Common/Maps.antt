-- ===== src/Common/Maps.antt =====
-- std::map as the list of its entries, with unique keys. The order of the entries, which is that of
-- the keys in the program, is left out: a new key comes last.
use mathlib.Core.List.{List, [], ◌∷◌, lookup}
use mathlib.Core.Logic.{◌≢◌}
use mathlib.Core.Option.{none, some}
use mathlib.Core.Path.{◌≡◌, refl}
use native.Mathlib.Omega.{arith}

module _ {ℓ} {K V : Type ℓ} (dec : Discrete K) where
  unfoldable pub insert : K → V → List (K × V) → List (K × V)
  insert k v [] = (k, v) ∷ []
  insert k v (e ∷ l) = elim (dec k e.0) [ yes p ↦ (k, v) ∷ l | no p ↦ e ∷ insert k v l ]

  unfoldable pub erase : K → List (K × V) → List (K × V)
  erase k [] = []
  erase k (e ∷ l) = elim (dec k e.0) [ yes p ↦ l | no p ↦ e ∷ erase k l ]

  abbrev pub IsMap : List (K × V) → Type ℓ
  IsMap [] = Unit
  IsMap (e ∷ l) = (lookup dec e.0 l ≡ none) × IsMap l

  pub lookup-insert : (k : K) (v : V) (l : List (K × V)) → lookup dec k (insert k v l) ≡ some v
  unfolding lookup insert
  lookup-insert k v [] = ground arith
  lookup-insert k v (e ∷ l) = ground (arith, lookup-insert k v l)

  pub lookup-insert_ne :
      (k q : K) (v : V) (l : List (K × V)) → q ≢ k → lookup dec q (insert k v l) ≡ lookup dec q l
  unfolding lookup insert
  lookup-insert_ne k q v [] h = ground arith
  lookup-insert_ne k q v (e ∷ l) h = ground (arith, lookup-insert_ne k q v l h)

  pub lookup-erase : (k : K) (l : List (K × V)) → IsMap l → lookup dec k (erase k l) ≡ none
  unfolding lookup erase
  lookup-erase k [] h = refl
  lookup-erase k (e ∷ l) h = ground (arith, lookup-erase k l h.1)

  pub lookup-erase_ne :
      (k q : K) (l : List (K × V)) → q ≢ k → lookup dec q (erase k l) ≡ lookup dec q l
  unfolding lookup erase
  lookup-erase_ne k q [] h = refl
  lookup-erase_ne k q (e ∷ l) h = ground (arith, lookup-erase_ne k q l h)

  pub insert-IsMap : (k : K) (v : V) (l : List (K × V)) → IsMap l → IsMap (insert k v l)
  unfolding insert lookup
  insert-IsMap k v [] h = (refl, tt)
  insert-IsMap k v (e ∷ l) h = ground (arith, insert-IsMap k v l h.1, lookup-insert_ne k e.0 v l)

  pub erase-IsMap : (k : K) (l : List (K × V)) → IsMap l → IsMap (erase k l)
  unfolding erase
  erase-IsMap k [] h = tt
  erase-IsMap k (e ∷ l) h = ground (arith, erase-IsMap k l h.1, lookup-erase_ne k e.0 l)
