-- ===== src/Common/Dicts.antt =====
-- Python's `dict`, as its entries in insertion order.
use mathlib.Core.Path.{◌≡◌, refl}
use mathlib.Core.Bool.{Bool}
use mathlib.Core.List.{List, [], ◌∷◌, ◌++◌}
use mathlib.Core.Option.{Option, none, some}
use native.Mathlib.Omega.{arith}
use next_me.Common.Tests.{if◌then◌else◌, Comparable, ◌==◌, is_some}

abbrev pub Dict {ℓ κ} : Type ℓ → Type κ → Type (ℓ ⊔ κ)
Dict K V = List (K × V)

module _ {ℓ κ} {K : Type ℓ} {V : Type κ} ⦃same : Comparable K⦄ where
  -- `d.get(k)`
  unfoldable pub lookup : K → Dict K V → Option V
  lookup k [] = none
  lookup k ((j, v) ∷ d) = if j == k then some v else lookup k d

  -- `d[k] = v`: a key that is there keeps its place
  unfoldable pub insert : K → V → Dict K V → Dict K V
  insert k v [] = (k, v) ∷ []
  insert k v ((j, w) ∷ d) = if j == k then (j, v) ∷ d else (j, w) ∷ insert k v d

  -- `d.pop(k, None)`, `del d[k]`
  unfoldable pub erase : K → Dict K V → Dict K V
  erase k [] = []
  erase k ((j, v) ∷ d) = if j == k then erase k d else (j, v) ∷ erase k d

  -- `k in d`
  abbrev pub has_key : K → Dict K V → Bool
  has_key k d = is_some (lookup k d)

  -- `d.get(k, default)`
  abbrev pub get_or : K → V → Dict K V → V
  get_or k default d = elim (lookup k d) [ none ↦ default | some v ↦ v ]

  pub lookup-insert :
      (k j : K) (v : V) (d : Dict K V)
      → lookup j (insert k v d) ≡ (if k == j then some v else lookup j d)
  unfolding lookup insert
  lookup-insert k j v [] = refl
  lookup-insert k j v ((i, w) ∷ d) =
      ground (
        arith,
        same.equals_iff k j,
        same.equals_iff i k,
        same.equals_iff i j,
        lookup-insert k j v d,
      )

  pub lookup-erase :
      (k j : K) (d : Dict K V) → lookup j (erase k d) ≡ (if k == j then none else lookup j d)
  unfolding lookup erase
  lookup-erase k j [] = ground arith
  lookup-erase k j ((i, w) ∷ d) =
      ground
        (arith, same.equals_iff k j, same.equals_iff i k, same.equals_iff i j, lookup-erase k j d)

  pub insert_absent :
      (k : K) (v : V) (d : Dict K V) → lookup k d ≡ none → insert k v d ≡ d ++ (k, v) ∷ []
  unfolding lookup insert
  insert_absent k v [] h = refl
  insert_absent k v ((j, w) ∷ d) h = ground (arith, insert_absent k v d)

  pub insert_last :
      (k : K) (v w : V) (d : Dict K V)
      → lookup k d ≡ none
      → insert k v (d ++ (k, w) ∷ []) ≡ d ++ (k, v) ∷ []
  unfolding lookup insert
  insert_last k v w [] h = ground (arith, same.equals_iff k k)
  insert_last k v w ((j, u) ∷ d) h = ground (arith, insert_last k v w d)

  pub erase_absent : (k : K) (d : Dict K V) → lookup k d ≡ none → erase k d ≡ d
  unfolding lookup erase
  erase_absent k [] h = refl
  erase_absent k ((j, w) ∷ d) h = ground (arith, erase_absent k d)

  pub erase_last : (k : K) (v : V) (d : Dict K V) → erase k (d ++ (k, v) ∷ []) ≡ erase k d
  unfolding erase
  erase_last k v [] = ground (arith, same.equals_iff k k)
  erase_last k v ((j, w) ∷ d) = ground (arith, erase_last k v d)

  pub lookup-append :
      (k : K) (d rest : Dict K V)
      → lookup k (d ++ rest) ≡ (elim (lookup k d) [ none ↦ lookup k rest | some v ↦ some v ])
  unfolding lookup
  lookup-append k [] rest = refl
  lookup-append k ((j, w) ∷ d) rest = ground (arith, lookup-append k d rest)

  pub has_key-erase : (k : K) (d : Dict K V) → lookup k (erase k d) ≡ none
  has_key-erase k d = ground (arith, lookup-erase k k d, same.equals_iff k k)
