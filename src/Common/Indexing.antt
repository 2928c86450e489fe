-- ===== src/Common/Indexing.antt =====
-- Reading and writing a list at a position.
use Prim.Native.Nat.{ℕ, zero, suc, ◌≤◌}
use mathlib.Core.Path.{◌≡◌, refl}
use mathlib.Core.List.{List, [], ◌∷◌, ◌++◌}
use mathlib.Core.Option.{Option, none, some}
use native.Mathlib.Omega.{arith}
use next_me.Common.Tests.{if◌then◌else◌, ◌==◌, nat_comparable}
use next_me.Common.Lists.{length}

module _ {ℓ} {A : Type ℓ} where
  abbrev pub get_elem? : List A → ℕ → Option A
  get_elem? [] i = none
  get_elem? (x ∷ rest) zero = some x
  get_elem? (x ∷ rest) (suc i) = get_elem? rest i

  abbrev pub set : List A → ℕ → A → List A
  set [] i v = []
  set (x ∷ rest) zero v = v ∷ rest
  set (x ∷ rest) (suc i) v = x ∷ set rest i v

  -- A position that holds something is overwritten, and no other.
  pub get_elem?-set :
      (xs : List A) (i j : ℕ) (v old : A)
      → get_elem? xs i ≡ some old
      → get_elem? (set xs i v) j ≡ (if i == j then some v else get_elem? xs j)
  get_elem?-set [] i j v old h = cc
  get_elem?-set (x ∷ rest) zero zero v old h = refl
  get_elem?-set (x ∷ rest) zero (suc j) v old h = ground arith
  get_elem?-set (x ∷ rest) (suc i) zero v old h = ground arith
  get_elem?-set (x ∷ rest) (suc i) (suc j) v old h = ground (arith, get_elem?-set rest i j v old h)

  -- A value put behind a list stands at the list's length.
  pub get_elem?-append_last :
      (xs : List A) (v : A) (j : ℕ)
      → get_elem? (xs ++ v ∷ []) j ≡ (if j == length xs then some v else get_elem? xs j)
  get_elem?-append_last [] v zero = ground arith
  get_elem?-append_last [] v (suc j) = ground arith
  get_elem?-append_last (x ∷ rest) v zero = ground arith
  get_elem?-append_last (x ∷ rest) v (suc j) = ground (arith, get_elem?-append_last rest v j)

  pub get_elem?-beyond : (xs : List A) (j : ℕ) → length xs ≤ j → get_elem? xs j ≡ none
  get_elem?-beyond [] j h = refl
  get_elem?-beyond (x ∷ rest) zero h = absurd (omega arith)
  get_elem?-beyond (x ∷ rest) (suc j) h = get_elem?-beyond rest j (omega arith)

  pub length-set : (xs : List A) (i : ℕ) (v : A) → length (set xs i v) ≡ length xs
  length-set [] i v = refl
  length-set (x ∷ rest) zero v = refl
  length-set (x ∷ rest) (suc i) v = ground (arith, length-set rest i v)
