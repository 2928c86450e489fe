-- ===== src/Common/Lists.antt =====
-- Python lists, measured by native numbers.
use Prim.Native.Nat.{ℕ, suc, ◌+◌, ◌≤◌}
use mathlib.Core.Path.{◌≡◌, refl, sym, subst}
use mathlib.Core.Logic.{◌⊎◌, inl, inr, ◌↔◌}
use mathlib.Core.Bool.{Bool, true, false, ◌||◌}
use mathlib.Core.List.{List, [], ◌∷◌, ◌++◌, map}
use mathlib.Core.Option
use mathlib.Core.Option.{Option, none, some}
use native.Mathlib.Omega.{arith}
use next_me.Common.Tests.{is_some, if◌then◌else◌, Comparable, ◌==◌}

module _ {ℓ} {A : Type ℓ} where
  abbrev pub length : List A → ℕ
  length [] = 0
  length (x ∷ xs) = suc (length xs)

  pub length-append : (xs ys : List A) → length (xs ++ ys) ≡ length xs + length ys
  length-append [] ys = omega arith
  length-append (x ∷ xs) ys = omega (arith, length-append xs ys)

  -- `[x for x in xs if p(x)]`
  abbrev pub keep : (A → Bool) → List A → List A
  keep p [] = []
  keep p (x ∷ xs) = if p x then x ∷ keep p xs else keep p xs

  -- the first element that passes the test
  abbrev pub find : (A → Bool) → List A → Option A
  find p [] = none
  find p (x ∷ xs) = if p x then some x else find p xs

  -- `any(p(x) for x in xs)`
  abbrev pub any : (A → Bool) → List A → Bool
  any p [] = false
  any p (x ∷ xs) = p x || any p xs

  -- Every element has the property.
  abbrev pub All {κ} : (A → Type κ) → List A → Type κ
  All P [] = Unit
  All P (x ∷ xs) = P x × All P xs

module _ {ℓ} {A : Type ℓ} where
  pub All-append {κ} :
      (P : A → Type κ) (front back : List A) → All P front → All P back → All P (front ++ back)
  All-append P [] back all rest = rest
  All-append P (first ∷ front) back all rest = (all.0, All-append P front back all.1 rest)

  pub length-keep-le : (p : A → Bool) (xs : List A) → length (keep p xs) ≤ length xs
  length-keep-le p [] = omega arith
  length-keep-le p (x ∷ xs) = ground (arith, length-keep-le p xs)

  pub All-keep {κ} : (P : A → Type κ) (p : A → Bool) (xs : List A) → All P xs → All P (keep p xs)
  All-keep P p [] h = h
  All-keep P p (x ∷ xs) h = ground (arith, All-keep P p xs)

-- The first of two searches that finds something.
abbrev pub or_else {ℓ} : {A : Type ℓ} → Option A → Option A → Option A
or_else none o = o
or_else (some a) o = some a

module _ {ℓ} {A : Type ℓ} (p : A → Bool) where
  pub find-append : (xs ys : List A) → find p (xs ++ ys) ≡ or_else (find p xs) (find p ys)
  find-append [] ys = refl
  find-append (x ∷ xs) ys = ground (arith, find-append xs ys)

  -- Only elements that fail the search's test are dropped.
  pub find-keep_pass :
      (q : A → Bool)
      → ((x : A) → p x ≡ true → q x ≡ true)
      → (xs : List A) → find p (keep q xs) ≡ find p xs
  find-keep_pass q h [] = refl
  find-keep_pass q h (x ∷ xs) = ground (arith, h x, find-keep_pass q h xs)

  -- Every element that passes the search's test is dropped.
  pub find-keep_fail :
      (q : A → Bool)
      → ((x : A) → p x ≡ true → q x ≡ false)
      → (xs : List A) → find p (keep q xs) ≡ none
  find-keep_fail q h [] = refl
  find-keep_fail q h (x ∷ xs) = ground (arith, h x, find-keep_fail q h xs)

  -- A search through changed elements, where the change keeps the test's value.
  pub find-map :
      (f : A → A)
      → ((x : A) → p (f x) ≡ p x)
      → (xs : List A) → find p (map f xs) ≡ Option.map f (find p xs)
  find-map f h [] = refl
  find-map f h (x ∷ xs) = ground (arith, h x, find-map f h xs)

  -- What a search finds passes the test.
  pub find_passes : (xs : List A) (x : A) → find p xs ≡ some x → p x ≡ true
  find_passes [] x e = cc
  find_passes (y ∷ ys) x e = ground (arith, find_passes ys x)

  -- `any` is a search that finds something.
  pub any-find : (xs : List A) → any p xs ≡ is_some (find p xs)
  any-find [] = refl
  any-find (x ∷ xs) = ground (arith, any-find xs)

  pub any_of_find :
      (q : A → Bool) (xs : List A) (x : A) → find p xs ≡ some x → q x ≡ true → any q xs ≡ true
  any_of_find q [] x e h = cc
  any_of_find q (y ∷ ys) x e h = ground (arith, any_of_find q ys x)

pub List-cases {ℓ} :
    {A : Type ℓ} (xs : List A) → (xs ≡ []) ⊎ ((x : A) × (rest : List A) × (xs ≡ x ∷ rest))
List-cases [] = inl refl
List-cases (x ∷ rest) = inr (x, rest, refl)

abbrev pub flat {ℓ} : {A : Type ℓ} → List (List A) → List A
flat [] = []
flat (xs ∷ rest) = xs ++ flat rest

-- How many elements pass the test.
abbrev pub count {ℓ} : {A : Type ℓ} → (A → Bool) → List A → ℕ
count p [] = 0
count p (x ∷ xs) = if p x then suc (count p xs) else count p xs

module _ {ℓ} {A : Type ℓ} (p : A → Bool) where
  pub count-append : (xs ys : List A) → count p (xs ++ ys) ≡ count p xs + count p ys
  count-append [] ys = omega arith
  count-append (x ∷ xs) ys = ground (arith, count-append xs ys)

  pub count-keep-le : (q : A → Bool) (xs : List A) → count p (keep q xs) ≤ count p xs
  count-keep-le q [] = omega arith
  count-keep-le q (x ∷ xs) = ground (arith, count-keep-le q xs)

  -- No element that passes is kept.
  pub count-keep_fail :
      (q : A → Bool)
      → ((x : A) → p x ≡ true → q x ≡ false)
      → (xs : List A) → count p (keep q xs) ≡ 0
  count-keep_fail q h [] = refl
  count-keep_fail q h (x ∷ xs) = ground (arith, h x, count-keep_fail q h xs)

  -- A change after which no more elements pass.
  pub count-map-le :
      (f : A → A)
      → ((x : A) → p (f x) ≡ true → p x ≡ true)
      → (xs : List A) → count p (map f xs) ≤ count p xs
  count-map-le f h [] = omega arith
  count-map-le f h (x ∷ xs) = ground (arith, h x, count-map-le f h xs)

  pub count_of_any : (xs : List A) → any p xs ≡ false → count p xs ≡ 0
  count_of_any [] h = refl
  count_of_any (x ∷ xs) h = ground (arith, count_of_any xs)

module _ {ℓ κ} {A : Type ℓ} (P : A → Type κ) where
  pub All-map :
      (f : A → A) → ((x : A) → P x → P (f x)) → (xs : List A) → All P xs → All P (map f xs)
  All-map f h [] ps = ps
  All-map f h (x ∷ xs) ps = (h x ps.0, All-map f h xs ps.1)

  pub All-weaken {μ} :
      (Q : A → Type μ) → ((x : A) → P x → Q x) → (xs : List A) → All P xs → All Q xs
  All-weaken Q h [] ps = tt
  All-weaken Q h (x ∷ xs) ps = (h x ps.0, All-weaken Q h xs ps.1)

-- The value stands in the list.
abbrev pub In : {A : Type 0} → A → List A → Type 0
In a [] = ⊥
In a (x ∷ xs) = (a ≡ x) ⊎ In a xs

pub In-keep :
    {A : Type 0} (a : A) (p : A → Bool) (xs : List A) → In a (keep p xs) ↔ (In a xs × (p a ≡ true))
In-keep a p [] = ground arith
In-keep a p (x ∷ xs) = ground (arith, In-keep a p xs)

pub All-In {κ} : {A : Type 0} (P : A → Type κ) (a : A) (xs : List A) → All P xs → In a xs → P a
All-In P a [] h m = elim m [ ]
All-In P a (x ∷ xs) h (inl e) = subst P (sym e) h.0
All-In P a (x ∷ xs) h (inr m) = All-In P a xs h.1 m

-- `a in xs`
module _ {ℓ} {A : Type ℓ} ⦃same : Comparable A⦄ where
  abbrev pub elem : A → List A → Bool
  elem a [] = false
  elem a (x ∷ xs) = a == x || elem a xs
