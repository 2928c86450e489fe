-- ===== src/Common/Members.antt =====
-- Which values stand in a list.
use mathlib.Core.Path.{◌≡◌, refl, ap}
use mathlib.Core.Logic.{◌⊎◌, inl, inr, ◌↔◌}
use mathlib.Core.Bool.{Bool, true}
use mathlib.Core.List.{List, [], ◌∷◌, ◌++◌, map}
use mathlib.Core.Option
use mathlib.Core.Option.{Option, none, some}
use Prim.Native.Nat.{◌≤◌}
use native.Mathlib.Omega.{arith}
use next_me.Common.Tests.{Comparable}
use next_me.Common.Lists.{In, find, elem, any, count}

module _ {A : Type 0} where
  pub In-append : (a : A) (xs ys : List A) → In a (xs ++ ys) ↔ (In a xs ⊎ In a ys)
  In-append a [] ys = ground arith
  In-append a (x ∷ xs) ys = ground (arith, In-append a xs ys)

  -- What a search finds stands in the list.
  pub In-of_find : (p : A → Bool) (xs : List A) (x : A) → find p xs ≡ some x → In x xs
  In-of_find p [] x e = cc
  In-of_find p (y ∷ ys) x e = ground (arith, In-of_find p ys x)

  any_of_In : (p : A → Bool) (xs : List A) (x : A) → In x xs → p x ≡ true → any p xs ≡ true
  any_of_In p [] x m h = elim m [ ]
  any_of_In p (y ∷ ys) x m h = ground (arith, any_of_In p ys x)

  count_of_In : (p : A → Bool) (xs : List A) (x : A) → In x xs → p x ≡ true → 1 ≤ count p xs
  count_of_In p [] x m h = elim m [ ]
  count_of_In p (y ∷ ys) x m h = ground (arith, count_of_In p ys x)

  -- Where at most one element passes, a search finds it.
  pub find_of_In :
      (p : A → Bool) (xs : List A) (x : A)
      → count p xs ≤ 1
      → In x xs
      → p x ≡ true
      → find p xs ≡ some x
  find_of_In p [] x one m h = elim m [ ]
  find_of_In p (y ∷ ys) x one m h = ground (arith, find_of_In p ys x, count_of_In p ys x)

module _ {A B : Type 0} where
  pub In-map : (f : A → B) (a : A) (xs : List A) → In a xs → In (f a) (map f xs)
  In-map f a [] m = elim m [ ]
  In-map f a (x ∷ xs) (inl e) = inl (ap f e)
  In-map f a (x ∷ xs) (inr m) = inr (In-map f a xs m)

  pub In-of_In-map :
      (f : A → B) (b : B) (xs : List A) → In b (map f xs) → (a : A) × In a xs × (b ≡ f a)
  In-of_In-map f b [] m = elim m [ ]
  In-of_In-map f b (x ∷ xs) (inl e) = (x, inl refl, e)
  In-of_In-map f b (x ∷ xs) (inr m) = let (a, n, e) = In-of_In-map f b xs m in (a, inr n, e)

pub elem-In :
    {A : Type 0} ⦃same : Comparable A⦄ (a : A) (xs : List A) → (elem a xs ≡ true) ↔ In a xs
elem-In ⦃same⦄ a [] = ground arith
elem-In ⦃same⦄ a (x ∷ xs) = ground (arith, same.equals_iff a x, elem-In a xs)

pub map-eq-some {ℓ κ} :
    {A : Type ℓ} {B : Type κ} (f : A → B) (o : Option A) (b : B)
    → Option.map f o ≡ some b
    → (a : A) × (o ≡ some a) × (f a ≡ b)
map-eq-some f none b e = cc
map-eq-some f (some a) b e = (a, refl, cc)
