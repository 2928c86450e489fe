-- ===== src/Common/Actions.antt =====
-- Methods of an object that may raise. What was written before a raise stays written, so the
-- state comes back beside the error too.
use mathlib.Core.Bool.{Bool, true, false}
use mathlib.Core.Path.{◌≡◌, refl}
use mathlib.Core.Logic.{◌⊎◌, inl, inr}
use mathlib.Core.Option.{Option, none, some}
use next_me.Common.Tests.{if◌then◌else◌}

-- The exceptions that the modelled code raises.
pub data Error : Type 0 where
  runtime_error value_error integrity_error os_error assertion_error cancelled_error : Error

pub data Result {ℓ} (A : Type ℓ) : Type ℓ where
  ok : A → Result A
  raised : Error → Result A

pub Result-cases {ℓ} :
    {A : Type ℓ} (r : Result A) → ((a : A) × (r ≡ ok a)) ⊎ ((e : Error) × (r ≡ raised e))
Result-cases (ok a) = inl (a, refl)
Result-cases (raised e) = inr (e, refl)

abbrev pub Action {ℓ} : Type ℓ → Type ℓ → Type ℓ
Action S A = S → Result A × S

module _ {ℓ} {S A : Type ℓ} where
  abbrev pub return : A → Action S A
  return a s = (ok a, s)

  abbrev pub raise : Error → Action S A
  raise e s = (raised e, s)

module _ {ℓ} {S A B : Type ℓ} where
  abbrev pub continue : Result A → (A → Action S B) → Action S B
  continue (ok a) f s = f a s
  continue (raised e) f s = (raised e, s)

  infixl 10 ◌>>=◌ ◌>>◌
  unfoldable pub ◌>>=◌ : Action S A → (A → Action S B) → Action S B
  ◌>>=◌ m f s = let (r, s') = m s in continue r f s'

  abbrev pub ◌>>◌ : Action S A → Action S B → Action S B
  m >> n = m >>= λ _. n

-- The state keeps a property, whether the action returns or raises.
pub record Preserves {ℓ κ} {S A : Type ℓ} (P : S → Type κ) (m : Action S A) : Type (ℓ ⊔ κ) where
  pub onward : (s : S) → P s → P (m s).1

module _ {ℓ κ} {S A : Type ℓ} {P : S → Type κ} where
  pub Preserves-return : (a : A) → Preserves P (return {S = S} a)
  Preserves-return a = record { onward = λ s h. h }

  pub Preserves-raise : (e : Error) → Preserves P (raise {S = S} {A = A} e)
  Preserves-raise e = record { onward = λ s h. h }

  pub Preserves-if :
      (b : Bool) (m n : Action S A)
      → Preserves P m
      → Preserves P n
      → Preserves P (if b then m else n)
  Preserves-if true m n km kn = km
  Preserves-if false m n km kn = kn

  pub Preserves-elim {μ} :
      {B : Type μ} (o : Option B) (m : Action S A) (f : B → Action S A)
      → Preserves P m
      → ((b : B) → Preserves P (f b))
      → Preserves P (elim o [ none ↦ m | some b ↦ f b ])
  Preserves-elim none m f km kf = km
  Preserves-elim (some b) m f km kf = kf b

module _ {ℓ κ} {S A B : Type ℓ} {P : S → Type κ} where
  pub Preserves-bind :
      (m : Action S A) (f : A → Action S B)
      → Preserves P m
      → ((a : A) → Preserves P (f a))
      → Preserves P (m >>= f)
  unfolding ◌>>=◌
  Preserves-bind m f km kf = record { onward = λ s h. after (m s).0 (m s).1 (km.onward s h) }
    where
      after : (r : Result A) (s' : S) → P s' → P (continue r f s').1
      after (ok a) s' h = (kf a).onward s' h
      after (raised e) s' h = h

pub ruleset preserve_rules =
    (Preserves-return, Preserves-raise, Preserves-if, Preserves-elim, Preserves-bind)
