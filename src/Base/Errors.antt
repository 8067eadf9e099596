-- ===== src/Base/Errors.antt =====
-- Go's pair of a value and an error, as a sum over a type of errors.
use mathlib.Core.Path.{◌≡◌, refl, ap}
use mathlib.Core.Bool.{Bool, true, false}
use mathlib.Core.Logic.{◌⊎◌, inl, inr}

pub data Result {ℓ κ} (E : Type κ) (A : Type ℓ) : Type (ℓ ⊔ κ) where
  ok : A → Result E A
  err : E → Result E A

infixl 5 ◌>>=◌ ◌>>◌
abbrev pub ◌>>=◌ {ℓ κ μ} :
    {E : Type μ} {A : Type ℓ} {B : Type κ} → Result E A → (A → Result E B) → Result E B
ok a >>= f = f a
err e >>= f = err e

abbrev pub ◌>>◌ {κ μ} : {E : Type μ} {B : Type κ} → Result E (Unit {0}) → Result E B → Result E B
m >> k = m >>= λ _. k

-- `if !b { return e }`.
abbrev pub guard {μ} : {E : Type μ} → Bool → E → Result E (Unit {0})
guard true e = ok tt
guard false e = err e

module _ {ℓ μ} {E : Type μ} {A : Type ℓ} where
  pub Result-cases : (r : Result E A) → ((a : A) × (r ≡ ok a)) ⊎ ((e : E) × (r ≡ err e))
  Result-cases (ok a) = inl (a, refl)
  Result-cases (err e) = inr (e, refl)

module _ {ℓ κ μ} {E : Type μ} {A : Type ℓ} {B : Type κ} where
  pub >>=-ext :
      (m : Result E A) (f g : A → Result E B)
      → ((a : A) → m ≡ ok a → f a ≡ g a)
      → (m >>= f) ≡ (m >>= g)
  >>=-ext (ok a) f g h = h a refl
  >>=-ext (err e) f g h = refl

  -- A chain that succeeds has succeeded at each step.
  pub >>=-ok :
      (m : Result E A) (f : A → Result E B) (b : B)
      → (m >>= f) ≡ ok b
      → (a : A) × (m ≡ ok a) × (f a ≡ ok b)
  >>=-ok (ok a) f b h = (a, refl, h)
  >>=-ok (err e) f b h = cc

  -- A chain that fails has failed at its first step or after it.
  pub >>=-err :
      (m : Result E A) (f : A → Result E B) (e : E)
      → (m >>= f) ≡ err e
      → (m ≡ err e) ⊎ ((a : A) × (m ≡ ok a) × (f a ≡ err e))
  >>=-err (ok a) f e h = inr (a, refl, h)
  >>=-err (err e') f e h = let same : e' ≡ e = cc h in inl (ap (λ x. err x) same)
