-- ===== src/Base/Outcome.antt =====
-- How a call of Go code ends: it returns, or it panics.
use mathlib.Core.Logic.{◌⊎◌, inl, inr}
use mathlib.Core.Path.{◌≡◌, refl}

pub data Outcome {ℓ} (A : Type ℓ) : Type ℓ where
  done : A → Outcome A
  panicked : Outcome A

infixl 5 ◌>>=◌
abbrev pub ◌>>=◌ {ℓ κ} : {A : Type ℓ} {B : Type κ} → Outcome A → (A → Outcome B) → Outcome B
done a >>= f = f a
panicked >>= f = panicked

pub >>=-eq-done {ℓ κ} :
    {A : Type ℓ} {B : Type κ} (m : Outcome A) (f : A → Outcome B) {b : B}
    → (m >>= f) ≡ done b
    → (a : A) × (m ≡ done a) × (f a ≡ done b)
>>=-eq-done (done a) f h = (a, refl, h)
>>=-eq-done panicked f h = cc

pub Outcome-cases {ℓ} : {A : Type ℓ} (o : Outcome A) → (o ≡ panicked) ⊎ ((a : A) × (o ≡ done a))
Outcome-cases panicked = inl refl
Outcome-cases (done a) = inr (a, refl)

-- What a call returns, if it does, has the property.
abbrev pub Ends {ℓ κ} : {A : Type ℓ} → (A → Type κ) → Outcome A → Type κ
Ends P (done a) = P a
Ends P panicked = Unit

pub Ends-bind {ℓ κ λ₁} :
    {A : Type ℓ} {B : Type κ} (Q : B → Type λ₁) (m : Outcome A) (f : A → Outcome B)
    → ((a : A) → Ends Q (f a))
    → Ends Q (m >>= f)
Ends-bind Q (done a) f h = h a
Ends-bind Q panicked f h = tt

pub Ends-then {ℓ κ λ₁ λ₂} :
    {A : Type ℓ} {B : Type κ} (P : A → Type λ₁) (Q : B → Type λ₂) (m : Outcome A)
    (f : A → Outcome B)
    → Ends P m
    → ((a : A) → P a → Ends Q (f a))
    → Ends Q (m >>= f)
Ends-then P Q (done a) f p h = h a p
Ends-then P Q panicked f p h = tt

pub Ends-done {ℓ κ} :
    {A : Type ℓ} (P : A → Type κ) (o : Outcome A) {a : A} → Ends P o → o ≡ done a → P a
Ends-done P o h e = rw e at h

pub Ends-weaken {ℓ κ λ₁} :
    {A : Type ℓ} (P : A → Type κ) (Q : A → Type λ₁) (o : Outcome A)
    → ((a : A) → P a → Q a)
    → Ends P o
    → Ends Q o
Ends-weaken P Q (done a) h p = h a p
Ends-weaken P Q panicked h p = tt
