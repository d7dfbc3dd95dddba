-- ===== src/Prelude/Maybe.antt =====
-- Chains of steps that may fail.
use mathlib.Core.Path.{◌≡◌, refl}
use mathlib.Core.Option.{Option, none, some}

infixl 5 ◌>>=◌
abbrev pub ◌>>=◌ {ℓ κ} : {A : Type ℓ} {B : Type κ} → Option A → (A → Option B) → Option B
none >>= f = none
some a >>= f = f a

-- A pointer that is set.
pub data Given {ℓ} {A : Type ℓ} : Option A → Type ℓ where
  given : (a : A) → Given (some a)

pub bind-Given {ℓ κ} :
    {A : Type ℓ} {B : Type κ} (o : Option A) (f : A → Option B)
    → Given o
    → ((a : A) → Given (f a))
    → Given (o >>= f)
bind-Given o f (given a) h = h a

pub Given-value {ℓ} : {A : Type ℓ} (o : Option A) → Given o → (a : A) × (o ≡ some a)
Given-value o (given a) = (a, refl)

-- A property of the value, where there is one.
abbrev pub All {ℓ κ} : {A : Type ℓ} → (A → Type κ) → Option A → Type κ
All P none = Unit
All P (some a) = P a

pub bind-All {ℓ κ μ} :
    {A : Type ℓ} {B : Type κ} (P : B → Type μ) (o : Option A) (f : A → Option B)
    → ((a : A) → All P (f a))
    → All P (o >>= f)
bind-All P none f h = tt
bind-All P (some a) f h = h a

pub All-value {ℓ κ} :
    {A : Type ℓ} (P : A → Type κ) (o : Option A) (a : A) → o ≡ some a → All P o → P a
All-value P o a e h = rw e at h
