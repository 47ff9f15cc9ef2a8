-- ===== src/Base/Options.antt =====
-- Chains of results that may be missing.
use mathlib.Core.Option.{Option, none, some}
use mathlib.Core.Path.{◌≡◌, refl, ap}

infixl 5 ◌>>=◌
abbrev pub ◌>>=◌ {ℓ κ} : {A : Type ℓ} {B : Type κ} → Option A → (A → Option B) → Option B
none >>= f = none
some a >>= f = f a

pub bind_some {ℓ} : {A : Type ℓ} → (o : Option A) → (o >>= λ a. some a) ≡ o
bind_some none = refl
bind_some (some a) = refl

pub bind_none {ℓ κ} :
    {A : Type ℓ} {B : Type κ} → (o : Option A) → ◌≡◌ {A = Option B} (o >>= λ a. none) none
bind_none none = refl
bind_none (some a) = refl

-- A result that is there and satisfies a predicate.
abbrev pub Returns {ℓ κ} : {A : Type ℓ} → (A → Type κ) → Option A → Type (ℓ ⊔ κ)
Returns {A} P o = (x : A) × (o ≡ some x) × P x

pub Returns-bind {ℓ κ} :
    {A B : Type ℓ} (Q : A → Type κ) (P : B → Type κ) (o : Option A) (f : A → Option B)
    → Returns Q o
    → ((a : A) → Q a → Returns P (f a))
    → Returns P (o >>= f)
Returns-bind Q P o f (a, e, q) next = let (x, e', p) = next a q in (x, rw e e', p)

pub from_some {ℓ} : {A : Type ℓ} (a b : A) → some a ≡ some b → a ≡ b
from_some {A} a b e = ap (λ o. or_else o) e
  where
    or_else : Option A → A
    or_else none = a
    or_else (some x) = x
