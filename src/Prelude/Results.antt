-- ===== src/Prelude/Results.antt =====
-- What a Go function returns: a value, an error, or a run-time panic.
use mathlib.Core.Path.{◌≡◌, refl}

pub data Outcome {ℓ} (E A : Type ℓ) : Type ℓ where
  ok : A → Outcome E A
  err : E → Outcome E A
  panic : Outcome E A

infixl 5 ◌>>=◌ ◌>>◌
abbrev pub ◌>>=◌ {ℓ} : {E A B : Type ℓ} → Outcome E A → (A → Outcome E B) → Outcome E B
ok a >>= f = f a
err e >>= f = err e
panic >>= f = panic

abbrev pub ◌>>◌ {ℓ} : {E A B : Type ℓ} → Outcome E A → Outcome E B → Outcome E B
m >> k = m >>= λ _. k

-- The call returns.
abbrev pub Returns : {E A : Type 0} → Outcome E A → Type 0
Returns {A} m = (a : A) × (m ≡ ok a)

pub bind-Returns :
    {E A B : Type 0} (m : Outcome E A) (f : A → Outcome E B)
    → Returns m
    → ((a : A) → m ≡ ok a → Returns (f a))
    → Returns (m >>= f)
bind-Returns (ok a) f h k = k a refl
bind-Returns (err e) f (a, h) k = cc
bind-Returns panic f (a, h) k = cc
