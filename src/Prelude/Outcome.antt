-- ===== src/Prelude/Outcome.antt =====
-- How a kernel function ends: it returns, or it calls `panic` and the machine stops.
pub data Outcome {ℓ} (A : Type ℓ) : Type ℓ where
  ok : A → Outcome A
  panic : Outcome A

infixl 5 ◌>>=◌
abbrev pub ◌>>=◌ {ℓ κ} : {A : Type ℓ} {B : Type κ} → Outcome A → (A → Outcome B) → Outcome B
ok a >>= f = f a
panic >>= f = panic

-- What holds of the result, when there is one.
abbrev pub Sure {ℓ κ} : {A : Type ℓ} → (A → Type κ) → Outcome A → Type κ
Sure P (ok a) = P a
Sure P panic = Unit

pub bind-Sure {ℓ κ μ} :
    {A : Type ℓ} {B : Type κ} (P : A → Type μ) (Q : B → Type μ) (r : Outcome A) (f : A → Outcome B)
    → Sure P r
    → ((a : A) → P a → Sure Q (f a))
    → Sure Q (r >>= f)
bind-Sure P Q (ok a) f h g = g a h
bind-Sure P Q panic f h g = tt

pub map-Sure {ℓ κ} :
    {A : Type ℓ} (P : A → Type κ) (Q : A → Type κ) (r : Outcome A)
    → Sure P r
    → ((a : A) → P a → Q a)
    → Sure Q r
map-Sure P Q (ok a) h f = f a h
map-Sure P Q panic h f = tt
