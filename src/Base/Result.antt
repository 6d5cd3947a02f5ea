-- ===== src/Base/Result.antt =====
-- Code that returns or raises.
pub data Result {ℓ} (E A : Type ℓ) : Type ℓ where
  ok : A → Result E A
  err : E → Result E A

infixl 5 ◌>>=◌
abbrev pub ◌>>=◌ {ℓ} : {E A B : Type ℓ} → Result E A → (A → Result E B) → Result E B
ok a >>= f = f a
err e >>= f = err e

-- What holds of the value, if the code returns.
abbrev pub Returns {ℓ κ} : {E A : Type ℓ} → (A → Type κ) → Result E A → Type κ
Returns P (ok a) = P a
Returns P (err e) = Unit

pub Returns-bind {ℓ κ μ} :
    {E A B : Type ℓ} (Q : A → Type κ) (P : B → Type μ) (m : Result E A) (f : A → Result E B)
    → Returns Q m
    → ((a : A) → Q a → Returns P (f a))
    → Returns P (m >>= f)
Returns-bind Q P (ok a) f q k = k a q
Returns-bind Q P (err e) f q k = tt

pub Returns-map {ℓ κ μ} :
    {E A : Type ℓ} (Q : A → Type κ) (P : A → Type μ) (m : Result E A)
    → ((a : A) → Q a → P a)
    → Returns Q m
    → Returns P m
Returns-map Q P (ok a) k q = k a q
Returns-map Q P (err e) k q = tt

pub Returns-both {ℓ κ μ} :
    {E A : Type ℓ} (Q : A → Type κ) (P : A → Type μ) (m : Result E A)
    → Returns Q m
    → Returns P m
    → Returns (λ a. Q a × P a) m
Returns-both Q P (ok a) q p = (q, p)
Returns-both Q P (err e) q p = tt
