-- ===== src/Prelude/Results.antt =====
-- Python code that may raise: a pure function returns a `Result`, the exception or the value.
use mathlib.Core.Path.{◌≡◌, refl, subst}
use mathlib.Core.Logic.{◌⊎◌, inl, inr}
use mathlib.Core.Bool.{Bool, true, false}

pub data Result {ℓ κ} (E : Type ℓ) (A : Type κ) : Type (ℓ ⊔ κ) where
  ok : A → Result E A
  err : E → Result E A

infixl 5 ◌>>=◌ ◌>>◌
abbrev pub ◌>>=◌ {ℓ κ μ} :
    {E : Type ℓ} {A : Type κ} {B : Type μ} → Result E A → (A → Result E B) → Result E B
ok a >>= f = f a
err e >>= f = err e

abbrev pub ◌>>◌ {ℓ κ} : {E : Type ℓ} {B : Type κ} → Result E (Unit {0}) → Result E B → Result E B
m >> k = m >>= λ _. k

-- `if test: raise e`
abbrev pub raise_if {ℓ} : {E : Type ℓ} → Bool → E → Result E (Unit {0})
raise_if true e = err e
raise_if false e = ok tt

-- The value has the first property, or the exception the second.
abbrev pub Ensures {ℓ κ μ} :
    {E : Type ℓ} {A : Type κ} → (A → Type μ) → (E → Type μ) → Result E A → Type μ
Ensures P Q (ok a) = P a
Ensures P Q (err e) = Q e

pub Ensures-bind {ℓ κ κ' μ} :
    {E : Type ℓ} {A : Type κ} {B : Type κ'} (P : A → Type μ) (R : B → Type μ) (Q : E → Type μ)
    (m : Result E A) (f : A → Result E B)
    → Ensures P Q m
    → ((a : A) → P a → Ensures R Q (f a))
    → Ensures R Q (m >>= f)
Ensures-bind P R Q (ok a) f h k = k a h
Ensures-bind P R Q (err e) f h k = h

pub Ensures-bind' {ℓ κ κ' μ} :
    {E : Type ℓ} {A : Type κ} {B : Type κ'} (P : A → Type μ) (R : B → Type μ) (Q Q' : E → Type μ)
    (m : Result E A) (f : A → Result E B)
    → Ensures P Q m
    → ((e : E) → Q e → Q' e)
    → ((a : A) → P a → Ensures R Q' (f a))
    → Ensures R Q' (m >>= f)
Ensures-bind' P R Q Q' (ok a) f h w k = k a h
Ensures-bind' P R Q Q' (err e) f h w k = w e h

pub Ensures-map {ℓ κ μ} :
    {E : Type ℓ} {A : Type κ} (P R : A → Type μ) (Q : E → Type μ)
    → ((a : A) → P a → R a)
    → (m : Result E A) → Ensures P Q m
    → Ensures R Q m
Ensures-map P R Q f (ok a) h = f a h
Ensures-map P R Q f (err e) h = h

pub Ensures-any {ℓ κ μ} :
    {E : Type ℓ} {A : Type κ} (m : Result E A) → Ensures (λ a. Unit {μ}) (λ e. Unit {μ}) m
Ensures-any (ok a) = tt
Ensures-any (err e) = tt

pub Ensures-both {ℓ κ μ} :
    {E : Type ℓ} {A : Type κ} (P R : A → Type μ) (m : Result E A)
    → Ensures P (λ e. Unit {μ}) m
    → Ensures R (λ e. Unit {μ}) m
    → Ensures (λ a. P a × R a) (λ e. Unit {μ}) m
Ensures-both P R (ok a) h k = (h, k)
Ensures-both P R (err e) h k = tt

pub Ensures-ok {ℓ κ μ} :
    {E : Type ℓ} {A : Type κ} (P : A → Type μ) (Q : E → Type μ) (m : Result E A) (a : A)
    → m ≡ ok a
    → Ensures P Q m
    → P a
Ensures-ok P Q m a e h = subst (Ensures P Q) e h

pub Ensures-after {ℓ κ κ' μ} :
    {E : Type ℓ} {A : Type κ} {B : Type κ'} (P : B → Type μ) (Q : E → Type μ) (m : Result E A)
    (f : A → Result E B) (a : A)
    → m ≡ ok a
    → Ensures P Q (f a)
    → Ensures P Q (m >>= f)
Ensures-after P Q m f a e h = rw e h

pub Ensures-left {ℓ κ μ} :
    {E : Type ℓ} {A : Type κ} (P R : A → Type μ) (Q : E → Type μ) (m : Result E A)
    → Ensures (λ a. P a × R a) Q m
    → Ensures P Q m
Ensures-left P R Q (ok a) h = h.0
Ensures-left P R Q (err e) h = h

pub Result-cases {ℓ κ} :
    {E : Type ℓ} {A : Type κ} (m : Result E A) → ((a : A) × (m ≡ ok a)) ⊎ ((e : E) × (m ≡ err e))
Result-cases (ok a) = inl (a, refl)
Result-cases (err e) = inr (e, refl)

-- What holds of the value if there is one, for a computation that is known to have one.
pub Ensures-total {ℓ κ} :
    {E : Type ℓ} {A : Type κ} (P : A → Type 0) (m : Result E A)
    → Ensures P (λ e. Unit {0}) m
    → Ensures (λ a. Unit {0}) (λ e. ⊥) m
    → Ensures P (λ e. ⊥) m
Ensures-total P (ok a) h k = h
Ensures-total P (err e) h k = absurd k
