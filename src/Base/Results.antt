-- ===== src/Base/Results.antt =====
-- `Result<A, String>`: the message is a value of an error type of the component's own.

pub data Result {ℓ} (E : Type 0) (A : Type ℓ) : Type ℓ where
  ok : A → Result E A
  err : E → Result E A

-- the `?` of the source
infixl 5 ◌>>=◌
abbrev pub ◌>>=◌ {ℓ κ} :
    {E : Type 0} {A : Type ℓ} {B : Type κ} → Result E A → (A → Result E B) → Result E B
ok a >>= f = f a
err e >>= f = err e

-- a property of what is answered, if there is an answer
abbrev pub IfOk {ℓ κ} : {E : Type 0} {A : Type ℓ} → Result E A → (A → Type κ) → Type κ
IfOk (ok a) P = P a
IfOk (err e) P = Unit

-- a property of the error, if there is one
abbrev pub IfErr {ℓ κ} : {E : Type 0} {A : Type ℓ} → Result E A → (E → Type κ) → Type κ
IfErr (ok a) Q = Unit
IfErr (err e) Q = Q e

pub IfErr-bind {ℓ ι κ} :
    {E : Type 0} {A : Type ℓ} {B : Type ι} (Q : E → Type κ) (m : Result E A) (f : A → Result E B)
    → IfErr m Q
    → ((a : A) → IfErr (f a) Q)
    → IfErr (m >>= f) Q
IfErr-bind Q (ok a) f h k = k a
IfErr-bind Q (err e) f h k = h

-- what a computation answers has the property that is known of it
pub IfOk-bind {ℓ ι κ μ} :
    {E : Type 0} {A : Type ℓ} {B : Type ι} (Q : A → Type μ) (P : B → Type κ) (m : Result E A)
    (f : A → Result E B)
    → IfOk m Q
    → ((a : A) → Q a → IfOk (f a) P)
    → IfOk (m >>= f) P
IfOk-bind Q P (ok a) f q h = h a q
IfOk-bind Q P (err e) f q h = tt

pub IfOk->>= {ℓ ι κ} :
    {E : Type 0} {A : Type ℓ} {B : Type ι} (P : B → Type κ) (m : Result E A) (f : A → Result E B)
    → ((a : A) → IfOk (f a) P)
    → IfOk (m >>= f) P
IfOk->>= P (ok a) f h = h a
IfOk->>= P (err e) f h = tt
