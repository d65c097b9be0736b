-- ===== src/Base/Results.antt =====
-- What a Go call answers: a value, an error value, or a run-time panic.
use mathlib.Core.Path.{◌≡◌, refl}
use mathlib.Core.Option.{Option, none, some}

pub data Result {ℓ} (E : Type ℓ) (A : Type ℓ) : Type ℓ where
  ok : A → Result E A
  err : E → Result E A
  panic : Result E A

infixl 5 ◌>>=◌ ◌>>◌
abbrev pub ◌>>=◌ {ℓ} : {E A B : Type ℓ} → Result E A → (A → Result E B) → Result E B
ok a >>= f = f a
err e >>= f = err e
panic >>= f = panic

abbrev pub ◌>>◌ {ℓ} : {E A B : Type ℓ} → Result E A → Result E B → Result E B
m >> k = m >>= λ _. k

-- An index expression `b[i]`: out of range it panics.
abbrev pub or_panic {ℓ} : {E A : Type ℓ} → Option A → Result E A
or_panic none = panic
or_panic (some a) = ok a

-- The call does not panic, and a value that it returns satisfies `P`.
abbrev pub Ensures : {E A : Type 0} → (A → Type 0) → Result E A → Type 0
Ensures P (ok a) = P a
Ensures P (err e) = Unit {0}
Ensures P panic = ⊥

pub Ensures-bind :
    {E A B : Type 0} (Q : A → Type 0) (R : B → Type 0) (call : Result E A) (next : A → Result E B)
    → Ensures Q call
    → ((x : A) → Q x → Ensures R (next x))
    → Ensures R (call >>= next)
Ensures-bind Q R panic next never step = absurd never
Ensures-bind Q R (err e) next good step = tt
Ensures-bind Q R (ok x) next good step = step x good

pub >>=-eq-ok {ℓ} :
    {E A B : Type ℓ} (call : Result E A) (next : A → Result E B) {y : B}
    → (call >>= next) ≡ ok y
    → (x : A) × (call ≡ ok x) × (next x ≡ ok y)
>>=-eq-ok panic next done = cc
>>=-eq-ok (err e) next done = cc
>>=-eq-ok (ok x) next done = (x, refl, done)
