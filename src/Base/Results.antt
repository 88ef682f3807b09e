-- ===== src/Base/Results.antt =====
-- A call that returns or throws: `err` carries what is thrown.
use mathlib.Core.Path.{◌≡◌, refl, ap}
use mathlib.Core.Bool.{Bool, true, false}
use mathlib.Core.Logic.{◌⊎◌, inl, inr}
use mathlib.Core.Option.{Option, none, some}

pub data Result (E A : Type 0) : Type 0 where
  ok : A → Result E A
  err : E → Result E A

infixl 5 ◌>>=◌ ◌>>◌
abbrev pub ◌>>=◌ : {E A B : Type 0} → Result E A → (A → Result E B) → Result E B
ok a >>= f = f a
err e >>= f = err e

abbrev pub ◌>>◌ : {E B : Type 0} → Result E (Unit {0}) → Result E B → Result E B
m >> k = m >>= λ _. k

-- `if (bad) throw e;`
abbrev pub throw_if : {E : Type 0} → Bool → E → Result E (Unit {0})
throw_if true e = err e
throw_if false e = ok tt

-- `if (!row) throw e;`
abbrev pub or_throw : {E A : Type 0} → Option A → E → Result E A
or_throw none e = err e
or_throw (some a) e = ok a

abbrev pub is_ok : {E A : Type 0} → Result E A → Bool
is_ok (ok a) = true
is_ok (err e) = false

pub Result-cases :
    {E A : Type 0} (r : Result E A) → ((a : A) × (r ≡ ok a)) ⊎ ((e : E) × (r ≡ err e))
Result-cases (ok a) = inl (a, refl)
Result-cases (err e) = inr (e, refl)

pub some_same : {A : Type 0} {a b : A} → some a ≡ some b → a ≡ b
some_same {a} e = ap (λ o. elim o [ none ↦ a | some x ↦ x ]) e

pub none_ne : {A : Type 0} {a : A} → ◌≡◌ {A = Option A} none (some a) → ⊥
none_ne e = cc

pub ok_same : {E A : Type 0} {a b : A} → ◌≡◌ {A = Result E A} (ok a) (ok b) → a ≡ b
ok_same {a} h = ap (λ r. elim r [ ok x ↦ x | err e ↦ a ]) h

-- What is returned, if anything is, has the property.
abbrev pub Yields {ℓ} : {E A : Type 0} → (A → Type ℓ) → Result E A → Type ℓ
Yields P (ok a) = P a
Yields P (err e) = Unit

pub Yields-bind {ℓ} :
    {E A B : Type 0} (P : B → Type ℓ) (m : Result E A) (f : A → Result E B)
    → ((a : A) → m ≡ ok a → Yields P (f a))
    → Yields P (m >>= f)
Yields-bind P (ok a) f h = h a refl
Yields-bind P (err e) f h = tt

pub Yields-ok {ℓ} :
    {E A : Type 0} (P : A → Type ℓ) (r : Result E A) (a : A) → r ≡ ok a → Yields P r → P a
Yields-ok P r a e h = rw e at h
