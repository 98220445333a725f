-- ===== src/Common/Errors.antt =====
-- A Go result `(value, error)`: a value or an error, with the early return as bind.
use mathlib.Core.Path.{◌≡◌, refl}
use mathlib.Core.Bool.{Bool, true, false}

pub data Result {ℓ} (E A : Type ℓ) : Type ℓ where
  ok : A → Result E A
  err : E → Result E A

infixl 5 ◌>>=◌ ◌>>◌
abbrev pub ◌>>=◌ {ℓ} : {E A B : Type ℓ} → Result E A → (A → Result E B) → Result E B
ok a >>= f = f a
err e >>= f = err e

abbrev pub ◌>>◌ : {E B : Type 0} → Result E (Unit {0}) → Result E B → Result E B
m >> k = m >>= λ done. k

abbrev pub guard : {E : Type 0} → Bool → E → Result E (Unit {0})
guard true e = ok tt
guard false e = err e

pub data ResultCases {ℓ} {E A : Type ℓ} (r : Result E A) : Type ℓ where
  is_ok : (a : A) → r ≡ ok a → ResultCases r
  is_err : (e : E) → r ≡ err e → ResultCases r

pub Result-cases {ℓ} : {E A : Type ℓ} (r : Result E A) → ResultCases r
Result-cases (ok a) = is_ok a refl
Result-cases (err e) = is_err e refl
