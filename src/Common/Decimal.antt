-- ===== src/Common/Decimal.antt =====
-- Decimal texts as `strconv.FormatInt` and the `%d` of fmt print them (for a number that is not
-- negative), and as `strconv.Atoi` reads their digits. A text is the list of its bytes.
use Prim.Native.Nat.{ℕ, zero, suc, ◌+◌, ◌-◌, ◌*◌, ◌/◌, ◌%◌, ◌<◌}
use mathlib.Core.Path.{◌≡◌, ◌∙◌, sym, ap}
use mathlib.Core.Bool.{Bool, true, false, ◌&&◌}
use mathlib.Core.Option.{Option, none, some}
use mathlib.Core.List.{List, [], ◌∷◌, ◌++◌}
use native.Mathlib.Omega.{arith}
use yaxter.Common.Tests.{leb, ltb, if◌then◌else◌, Bool-cases}
use yaxter.Common.Lists.{All}
use mathlib.Core.Logic.{inl, inr, ◌≢◌}

abbrev pub Text : Type 0
Text = List ℕ

abbrev pub is_digit : ℕ → Bool
is_digit c = leb b'0' c && leb c b'9'

-- The value of a run of digits, after those that were read; `none` at any other byte.
unfoldable pub digits_from : ℕ → Text → Option ℕ
digits_from acc [] = some acc
digits_from acc (c ∷ cs) = if is_digit c then digits_from (acc * 10 + (c - b'0')) cs else none

decimal_fuel : ℕ → ℕ → Text
decimal_fuel zero n = []
decimal_fuel (suc f) n = elim (ltb n 10) [
  | true ↦ (b'0' + n) ∷ []
  | false ↦ decimal_fuel f (n / 10) ++ (b'0' + n % 10) ∷ []
]

-- A number has no more digits than its value and one.
unfoldable pub decimal : ℕ → Text
unfolding decimal_fuel
decimal n = decimal_fuel (suc n) n

digits_from-append :
    (acc v : ℕ) (xs ys : Text)
    → digits_from acc xs ≡ some v
    → digits_from acc (xs ++ ys) ≡ digits_from v ys
unfolding digits_from
digits_from-append acc v [] ys h = ground arith
digits_from-append acc v (x ∷ xs) ys h =
    ground (arith, digits_from-append (acc * 10 + (x - b'0')) v xs ys)

decimal_fuel_small : (f n : ℕ) → ltb n 10 ≡ true → decimal_fuel (suc f) n ≡ (b'0' + n) ∷ []
unfolding decimal_fuel
decimal_fuel_small f n h = ground arith

decimal_fuel_large :
    (f n : ℕ)
    → ltb n 10 ≡ false
    → decimal_fuel (suc f) n ≡ decimal_fuel f (n / 10) ++ (b'0' + n % 10) ∷ []
unfolding decimal_fuel
decimal_fuel_large f n h = ground arith

digits_from_one : (v d : ℕ) → d < 10 → digits_from v ((b'0' + d) ∷ []) ≡ some (v * 10 + d)
unfolding digits_from
digits_from_one v d h = ground arith

digits_from-decimal_fuel : (f n : ℕ) → n < f → digits_from 0 (decimal_fuel f n) ≡ some n
digits_from-decimal_fuel zero n h = absurd (omega arith)
digits_from-decimal_fuel (suc f) n h = elim (Bool-cases (ltb n 10)) [
  | inl small ↦
      rw (decimal_fuel_small f n small) (digits_from_one 0 n (ground arith) ∙ ap some (omega arith))
  | inr large ↦
      let rest = digits_from-decimal_fuel f (n / 10) (ground arith) in
      let last =
        digits_from-append 0 (n / 10) (decimal_fuel f (n / 10)) ((b'0' + n % 10) ∷ []) rest in
      rw (decimal_fuel_large f n large)
        (last ∙ digits_from_one (n / 10) (n % 10) (omega arith) ∙ ap some (omega arith))
]

-- Reading back what was printed gives the number.
pub digits_from-decimal : (n : ℕ) → digits_from 0 (decimal n) ≡ some n
unfolding decimal
digits_from-decimal n = digits_from-decimal_fuel (suc n) n (omega arith)

pub decimal_injective : (n m : ℕ) → decimal n ≡ decimal m → n ≡ m
decimal_injective n m e =
    let same : some n ≡ some m =
      sym (digits_from-decimal n) ∙ ap (digits_from 0) e ∙ digits_from-decimal m in
    cc

abbrev pub AllDigits : Text → Type 0
AllDigits = All (λ c. is_digit c ≡ true)

AllDigits-append : (xs : Text) (d : ℕ) → AllDigits xs → is_digit d ≡ true → AllDigits (xs ++ d ∷ [])
AllDigits-append [] d h k = (k, tt)
AllDigits-append (x ∷ xs) d h k = (h.0, AllDigits-append xs d h.1 k)

decimal_fuel-AllDigits : (f n : ℕ) → AllDigits (decimal_fuel f n)
decimal_fuel-AllDigits zero n = unfold decimal_fuel in tt
decimal_fuel-AllDigits (suc f) n = elim (Bool-cases (ltb n 10)) [
  | inl small ↦ rw (decimal_fuel_small f n small) (ground arith, tt)
  | inr large ↦ rw (decimal_fuel_large f n large) (
      AllDigits-append (decimal_fuel f (n / 10)) (b'0' + n % 10) (decimal_fuel-AllDigits f (n / 10))
        (ground arith))
]

pub decimal-AllDigits : (n : ℕ) → AllDigits (decimal n)
unfolding decimal
decimal-AllDigits n = decimal_fuel-AllDigits (suc n) n

append_last-ne-nil : (xs : Text) (d : ℕ) → xs ++ d ∷ [] ≢ []
append_last-ne-nil [] d e = cc
append_last-ne-nil (x ∷ xs) d e = cc

pub decimal-ne-nil : (n : ℕ) → decimal n ≢ []
unfolding decimal
decimal-ne-nil n e = elim (Bool-cases (ltb n 10)) [
  | inl small ↦ cc (decimal_fuel_small n n small)
  | inr large ↦
      append_last-ne-nil (decimal_fuel n (n / 10)) (b'0' + n % 10)
        (sym (decimal_fuel_large n n large) ∙ e)
]
