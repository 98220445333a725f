-- ===== src/Common/Strconv.antt =====
-- `strconv.ParseInt(s, 10, 64)`.
use Prim.Native.Nat.{ℕ, zero, suc, ◌-◌, ◌^◌, ◌<◌}
use mathlib.Core.Path.{◌≡◌, refl}
use mathlib.Core.Bool.{Bool, true, false}
use mathlib.Core.Option.{Option, none, some}
use mathlib.Core.List.{[], ◌∷◌}
use native.Mathlib.Omega.{arith}
use yaxter.Common.Tests.{ltb, lt→ltb, ◌==◌, if◌then◌else◌}
use yaxter.Common.Int.{ℤ, pos, negsuc}
use yaxter.Common.Decimal.{
  Text, digits_from, decimal, digits_from-decimal, decimal-AllDigits, decimal-ne-nil, AllDigits,
}

-- The result and whether there is no error. A text that is no number gives 0, and a number out of
-- range the nearest one in range.

positive : Option ℕ → ℤ × Bool
positive none = (pos 0, false)
positive (some n) = if ltb n (2 ^ 63) then (pos n, true) else (pos (2 ^ 63 - 1), false)

negative : Option ℕ → ℤ × Bool
negative none = (pos 0, false)
negative (some zero) = (pos 0, true)
negative (some (suc n)) = if ltb n (2 ^ 63) then (negsuc n, true) else (negsuc (2 ^ 63 - 1), false)

-- At least one digit.
digits : Text → Option ℕ
digits [] = none
digits (c ∷ cs) = digits_from 0 (c ∷ cs)

unfoldable pub parse_int : Text → ℤ × Bool
unfolding positive negative digits
parse_int [] = (pos 0, false)
parse_int (c ∷ cs) =
    if c == b'-'
    then negative (digits cs)
    else if c == b'+'
    then positive (digits cs)
    else positive (digits (c ∷ cs))

pub parse_int-digits :
    (s : Text) {n : ℕ}
    → AllDigits s
    → digits_from 0 s ≡ some n
    → n < 2 ^ 63
    → (s ≡ [] → ⊥)
    → parse_int s ≡ (pos n, true)
unfolding parse_int
parse_int-digits [] d h lt ne = absurd (ne refl)
parse_int-digits (c ∷ cs) {n} d h lt ne =
    let minus : (c == b'-') ≡ false = ground arith in
    let plus : (c == b'+') ≡ false = ground arith in
    rw (minus, plus, h) (rw (lt→ltb n (2 ^ 63) lt) refl)

-- Reading what `FormatInt` prints of a number that is not negative.
pub parse_int-decimal : (n : ℕ) → n < 2 ^ 63 → parse_int (decimal n) ≡ (pos n, true)
parse_int-decimal n lt =
    parse_int-digits (decimal n) (decimal-AllDigits n) (digits_from-decimal n) lt (decimal-ne-nil n)
