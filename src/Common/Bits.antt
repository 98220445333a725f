-- ===== src/Common/Bits.antt =====
-- Laws of `bit_or` and `bit_and` at variables: fields that do not overlap, and masks of ones.
use Prim.Native.Nat.{
  ℕ, zero, suc, ◌+◌, ◌*◌, ◌/◌, ◌%◌, ◌^◌, ◌≤◌, ◌<◌, min, max, bit_and, bit_or, digits,
  bit_and-bitwise, bit_or-bitwise,
}
use mathlib.Core.Path.{◌≡◌, refl, ap}
use native.Mathlib.Nat.{pow-suc, div-add-mod, mod-lt}
use native.Mathlib.Omega.{arith}

-- The digit-wise operations, with `edge` for what the first number does not reach.
module _ (edge : ℕ → ℕ) (op : ℕ → ℕ → ℕ) where
  abbrev by_digits : ℕ → ℕ → ℕ → ℕ
  by_digits fuel x y = digits edge op fuel x y

  -- As many steps as the number is large are enough.
  enough : (x y i j : ℕ) → x ≤ i → x ≤ j → by_digits i x y ≡ by_digits j x y
  enough zero y zero zero l r = refl
  enough zero y zero (suc j) l r = refl
  enough zero y (suc i) zero l r = refl
  enough zero y (suc i) (suc j) l r = refl
  enough (suc x) y zero j l r = absurd (omega arith)
  enough (suc x) y (suc i) zero l r = absurd (omega arith)
  enough (suc x) y (suc i) (suc j) l r =
      let tail = enough (suc x / 2) (y / 2) i j (omega arith) (omega arith) in omega (arith, tail)

  -- The lowest digit apart from the others.
  lowest :
      (x y : ℕ)
      → by_digits (suc x) (suc x) y
        ≡ by_digits (suc x / 2) (suc x / 2) (y / 2) * 2 + op (suc x % 2) (y % 2)
  lowest x y =
      let tail = enough (suc x / 2) (y / 2) x (suc x / 2) (omega arith) (omega arith) in
      omega (arith, tail)

or_split : (x y : ℕ) → bit_or x y ≡ bit_or (x / 2) (y / 2) * 2 + max (x % 2) (y % 2)
or_split zero y = omega (arith, bit_or-bitwise 0 y, bit_or-bitwise 0 (y / 2))
or_split (suc x) y =
    let whole = bit_or-bitwise (suc x) y in
    let part = bit_or-bitwise (suc x / 2) (y / 2) in
    omega (arith, whole, part, lowest (λ b. b) max x y)

and_split : (x y : ℕ) → bit_and x y ≡ bit_and (x / 2) (y / 2) * 2 + min (x % 2) (y % 2)
and_split zero y = omega (arith, bit_and-bitwise 0 y, bit_and-bitwise 0 (y / 2))
and_split (suc x) y =
    let whole = bit_and-bitwise (suc x) y in
    let part = bit_and-bitwise (suc x / 2) (y / 2) in
    omega (arith, whole, part, lowest (λ b. zero) min x y)

-- Nothing in the second number.
nothing : (bound x : ℕ) → x ≤ bound → (bit_or x 0 ≡ x) × (bit_and x 0 ≡ 0)
nothing bound zero l = (bit_or-bitwise 0 0, bit_and-bitwise 0 0)
nothing zero (suc x) l = absurd (omega arith)
nothing (suc bound) (suc x) l =
    let (either, both) = nothing bound (suc x / 2) (omega arith) in
    (omega (arith, or_split (suc x) 0, either), omega (arith, and_split (suc x) 0, both))

-- A field of k bits below a number that is shifted by k is added to it.
pub bit_or-add : (k a b : ℕ) → b < 2 ^ k → bit_or (a * 2 ^ k) b ≡ a * 2 ^ k + b
bit_or-add zero a b h =
    let none_left : b ≡ 0 = omega arith in
    rw none_left (omega (arith, (nothing (a * 1) (a * 1) (omega arith)).0))
bit_or-add (suc k) a b h =
    let doubled : a * 2 ^ suc k ≡ a * (2 ^ k * 2) = ap (λ t. a * t) (pow-suc 2 k) in
    let half : a * 2 ^ suc k / 2 ≡ a * 2 ^ k = omega arith in
    let rest = bit_or-add k a (b / 2) (omega (arith, pow-suc 2 k)) in
    omega (arith, pow-suc 2 k, rw half at (or_split (a * 2 ^ suc k) b), rest)

mod_twice : (a m : ℕ) → 0 < m → a % (2 * m) ≡ a / 2 % m * 2 + a % 2
mod_twice a m h = grind (arith, div-add-mod a (2 * m), div-add-mod (a / 2) m, mod-lt)

-- A mask of k ones keeps the k low bits.
pub bit_and-ones : (k a m : ℕ) → m + 1 ≡ 2 ^ k → bit_and a m ≡ a % (m + 1)
bit_and-ones zero a m h =
    let empty : m ≡ 0 = omega arith in rw empty (omega (arith, (nothing a a (omega arith)).1))
bit_and-ones (suc k) a m h =
    let rest = bit_and-ones k (a / 2) (m / 2) (omega (arith, pow-suc 2 k)) in
    let odd : m % 2 ≡ 1 = omega (arith, pow-suc 2 k) in
    let twice : m + 1 ≡ 2 * (m / 2 + 1) = omega arith in
    rw twice (omega (arith, and_split a m, rest, mod_twice a (m / 2 + 1) (omega arith), odd))
