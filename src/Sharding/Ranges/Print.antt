-- ===== src/Sharding/Ranges/Print.antt =====
-- A list of ranges that is printed as "0-63,128-191" is read back as the numbers of its ranges.
use yaxter.Common.{
  ℕ, ◌+◌, ◌-◌, ◌^◌, ◌≤◌, ◌<◌, ◌≡◌, ◌≢◌, refl, Bool, true, ◌&&◌, not, some, List, [], ◌∷◌, ◌++◌, ok,
  ◌==◌, arith, All,
}
use yaxter.Common.Decimal.{
  Text, AllDigits, digits_from, decimal, digits_from-decimal, decimal-AllDigits, decimal-ne-nil,
}
use yaxter.Common.Int.{pos}
use yaxter.Sharding.Hash.{num_logical_shards}
use yaxter.Sharding.Ranges.{
  range_from, bounded, parse_part, parse_parts, parse_ranges, split, trim_space, trim_left,
  trim_right, atoi, ends, cut, is_space,
}

-- "lo-hi"
pub print_part : ℕ × ℕ → Text
print_part (lo, hi) = decimal lo ++ b'-' ∷ decimal hi

-- The ranges joined by commas.
pub print_ranges : ℕ × ℕ → List (ℕ × ℕ) → Text
print_ranges r [] = print_part r
print_ranges r (q ∷ qs) = print_part r ++ b',' ∷ print_ranges q qs

-- The numbers that the ranges stand for.
pub expand : ℕ × ℕ → List (ℕ × ℕ) → List ℕ
expand (lo, hi) [] = range_from lo (hi + 1 - lo) ++ []
expand (lo, hi) (q ∷ qs) = range_from lo (hi + 1 - lo) ++ expand q qs

abbrev pub InBounds : ℕ × ℕ → Type 0
InBounds (lo, hi) = (lo ≤ hi) × (hi < num_logical_shards)

cut-digits : (lo hi : Text) → AllDigits lo → cut (lo ++ b'-' ∷ hi) ≡ some (lo, hi)
unfolding cut
cut-digits [] hi h = refl
cut-digits (c ∷ cs) hi h = ground (arith, cut-digits cs hi h.1)

atoi-digits :
    (s : Text) (n : ℕ)
    → AllDigits s
    → s ≢ []
    → digits_from 0 s ≡ some n
    → n < 2 ^ 63
    → atoi s ≡ some (pos n)
unfolding atoi
atoi-digits [] n h ne e b = absurd (ne refl)
atoi-digits (c ∷ cs) n h ne e b = ground arith

atoi-decimal : (n : ℕ) → n < num_logical_shards → atoi (decimal n) ≡ some (pos n)
atoi-decimal n h =
    atoi-digits (decimal n) n (decimal-AllDigits n) (decimal-ne-nil n) (digits_from-decimal n)
      (omega arith)

bounded_lem :
    (part : Text) (lo hi : ℕ)
    → InBounds (lo, hi)
    → bounded part (pos lo) (pos hi) ≡ ok (range_from lo (hi + 1 - lo))
unfolding bounded
bounded_lem part lo hi h = ground arith

parse_part-print_part :
    (lo hi : ℕ)
    → InBounds (lo, hi)
    → parse_part (print_part (lo, hi)) ≡ ok (range_from lo (hi + 1 - lo))
unfolding parse_part print_part
parse_part-print_part lo hi h =
    let at = cut-digits (decimal lo) (decimal hi) (decimal-AllDigits lo) in
    let l = atoi-decimal lo (omega arith) in
    let r = atoi-decimal hi (omega arith) in
    rw (at, ends) (rw l (rw r (bounded_lem (print_part (lo, hi)) lo hi h)))

-- A text with no space at either end, and no comma, goes through `Split` and `TrimSpace` as it is.
abbrev plain : ℕ → Bool
plain c = not (is_space c) && not (c == b',')

abbrev Plain : Text → Type 0
Plain = All (λ c. plain c ≡ true)

trim_left-Plain : (s : Text) → Plain s → trim_left s ≡ s
unfolding trim_left
trim_left-Plain [] h = refl
trim_left-Plain (c ∷ cs) h = ground arith

trim_right-Plain : (s : Text) → Plain s → trim_right s ≡ s
unfolding trim_right
trim_right-Plain [] h = refl
trim_right-Plain (c ∷ []) h = ground arith
trim_right-Plain (c ∷ d ∷ ds) h = rw (trim_right-Plain (d ∷ ds) h.1)

split-Plain : (s : Text) → Plain s → split b',' s ≡ s ∷ []
unfolding split
split-Plain [] h = refl
split-Plain (c ∷ cs) h = ground (arith, split-Plain cs h.1)

split-Plain-append : (s rest : Text) → Plain s → split b',' (s ++ b',' ∷ rest) ≡ s ∷ split b',' rest
unfolding split
split-Plain-append [] rest h = refl
split-Plain-append (c ∷ cs) rest h = ground (arith, split-Plain-append cs rest h.1)

Plain-append : (xs ys : Text) → Plain xs → Plain ys → Plain (xs ++ ys)
Plain-append [] ys h k = k
Plain-append (x ∷ xs) ys h k = (h.0, Plain-append xs ys h.1 k)

AllDigits-Plain : (s : Text) → AllDigits s → Plain s
AllDigits-Plain [] h = tt
AllDigits-Plain (c ∷ cs) h = (ground arith, AllDigits-Plain cs h.1)

print_part-Plain : (lo hi : ℕ) → Plain (print_part (lo, hi))
unfolding print_part
print_part-Plain lo hi =
    Plain-append (decimal lo) (b'-' ∷ decimal hi)
      (AllDigits-Plain (decimal lo) (decimal-AllDigits lo))
      (refl, AllDigits-Plain (decimal hi) (decimal-AllDigits hi))

trim_space-print_part : (lo hi : ℕ) → trim_space (print_part (lo, hi)) ≡ print_part (lo, hi)
unfolding trim_space
trim_space-print_part lo hi =
    let plain = print_part-Plain lo hi in
    rw (trim_left-Plain (print_part (lo, hi)) plain) (trim_right-Plain (print_part (lo, hi)) plain)

-- Printing ranges within 0 to 255, none of them empty, and parsing the text gives the numbers of
-- the ranges in order.
pub parse_ranges-print_ranges :
    (r : ℕ × ℕ) (rs : List (ℕ × ℕ))
    → InBounds r
    → All InBounds rs
    → parse_ranges (print_ranges r rs) ≡ ok (expand r rs)
unfolding parse_ranges parse_parts print_ranges expand
parse_ranges-print_ranges (lo, hi) [] h k = rw (
  split-Plain (print_part (lo, hi)) (print_part-Plain lo hi),
  trim_space-print_part lo hi,
  parse_part-print_part lo hi h,
)
parse_ranges-print_ranges (lo, hi) (q ∷ qs) h k =
    let rest = parse_ranges-print_ranges q qs k.0 k.1 in
    rw (
      split-Plain-append (print_part (lo, hi)) (print_ranges q qs) (print_part-Plain lo hi),
      trim_space-print_part lo hi,
      parse_part-print_part lo hi h,
      rest,
    )
