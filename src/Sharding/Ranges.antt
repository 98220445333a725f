-- ===== src/Sharding/Ranges.antt =====
-- config.go, `parseRanges`: "0-63,128-191" as the list of its shard numbers. A text is the list
-- of its bytes, and the texts are ASCII: `strings.TrimSpace` also trims spaces beyond ASCII.
pub mod Bounds
pub mod Print
use yaxter.Common.{
  ℕ, zero, suc, ◌+◌, ◌-◌, ◌*◌, ◌^◌, ◌≤◌, Bool, true, false, Option, none, some, List, [], ◌∷◌, ◌++◌,
  Result, ok, err, ◌>>=◌, ◌&&◌, ◌||◌, ltb, leb, ◌==◌, if◌then◌else◌,
}
use yaxter.Common.Decimal.{Text, digits_from}
use yaxter.Common.Int.{ℤ, pos, negsuc, ltb_ℤ}
use yaxter.Sharding.Hash.{num_logical_shards}

-- `strings.Split(s, ",")`
abbrev cons_head : ℕ → List Text → List Text
cons_head c [] = (c ∷ []) ∷ []
cons_head c (p ∷ ps) = (c ∷ p) ∷ ps

unfoldable pub split : ℕ → Text → List Text
split sep [] = [] ∷ []
split sep (c ∷ cs) = let rest = split sep cs in if c == sep then [] ∷ rest else cons_head c rest

abbrev pub is_space : ℕ → Bool
is_space c = c == 32 || leb 9 c && leb c 13

unfoldable pub trim_left : Text → Text
trim_left [] = []
trim_left (c ∷ cs) = if is_space c then trim_left cs else c ∷ cs

-- A space is dropped if only spaces follow it.
abbrev cons_trimmed : ℕ → Text → Text
cons_trimmed c [] = if is_space c then [] else c ∷ []
cons_trimmed c (d ∷ ds) = c ∷ d ∷ ds

unfoldable pub trim_right : Text → Text
trim_right [] = []
trim_right (c ∷ cs) = cons_trimmed c (trim_right cs)

unfoldable pub trim_space : Text → Text
unfolding trim_left trim_right
trim_space s = trim_right (trim_left s)

-- `strings.IndexByte(part, '-')` and the two slices around it.
unfoldable pub cut : Text → Option (Text × Text)
cut [] = none
cut (c ∷ cs) =
    if c == b'-'
    then some ([], cs)
    else elim (cut cs) [ none ↦ none | some (lo, hi) ↦ some (c ∷ lo, hi) ]

unfoldable pub digits : Text → Option ℕ
unfolding digits_from
digits [] = none
digits (c ∷ cs) = digits_from 0 (c ∷ cs)

abbrev in_int64 : Bool → ℕ → Option ℤ
in_int64 false n = if ltb n (2 ^ 63) then some (pos n) else none
in_int64 true zero = some (pos 0)
in_int64 true (suc n) = if ltb n (2 ^ 63) then some (negsuc n) else none

abbrev signed : Bool → Option ℕ → Option ℤ
signed neg none = none
signed neg (some n) = in_int64 neg n

-- `strconv.Atoi`: an optional sign, decimal digits, and the range of int64.
unfoldable pub atoi : Text → Option ℤ
unfolding digits
atoi [] = none
atoi (c ∷ cs) =
    if c == b'-'
    then signed true (digits cs)
    else if c == b'+'
    then signed false (digits cs)
    else signed false (digits (c ∷ cs))

-- `fmt.Errorf("bad range …")` and `fmt.Errorf("range … out of bounds …")`
pub data RangeError : Type 0 where
  bad_range : Text → RangeError
  out_of_bounds : Text → RangeError

-- The numbers from `l` on, `n` of them.
unfoldable pub range_from : ℕ → ℕ → List ℕ
range_from l zero = []
range_from l (suc n) = l ∷ range_from (l + 1) n

-- `if l > h || l < 0 || h >= NumLogicalShards`, and else the loop `for n := l; n <= h; n++`.
unfoldable pub bounded : Text → ℤ → ℤ → Result RangeError (List ℕ)
unfolding range_from
bounded part (pos l) (pos h) =
    if ltb h l || leb num_logical_shards h
    then err (out_of_bounds part)
    else ok (range_from l (h + 1 - l))
bounded part (pos l) (negsuc h) = err (out_of_bounds part)
bounded part (negsuc l) h = err (out_of_bounds part)

or_bad : Text → Option ℤ → Result RangeError ℤ
or_bad part none = err (bad_range part)
or_bad part (some n) = ok n

ends : Text → Option (Text × Text) → Text × Text
ends part none = (part, part)
ends part (some p) = p

unfoldable pub parse_part : Text → Result RangeError (List ℕ)
unfolding or_bad ends
parse_part part = do
  l ← or_bad part (atoi (ends part (cut part)).0)
  h ← or_bad part (atoi (ends part (cut part)).1)
  bounded part l h

unfoldable pub parse_parts : List Text → Result RangeError (List ℕ)
parse_parts [] = ok []
parse_parts (p ∷ ps) = parse_part (trim_space p) >>= λ ns. parse_parts ps >>= λ out. ok (ns ++ out)

-- `parseRanges`
unfoldable pub parse_ranges : Text → Result RangeError (List ℕ)
parse_ranges s = parse_parts (split b',' s)
