-- ===== src/Sharding/Ranges/Bounds.antt =====
-- Every number that `parseRanges` returns is a logical shard.
use yaxter.Common.{
  ℕ, zero, suc, ◌+◌, ◌-◌, ◌<◌, ◌≡◌, true, ◌||◌, ◌&&◌, List, [], ◌∷◌, ◌++◌, Result, ok, err, ◌>>=◌,
  if◌then◌else◌, arith, contains, contains-append, count, ltb, leb, Result-cases, is_ok, is_err,
  Bool-cases, inl, inr,
}
use yaxter.Common.Decimal.{Text}
use yaxter.Common.Int.{ℤ, pos, negsuc}
use yaxter.Sharding.Hash.{num_logical_shards}
use yaxter.Sharding.Ranges.{
  RangeError, range_from, bounded, parse_part, parse_parts, parse_ranges, split, trim_space, atoi,
  or_bad, ends, cut,
}

pub contains-range_from : (l n x : ℕ) → contains x (range_from l n) ≡ (leb l x && ltb x (l + n))
unfolding range_from
contains-range_from l zero x = ground arith
contains-range_from l (suc n) x = ground (arith, contains-range_from (l + 1) n x)

pub count-range_from :
    (l n x : ℕ) → count x (range_from l n) ≡ (if leb l x && ltb x (l + n) then 1 else 0)
unfolding range_from
count-range_from l zero x = ground arith
count-range_from l (suc n) x = ground (arith, count-range_from (l + 1) n x)

abbrev Below : Result RangeError (List ℕ) → Type 0
Below (ok ns) = (x : ℕ) → contains x ns ≡ true → x < num_logical_shards
Below (err e) = Unit

bounded-Below : (part : Text) (l h : ℤ) → Below (bounded part l h)
unfolding bounded
bounded-Below part (pos l) (pos h) = elim (Bool-cases (ltb h l || leb num_logical_shards h)) [
  | inl out ↦ rw out tt
  | inr fits ↦ rw fits (λ x m. ground (arith, contains-range_from l (h + 1 - l) x))
]
bounded-Below part (pos l) (negsuc h) = tt
bounded-Below part (negsuc l) h = tt

parse_part-Below : (part : Text) → Below (parse_part part)
unfolding parse_part
parse_part-Below part =
    let (lo, hi) = ends part (cut part) in
    elim (Result-cases (or_bad part (atoi lo))) [
      | is_err e q ↦ rw q tt
      | is_ok l q ↦ elim (Result-cases (or_bad part (atoi hi))) [
        | is_err e r ↦ rw (q, r) tt
        | is_ok h r ↦ rw (q, r) (bounded-Below part l h)
      ]
    ]

join-Below :
    (a b : Result RangeError (List ℕ))
    → Below a
    → Below b
    → Below (a >>= λ ns. b >>= λ out. ok (ns ++ out))
join-Below (err e) b h k = tt
join-Below (ok ns) (err e) h k = tt
join-Below (ok ns) (ok out) h k = λ x m. ground (arith, contains-append x ns out, h x, k x)

parse_parts-Below : (ps : List Text) → Below (parse_parts ps)
unfolding parse_parts
parse_parts-Below [] = λ x m. cc
parse_parts-Below (p ∷ ps) =
    join-Below (parse_part (trim_space p)) (parse_parts ps) (parse_part-Below (trim_space p))
      (parse_parts-Below ps)

-- Whatever text `parseRanges` accepts, each number that it returns is below 256, so the caller's
-- array index is in range.
pub parse_ranges-lt :
    (s : Text) {ns : List ℕ} (x : ℕ)
    → parse_ranges s ≡ ok ns
    → contains x ns ≡ true
    → x < num_logical_shards
unfolding parse_ranges
parse_ranges-lt s {ns} x h m = (rw h at (parse_parts-Below (split b',' s))) x m
