-- ===== src/Sharding/Tests.antt =====
-- The theorems on the shard map at a concrete configuration.
use yaxter.Common.{
  ℕ, ◌<◌, ◌≡◌, ◌≢◌, refl, true, some, none, List, [], ◌∷◌, ◌++◌, ok, err, arith, count, filter, any,
  All, if◌then◌else◌, ◌==◌, ltb, ◌%◌,
}
use yaxter.Common.Decimal.{Text}
use yaxter.Sharding.Hash.{num_logical_shards, logical_shard}
use yaxter.Sharding.Ranges.{
  parse_ranges, split, trim_space, cut, atoi, bounded, parse_part, parse_parts, out_of_bounds,
  range_from,
}
use yaxter.Sharding.Ranges.Bounds.{parse_ranges-lt, count-range_from}
use yaxter.Sharding.Ranges.Print.{print_ranges, expand, parse_ranges-print_ranges}
use yaxter.Sharding.ShardMap.{Physical, Map, new_map, assign, assign_all, twice, physical_for}
use yaxter.Sharding.ShardMap.Partition.{owns, new_map-partition, new_map-physical_for}
use yaxter.Sharding.ShardMap.Complete.{listings, new_map-total}
use yaxter.Sharding.Groups.{calls, Callback, for_each_shard, panic}
use yaxter.Sharding.Groups.Calls.{slots, calls-exact}
use yaxter.Sharding.Groups.Safe.{for_each_shard-safe}

-- " 5,0-2"
abbrev mixed : Text
mixed = b' ' ∷ b'5' ∷ b',' ∷ b'0' ∷ b'-' ∷ b'2' ∷ []

mixed_parses : parse_ranges mixed ≡ ok (5 ∷ 0 ∷ 1 ∷ 2 ∷ [])
unfolding parse_ranges split parse_parts parse_part trim_space cut atoi bounded
mixed_parses = refl

-- "9-3" and "256"
backwards : parse_ranges (b'9' ∷ b'-' ∷ b'3' ∷ []) ≡ err (out_of_bounds (b'9' ∷ b'-' ∷ b'3' ∷ []))
unfolding parse_ranges split parse_parts parse_part trim_space cut atoi bounded
backwards = refl

parse_ranges-lt_example : 5 < num_logical_shards
parse_ranges-lt_example = parse_ranges-lt mixed 5 mixed_parses refl

parse_ranges-print_ranges_example :
    parse_ranges (print_ranges (0, 63) ((128, 191) ∷ [])) ≡ ok (expand (0, 63) ((128, 191) ∷ []))
parse_ranges-print_ranges_example =
    parse_ranges-print_ranges (0, 63) ((128, 191) ∷ []) (omega arith) (omega arith)

abbrev physical : ℕ → Text → Physical
physical n ls = record { name = n ∷ []; dsn = []; logicals = ls }

-- "128-255" and "0-127"
abbrev demo : List Physical
demo =
    physical b'a' (b'1' ∷ b'2' ∷ b'8' ∷ b'-' ∷ b'2' ∷ b'5' ∷ b'5' ∷ [])
    ∷ physical b'b' (b'0' ∷ b'-' ∷ b'1' ∷ b'2' ∷ b'7' ∷ [])
    ∷ []

-- FNV-1a of the eight zero bytes ends in 0xc5.
hash_zero : logical_shard 0 ≡ 197
unfolding logical_shard
hash_zero = refl

high_parses :
    parse_ranges (b'1' ∷ b'2' ∷ b'8' ∷ b'-' ∷ b'2' ∷ b'5' ∷ b'5' ∷ []) ≡ ok (range_from 128 128)
unfolding parse_ranges split parse_parts parse_part trim_space cut atoi bounded
high_parses = refl

low_parses : parse_ranges (b'0' ∷ b'-' ∷ b'1' ∷ b'2' ∷ b'7' ∷ []) ≡ ok (range_from 0 128)
unfolding parse_ranges split parse_parts parse_part trim_space cut atoi bounded
low_parses = refl

listings-demo : (l : ℕ) → listings demo l ≡ (if ltb l 256 then 1 else 0)
listings-demo l =
    rw (high_parses, low_parses)
      (ground (arith, count-range_from 128 128 l, count-range_from 0 128 l))

demo_total : (m : Map) × (new_map demo ≡ ok m)
demo_total =
    new_map-total demo (rw high_parses refl, (rw low_parses refl, tt))
      (λ l. ground (arith, listings-demo l)) (λ l h. ground (arith, listings-demo l))

demo_map : Map
unfolding demo_total
demo_map = demo_total.0

demo_map-ok : new_map demo ≡ ok demo_map
unfolding demo_map
demo_map-ok = demo_total.1

new_map-total_example : (m : Map) × (new_map demo ≡ ok m)
new_map-total_example =
    new_map-total demo (rw high_parses refl, (rw low_parses refl, tt))
      (λ l. ground (arith, listings-demo l)) (λ l h. ground (arith, listings-demo l))

new_map-partition_example :
    (demo_map.physicals ≡ demo)
    × ((pi : ℕ) × (demo_map.by_logical 130 ≡ some pi)
        × (owns demo pi 130 ≡ true)
        × ((pj : ℕ) → owns demo pj 130 ≡ true → pj ≡ pi))
new_map-partition_example = new_map-partition demo demo_map 130 demo_map-ok (omega arith)

new_map-physical_for_example : physical_for demo_map 42 ≢ none
new_map-physical_for_example = new_map-physical_for demo demo_map 42 demo_map-ok

-- A logical shard that two physicals list is refused.
demo_twice : new_map (physical b'a' (b'7' ∷ []) ∷ physical b'b' (b'7' ∷ []) ∷ []) ≡ err (twice 7)
unfolding new_map assign_all assign parse_ranges split parse_parts parse_part trim_space cut atoi
    bounded
demo_twice = refl

abbrev even : ℕ → ℕ
even k = k % 2

calls-exact_example :
    ((pi : ℕ)
      → count pi (slots (calls even (4 ∷ 7 ∷ 2 ∷ [])))
        ≡ (if any (λ k. even k == pi) (4 ∷ 7 ∷ 2 ∷ []) then 1 else 0))
    × All
        (λ (pi, ks). ks ≡ filter (λ k. even k == pi) (4 ∷ 7 ∷ 2 ∷ []))
        (calls even (4 ∷ 7 ∷ 2 ∷ []))
calls-exact_example = calls-exact even (4 ∷ 7 ∷ 2 ∷ [])

calls-evens : calls even (4 ∷ 7 ∷ 2 ∷ []) ≡ (0, 4 ∷ 2 ∷ []) ∷ (1, 7 ∷ []) ∷ []
unfolding calls
calls-evens = refl

-- A callback that records the keys that it is given.
abbrev record_keys : Callback ℕ (List ℕ)
record_keys p ks seen = (none, seen ++ ks)

for_each_shard-safe_example : (for_each_shard demo_map (1 ∷ 42 ∷ []) record_keys []).0 ≢ panic
for_each_shard-safe_example =
    for_each_shard-safe demo demo_map (1 ∷ 42 ∷ []) record_keys [] demo_map-ok
