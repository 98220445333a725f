-- ===== src/Sharding/ShardMap/Complete.antt =====
-- `NewMap` refuses no configuration that lists each logical shard once.
use yaxter.Common.{
  ℕ, zero, suc, ◌+◌, ◌≤◌, ◌<◌, ◌≡◌, refl, Bool, true, false, Option, none, some, List, [], ◌∷◌,
  Result, ok, err, arith, count, Result-cases, is_ok, is_err,
}
use yaxter.Sharding.Hash.{num_logical_shards}
use yaxter.Sharding.Ranges.{RangeError, parse_ranges}
use yaxter.Sharding.ShardMap.{
  Physical, Table, Map, update, assign, assign_all, first_unassigned, new_map,
}

-- How often the ranges of a configuration list a shard, where all of them parse.
abbrev times : ℕ → Result RangeError (List ℕ) → ℕ
times l (ok ls) = count l ls
times l (err e) = 0

abbrev pub listings : List Physical → ℕ → ℕ
listings [] l = 0
listings (p ∷ ps) l = times l (parse_ranges p.logicals) + listings ps l

abbrev parses : Result RangeError (List ℕ) → Bool
parses (ok ls) = true
parses (err e) = false

abbrev pub AllParse : List Physical → Type 0
AllParse [] = Unit
AllParse (p ∷ ps) = (parses (parse_ranges p.logicals) ≡ true) × AllParse ps

-- 1 for a shard that is assigned.
abbrev used : Option ℕ → ℕ
used none = 0
used (some v) = 1

abbrev Assigns : ℕ → List ℕ → Table → Type 0
Assigns pi ls t =
    (t' : Table) × (assign pi ls t ≡ ok t') × ((l : ℕ) → used (t' l) ≡ used (t l) + count l ls)

assign-total :
    (pi : ℕ) (ls : List ℕ) (t : Table) → ((l : ℕ) → used (t l) + count l ls ≤ 1) → Assigns pi ls t
unfolding assign
assign-total pi [] t h = (t, refl, λ l. omega arith)
assign-total pi (l ∷ ls) t h =
    let free : t l ≡ none = ground (arith, h l) in
    let (t', done, load) = assign-total pi ls (update t l pi) (λ j. ground (arith, h j, free)) in
    (t', rw (free, assign) done, λ j. ground (arith, load j, free))

abbrev AssignsAll : ℕ → List Physical → Table → Type 0
AssignsAll pi ps t =
    (t' : Table) × (assign_all pi ps t ≡ ok t')
    × ((l : ℕ) → used (t' l) ≡ used (t l) + listings ps l)

assign_all-total :
    (pi : ℕ) (ps : List Physical) (t : Table)
    → AllParse ps
    → ((l : ℕ) → used (t l) + listings ps l ≤ 1)
    → AssignsAll pi ps t
unfolding assign_all
assign_all-total pi [] t g h = (t, refl, λ l. omega arith)
assign_all-total pi (p ∷ ps) t g h = elim (Result-cases (parse_ranges p.logicals)) [
  | is_err e q ↦ absurd (ground arith)
  | is_ok ls q ↦
      let (t₁, done, load) = assign-total pi ls t (λ l. ground (arith, h l)) in
      let (t', more, load') =
        assign_all-total (pi + 1) ps t₁ g.1 (λ l. ground (arith, h l, load l)) in
      (t', ground arith, λ l. ground (arith, load l, load' l))
]

first_unassigned-total :
    (n from : ℕ) (t : Table)
    → ((l : ℕ) → l < from + n → used (t l) ≡ 1)
    → first_unassigned n from t ≡ none
unfolding first_unassigned
first_unassigned-total zero from t h = refl
first_unassigned-total (suc n) from t h =
    ground (arith, h from, first_unassigned-total n (from + 1) t (λ l b. h l (omega arith)))

-- If all range texts parse, and they list each of the 256 logical shards exactly once in all and no
-- shard more than once, then `NewMap` returns a map.
pub new_map-total :
    (ps : List Physical)
    → AllParse ps
    → ((l : ℕ) → listings ps l ≤ 1)
    → ((l : ℕ) → l < num_logical_shards → listings ps l ≡ 1)
    → (m : Map) × (new_map ps ≡ ok m)
unfolding new_map
new_map-total ps g once all =
    let (t, pass, load) = assign_all-total 0 ps (λ l. none) g (λ l. omega (arith, once l)) in
    let full =
      first_unassigned-total num_logical_shards 0 t (λ l b. omega (arith, all l b, load l)) in
    (record { physicals = ps; by_logical = t }, ground arith)
