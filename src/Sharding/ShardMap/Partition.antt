-- ===== src/Sharding/ShardMap/Partition.antt =====
-- `NewMap` accepts exactly the configurations that partition the logical shards.
use yaxter.Common.{
  ℕ, zero, suc, ◌+◌, ◌≤◌, ◌<◌, ◌≡◌, ◌≢◌, Bool, true, false, none, some, List, [], ◌∷◌, Result, ok,
  err, arith, contains, get_elem?, Result-cases, is_ok, is_err, ◌⊎◌, inl, inr, Option-cases,
  Bool-cases,
}
use Prim.Native.Nat.add
use yaxter.Sharding.Hash.{num_logical_shards, logical_shard, logical_shard-lt}
use yaxter.Sharding.Ranges.{RangeError, parse_ranges}
use yaxter.Sharding.ShardMap.{
  Physical, Table, Map, assign, assign_all, first_unassigned, new_map, physical_for,
}
use yaxter.Sharding.ShardMap.Assign.{assign_lem, assign-free}

-- The shard stands in the ranges of the physical at that index.
abbrev in_ranges : ℕ → Result RangeError (List ℕ) → Bool
in_ranges l (ok ls) = contains l ls
in_ranges l (err e) = false

abbrev pub owns : List Physical → ℕ → ℕ → Bool
owns [] k l = false
owns (p ∷ ps) zero l = in_ranges l (parse_ranges p.logicals)
owns (p ∷ ps) (suc k) l = owns ps k l

-- One round of the pass, taken apart.
abbrev Round : ℕ → Physical → List Physical → Table → Table → Type 0
Round pi p ps t t' =
    (ls : List ℕ) × (t₁ : Table) × (parse_ranges p.logicals ≡ ok ls)
    × (assign pi ls t ≡ ok t₁)
    × (assign_all (pi + 1) ps t₁ ≡ ok t')

assign_all-cons :
    (pi : ℕ) (p : Physical) (ps : List Physical) (t t' : Table)
    → assign_all pi (p ∷ ps) t ≡ ok t'
    → Round pi p ps t t'
unfolding assign_all
assign_all-cons pi p ps t t' h = elim (Result-cases (parse_ranges p.logicals)) [
  | is_err e q ↦ absurd (ground arith)
  | is_ok ls q ↦ elim (Result-cases (assign pi ls t)) [
    | is_err e r ↦ absurd (ground arith)
    | is_ok t₁ r ↦ (ls, t₁, q, r, ground arith)
  ]
]

-- A shard that is assigned stays as it is.
assign_all-keeps :
    (pi : ℕ) (ps : List Physical) (t t' : Table) (l v : ℕ)
    → assign_all pi ps t ≡ ok t'
    → t l ≡ some v
    → t' l ≡ some v
assign_all-keeps pi [] t t' l v h e = unfold assign_all in ground arith
assign_all-keeps pi (p ∷ ps) t t' l v h e =
    let (ls, t₁, q, r, more) = assign_all-cons pi p ps t t' h in
    let kept : t₁ l ≡ some v =
      ground (arith, assign_lem pi ls t t₁ l r, assign-free pi ls t t₁ l r) in
    assign_all-keeps (pi + 1) ps t₁ t' l v more kept

-- A pass over the physicals gives each shard that is listed to its physical, and it was free.
assign_all-owns :
    (pi : ℕ) (ps : List Physical) (t t' : Table) (k l : ℕ)
    → assign_all pi ps t ≡ ok t'
    → owns ps k l ≡ true
    → (t' l ≡ some (pi + k)) × (t l ≡ none)
assign_all-owns pi [] t t' k l h o = cc
assign_all-owns pi (p ∷ ps) t t' zero l h o =
    let (ls, t₁, q, r, more) = assign_all-cons pi p ps t t' h in
    let listed : contains l ls ≡ true = ground arith in
    let set : t₁ l ≡ some (pi + 0) = ground (arith, assign_lem pi ls t t₁ l r) in
    (assign_all-keeps (pi + 1) ps t₁ t' l (pi + 0) more set, assign-free pi ls t t₁ l r listed)
assign_all-owns pi (p ∷ ps) t t' (suc k) l h o =
    let (ls, t₁, q, r, more) = assign_all-cons pi p ps t t' h in
    let (set, free) = assign_all-owns (pi + 1) ps t₁ t' k l more o in
    (ground arith, ground (arith, assign_lem pi ls t t₁ l r))

-- An entry is as it was, or names a physical that lists the shard.
assign_all-source :
    (pi : ℕ) (ps : List Physical) (t t' : Table) (l v : ℕ)
    → assign_all pi ps t ≡ ok t'
    → t' l ≡ some v
    → (t l ≡ some v) ⊎ ((k : ℕ) × (v ≡ pi + k) × (owns ps k l ≡ true))
assign_all-source pi [] t t' l v h e = inl (unfold assign_all in ground arith)
assign_all-source pi (p ∷ ps) t t' l v h e =
    let (ls, t₁, q, r, more) = assign_all-cons pi p ps t t' h in
    elim (assign_all-source (pi + 1) ps t₁ t' l v more e) [
      | inr (k, at, o) ↦ inr (suc k, omega arith, o)
      | inl old ↦ elim (Bool-cases (contains l ls)) [
        | inl listed ↦ inr (0, ground (arith, assign_lem pi ls t t₁ l r), ground arith)
        | inr unlisted ↦ inl (ground (arith, assign_lem pi ls t t₁ l r))
      ]
    ]

first_unassigned-none :
    (n from : ℕ) (t : Table) (l : ℕ)
    → first_unassigned n from t ≡ none
    → from ≤ l
    → l < from + n
    → t l ≢ none
unfolding first_unassigned
first_unassigned-none zero from t l h a b = absurd (omega arith)
first_unassigned-none (suc n) from t l h a b =
    ground (arith, first_unassigned-none n (from + 1) t l)

-- `NewMap` taken apart: the pass went through, and no shard was left over.
new_map-ok :
    (ps : List Physical) (m : Map)
    → new_map ps ≡ ok m
    → (m.physicals ≡ ps)
      × (assign_all 0 ps (λ l. none) ≡ ok m.by_logical)
      × (first_unassigned num_logical_shards 0 m.by_logical ≡ none)
unfolding new_map
new_map-ok ps m h = elim (Result-cases (assign_all 0 ps (λ l. none))) [
  | is_err e r ↦ absurd (ground arith)
  | is_ok t r ↦ elim (Option-cases (first_unassigned num_logical_shards 0 t)) [
    | inr (l, q) ↦ absurd (ground arith)
    | inl q ↦ (ground arith, ground arith, ground arith)
  ]
]

-- A map that `NewMap` returns partitions the logical shards: each of the 256 has an entry, which
-- names a physical of the configuration whose ranges list the shard, and no other physical lists it.
pub new_map-partition :
    (ps : List Physical) (m : Map) (l : ℕ)
    → new_map ps ≡ ok m
    → l < num_logical_shards
    → (m.physicals ≡ ps)
      × ((pi : ℕ) × (m.by_logical l ≡ some pi)
          × (owns ps pi l ≡ true)
          × ((pj : ℕ) → owns ps pj l ≡ true → pj ≡ pi))
new_map-partition ps m l h lt =
    let (same, pass, all) = new_map-ok ps m h in
    elim (Option-cases (m.by_logical l)) [
      | inl free ↦
          absurd
            (first_unassigned-none num_logical_shards 0 m.by_logical l all (omega arith) lt free)
      | inr (v, e) ↦ elim (assign_all-source 0 ps (λ l. none) m.by_logical l v pass e) [
        | inl before ↦ cc
        | inr (k, at, o) ↦ (
          same,
          (
            v,
            e,
            rw (at, add.zero) o,
            λ pj oj.
                let set = (assign_all-owns 0 ps (λ l. none) m.by_logical pj l pass oj).0 in
                ground arith,
          ),
        )
      ]
    ]

get_elem?-owns : (ps : List Physical) (k l : ℕ) → owns ps k l ≡ true → get_elem? ps k ≢ none
get_elem?-owns [] k l h = cc
get_elem?-owns (p ∷ ps) zero l h = λ e. cc
get_elem?-owns (p ∷ ps) (suc k) l h = get_elem?-owns ps k l h

-- A lookup in a map that `NewMap` returned never indexes out of range: every key has a physical.
pub new_map-physical_for :
    (ps : List Physical) (m : Map) (key : ℕ) → new_map ps ≡ ok m → physical_for m key ≢ none
unfolding physical_for
new_map-physical_for ps m key h =
    let (same, (pi, e, o, _)) =
      new_map-partition ps m (logical_shard key) h (logical_shard-lt key) in
    ground (arith, get_elem?-owns ps pi (logical_shard key) o)
