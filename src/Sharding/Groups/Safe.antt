-- ===== src/Sharding/Groups/Safe.antt =====
-- Over a map that `NewMap` returned, `ForEachShard` never indexes out of range, and the calls go
-- on until one fails.
use yaxter.Common.{
  ℕ, ◌≡◌, ◌≢◌, Option, none, some, List, [], ◌∷◌, ◌++◌, map, arith, All, Option-cases, inl, inr, ok,
}
use yaxter.Common.Dict.{lookup, lookup_or}
use yaxter.Sharding.Hash.{logical_shard}
use yaxter.Sharding.ShardMap.{Physical, Map, new_map, physical_for}
use yaxter.Sharding.ShardMap.Partition.{new_map-physical_for}
use yaxter.Sharding.Groups.{
  Groups, add_key, group_from, slot, slot_of, Outcome, panic, Callback, physical_at, run_calls,
  after_call, for_each_shard,
}

abbrev Valid : List Physical → ℕ → Type 0
Valid ps pi = physical_at ps pi ≢ none

All-append_one : (P : ℕ → Type 0) (xs : List ℕ) (x : ℕ) → All P xs → P x → All P (xs ++ x ∷ [])
All-append_one P [] x h p = (p, tt)
All-append_one P (y ∷ ys) x h p = (h.0, All-append_one P ys x h.1 p)

enter-All :
    (P : ℕ → Type 0) (o k : ℕ) (g : Groups) → P o → All P g.order → All P (add_key o k g).order
enter-All P o k g p h = elim (Option-cases (lookup o g.groups)) [
  | inl fresh ↦ rw fresh (All-append_one P g.order o h p)
  | inr (ks, old) ↦ rw old h
]

group_from-All :
    (P : ℕ → Type 0) (owner : ℕ → ℕ) (ks : List ℕ) (g : Groups)
    → ((k : ℕ) → P (owner k))
    → All P g.order
    → All P (group_from owner ks g).order
unfolding group_from
group_from-All P owner [] g p h = h
group_from-All P owner (k ∷ ks) g p h =
    group_from-All P owner ks (add_key (owner k) k g) p (enter-All P (owner k) k g (p k) h)

after_call-safe :
    {E S : Type 0} (e : Option E) (rest : Outcome E × S) (s : S)
    → rest.0 ≢ panic
    → (after_call e rest s).0 ≢ panic
unfolding after_call
after_call-safe none rest s h = h
after_call-safe (some e) rest s h = λ q. cc

slot-Valid : (m : Map) (key : ℕ) → physical_for m key ≢ none → Valid m.physicals (slot m key)
unfolding slot slot_of physical_for
slot-Valid m key h = elim (Option-cases (m.by_logical (logical_shard key))) [
  | inl free ↦ absurd (h (ground arith))
  | inr (pi, e) ↦ λ q. h (ground arith)
]

run_calls-safe :
    {E S : Type 0} (ps : List Physical) (fn : Callback E S) (order : List ℕ) (f : ℕ → List ℕ)
    (s : S)
    → All (Valid ps) order
    → (run_calls ps fn (map (λ pi. (pi, f pi)) order) s).0 ≢ panic
unfolding run_calls
run_calls-safe ps fn [] f s h = λ e. cc
run_calls-safe ps fn (pi ∷ order) f s h = elim (Option-cases (physical_at ps pi)) [
  | inl gone ↦ absurd (h.0 gone)
  | inr (p, here) ↦
      let (e, s') = fn p (f pi) s in
      let rest = run_calls-safe ps fn order f s' h.1 in
      rw (here, run_calls)
        (after_call-safe e (run_calls ps fn (map (λ pi. (pi, f pi)) order) s') s' rest)
]

-- Over a map that `NewMap` returned, `ForEachShard` never indexes past the physicals, whatever the
-- keys, the callback and its state are: it goes through or stops at the callback's error.
pub for_each_shard-safe :
    {E S : Type 0} (ps : List Physical) (m : Map) (keys : List ℕ) (fn : Callback E S) (s : S)
    → new_map ps ≡ ok m
    → (for_each_shard m keys fn s).0 ≢ panic
unfolding for_each_shard
for_each_shard-safe ps m keys fn s h =
    let g : Groups = group_from (slot m) keys (record { groups = []; order = [] }) in
    run_calls-safe m.physicals fn g.order (λ pi. lookup_or [] pi g.groups) s
      (group_from-All (Valid m.physicals) (slot m) keys (record { groups = []; order = [] })
        (λ k. slot-Valid m k (new_map-physical_for ps m k h)) tt)
