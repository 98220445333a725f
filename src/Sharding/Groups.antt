-- ===== src/Sharding/Groups.antt =====
-- router.go, `Map.ForEachShard`: the keys are grouped by physical cluster, and the function is
-- called once for each cluster. A slot is an entry of `byLogical` plus one: 0 stands for the -1 of
-- a shard that is not assigned.
pub mod Calls
pub mod Safe
use yaxter.Common.{
  ℕ, zero, suc, ◌+◌, Bool, true, false, Option, none, some, List, [], ◌∷◌, ◌++◌, map, ◌==◌,
  if◌then◌else◌, get_elem?,
}
use yaxter.Common.Dict.{Dict, lookup, lookup_or, insert}
use yaxter.Sharding.Hash.{logical_shard}
use yaxter.Sharding.ShardMap.{Physical, Map}

slot_of : Option ℕ → ℕ
slot_of none = 0
slot_of (some pi) = suc pi

-- `m.byLogical[LogicalShard(k)]`
unfoldable pub slot : Map → ℕ → ℕ
unfolding slot_of
slot m key = slot_of (m.by_logical (logical_shard key))

pub record Groups : Type 0 where
  pub groups : Dict (List ℕ)
  pub order : List ℕ

-- `if _, ok := groups[pi]; !ok { order = append(order, pi) }`
abbrev enter : ℕ → Option (List ℕ) → List ℕ → List ℕ
enter pi none order = order ++ pi ∷ []
enter pi (some ks) order = order

-- One round of the first loop.
abbrev pub add_key : ℕ → ℕ → Groups → Groups
add_key pi k g = record {
  groups = insert pi (lookup_or [] pi g.groups ++ k ∷ []) g.groups;
  order = enter pi (lookup pi g.groups) g.order;
}

unfoldable pub group_from : (ℕ → ℕ) → List ℕ → Groups → Groups
group_from owner [] g = g
group_from owner (k ∷ ks) g = group_from owner ks (add_key (owner k) k g)

-- The groups in the order in which the second loop passes them on.
unfoldable pub calls : (ℕ → ℕ) → List ℕ → List (ℕ × List ℕ)
unfolding group_from
calls owner keys =
    let g = group_from owner keys (record { groups = []; order = [] }) in
    map (λ pi. (pi, lookup_or [] pi g.groups)) g.order

-- How the loop ends: it went through, `fn` failed, or `m.physicals[pi]` was out of range.
pub data Outcome (E : Type 0) : Type 0 where
  done : Outcome E
  failed : E → Outcome E
  panic : Outcome E

abbrev physical_at : List Physical → ℕ → Option Physical
physical_at ps zero = none
physical_at ps (suc pi) = get_elem? ps pi

-- The callback, with the state that it changes.
abbrev pub Callback : Type 0 → Type 0 → Type 0
Callback E S = Physical → List ℕ → S → Option E × S

-- `if err := fn(…); err != nil { return err }`
after_call : {E S : Type 0} → Option E → Outcome E × S → S → Outcome E × S
after_call none rest s = rest
after_call (some e) rest s = (failed e, s)

run_calls : {E S : Type 0} → List Physical → Callback E S → List (ℕ × List ℕ) → S → Outcome E × S
unfolding after_call
run_calls ps fn [] s = (done, s)
run_calls ps fn ((pi, ks) ∷ rest) s = elim (physical_at ps pi) [
  | none ↦ (panic, s)
  | some p ↦ let (e, s') = fn p ks s in let more = run_calls ps fn rest s' in after_call e more s'
]

-- `ForEachShard`
unfoldable pub for_each_shard : {E S : Type 0} → Map → List ℕ → Callback E S → S → Outcome E × S
unfolding run_calls calls
for_each_shard m keys fn s = run_calls m.physicals fn (calls (slot m) keys) s
