-- ===== src/Sharding/ShardMap.antt =====
-- shard.go, `Map`: the table from logical shards to indices of physical clusters, built from the
-- configuration and looked up by key.
pub mod Assign
pub mod Partition
pub mod Complete
use yaxter.Common.{
  ℕ, zero, suc, ◌+◌, Bool, Option, none, some, List, [], ◌∷◌, Result, ok, err, ◌>>=◌, ◌==◌,
  if◌then◌else◌, get_elem?,
}
use yaxter.Sharding.Hash.{num_logical_shards, logical_shard}
use yaxter.Common.Decimal.{Text}
use yaxter.Sharding.Ranges.{RangeError, parse_ranges}

-- config.go, `Physical`
pub record Physical : Type 0 where
  pub name : Text
  pub dsn : Text
  pub logicals : Text

-- The array `byLogical`; `none` stands for the -1 of an entry that is not assigned.
abbrev pub Table : Type 0
Table = ℕ → Option ℕ

pub record Map : Type 0 where
  pub physicals : List Physical
  pub by_logical : Table

pub data MapError : Type 0 where
  bad_ranges : Text → RangeError → MapError
  twice : ℕ → MapError
  unassigned : ℕ → MapError

-- `m.byLogical[l] = pi`
abbrev pub update : Table → ℕ → ℕ → Table
update t l pi j = if j == l then some pi else t j

-- The loop over the shards of one physical.
unfoldable pub assign : ℕ → List ℕ → Table → Result MapError Table
assign pi [] t = ok t
assign pi (l ∷ ls) t = elim (t l) [ none ↦ assign pi ls (update t l pi) | some _ ↦ err (twice l) ]

or_named : Text → Result RangeError (List ℕ) → Result MapError (List ℕ)
or_named name (ok ls) = ok ls
or_named name (err e) = err (bad_ranges name e)

-- The loop over the physicals, from index `pi` on.
unfoldable pub assign_all : ℕ → List Physical → Table → Result MapError Table
unfolding or_named
assign_all pi [] t = ok t
assign_all pi (p ∷ ps) t = do
  ls ← or_named p.name (parse_ranges p.logicals)
  t' ← assign pi ls t
  assign_all (pi + 1) ps t'

-- The last loop, over `n` shards from `l` on: the first that is not assigned.
unfoldable pub first_unassigned : ℕ → ℕ → Table → Option ℕ
first_unassigned zero l t = none
first_unassigned (suc n) l t = elim (t l) [ none ↦ some l | some _ ↦ first_unassigned n (l + 1) t ]

complete : List Physical → Table → Option ℕ → Result MapError Map
complete ps t none = ok (record { physicals = ps; by_logical = t })
complete ps t (some l) = err (unassigned l)

-- `NewMap`
unfoldable pub new_map : List Physical → Result MapError Map
unfolding complete
new_map ps = do
  t ← assign_all 0 ps (λ l. none)
  complete ps t (first_unassigned num_logical_shards 0 t)

bind_index : List Physical → Option ℕ → Option Physical
bind_index ps none = none
bind_index ps (some pi) = get_elem? ps pi

-- `PhysicalFor`; `none` is an index out of range, which panics.
unfoldable pub physical_for : Map → ℕ → Option Physical
unfolding bind_index
physical_for m key = bind_index m.physicals (m.by_logical (logical_shard key))
