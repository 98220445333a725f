-- ===== src/Sharding/ShardMap/Assign.antt =====
-- What the loops of `NewMap` leave in the table.
use yaxter.Common.{ℕ, ◌≡◌, true, none, some, List, [], ◌∷◌, ok, if◌then◌else◌, arith, contains}
use yaxter.Sharding.ShardMap.{Table, update, assign}

-- One physical: its shards were free and now belong to it, and no other entry has changed.
pub assign_lem :
    (pi : ℕ) (ls : List ℕ) (t t' : Table) (j : ℕ)
    → assign pi ls t ≡ ok t'
    → t' j ≡ (if contains j ls then some pi else t j)
unfolding assign
assign_lem pi [] t t' j h = ground arith
assign_lem pi (l ∷ ls) t t' j h = ground (arith, assign_lem pi ls (update t l pi) t' j)

-- The shards of one physical that was accepted were free, and none is listed twice.
pub assign-free :
    (pi : ℕ) (ls : List ℕ) (t t' : Table) (j : ℕ)
    → assign pi ls t ≡ ok t'
    → contains j ls ≡ true
    → t j ≡ none
unfolding assign
assign-free pi [] t t' j h m = cc
assign-free pi (l ∷ ls) t t' j h m = ground (arith, assign-free pi ls (update t l pi) t' j)
