-- ===== src/Leases/Lowest.antt =====
-- Without a race `AcquireLease` takes the lowest free node id.
use yaxter.Common.{
  ℕ, suc, ◌≤◌, ◌<◌, ◌≡◌, refl, ap, true, false, Option, none, some, [], ◌∷◌, arith, ok,
}
use yaxter.Snowflake.{max_node}
use yaxter.Leases.{
  Table, is_leased, first_free, upsert, claim_id, claim, run, Attempt, attempts, acquire_lease,
}
use yaxter.Leases.Claim.{IsLowest, first_free-IsLowest}

-- A node that is not leased has no row, or an expired one.
free-upsert :
    (owner now ttl id : ℕ) (t : Table)
    → is_leased now id t ≡ false
    → (upsert owner now ttl id t).0 ≡ true
unfolding upsert
free-upsert owner now ttl id [] h = refl
free-upsert owner now ttl id (r ∷ t) h = ground (arith, free-upsert owner now ttl id t)

lowest_unique :
    (now : ℕ) (t : Table) (id : ℕ) (o : Option ℕ)
    → IsLowest now t 0 1024 o
    → id ≤ max_node
    → is_leased now id t ≡ false
    → ((j : ℕ) → j < id → is_leased now j t ≡ true)
    → o ≡ some id
lowest_unique now t id none low fits free taken = absurd (ground (arith, low id))
lowest_unique now t id (some c) (lo, hi, unleased, below) fits free taken =
    ap some (ground (arith, below id, taken c))

claim-lowest :
    (owner now ttl : ℕ) (t : Table) (id : ℕ)
    → id ≤ max_node
    → is_leased now id t ≡ false
    → ((j : ℕ) → j < id → is_leased now j t ≡ true)
    → (claim owner now ttl t t).0 ≡ some id
unfolding claim claim_id
claim-lowest owner now ttl t id fits free taken =
    let chosen =
      lowest_unique now t id (first_free now t 1024 0) (first_free-IsLowest now t 1024 0) fits free
        taken in
    rw (chosen, claim_id) (rw (free-upsert owner now ttl id t free) refl)

attempts_won :
    (owner ttl : ℕ) (env : ℕ → Attempt) (k i : ℕ) (t : Table) {id : ℕ}
    → (env i).fails ≡ false
    → (claim owner (env i).now ttl (env i).snapshot (run (env i).before t)).0 ≡ some id
    → (attempts owner ttl env (suc k) i t).0
      ≡ ok (record { node_id = id; owner = owner; ttl = ttl })
unfolding attempts
attempts_won owner ttl env k i t answers q = rw (answers, q, attempts) refl

-- Without a race, that is if nothing comes before the first attempt, its claim reads the table as
-- it is and the database answers: `AcquireLease` returns the lowest node id that has no unexpired
-- row, and fails with `none_claimable` only if all 1024 have one at that time.
pub acquire_lease-lowest :
    (owner ttl : ℕ) (env : ℕ → Attempt) (t : Table) (id : ℕ)
    → (env 0).before ≡ []
    → (env 0).snapshot ≡ t
    → (env 0).fails ≡ false
    → id ≤ max_node
    → is_leased (env 0).now id t ≡ false
    → ((j : ℕ) → j < id → is_leased (env 0).now j t ≡ true)
    → (acquire_lease false owner ttl env t).0
      ≡ ok (record { node_id = id; owner = owner; ttl = ttl })
unfolding acquire_lease run
acquire_lease-lowest owner ttl env t id before snap fails fits free taken =
    let first : run (env 0).before t ≡ t = rw (before, run) refl in
    attempts_won owner ttl env 4 0 t fails
      (rw (first, snap) (claim-lowest owner (env 0).now ttl t id fits free taken))
