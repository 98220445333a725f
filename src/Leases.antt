-- ===== src/Leases.antt =====
-- pkg/snowflake/lease.go: node ids leased in the table `node_ids`. Every statement is one step on
-- the table, and carries the `now()` of its transaction. Times are milliseconds.
pub mod Claim
pub mod Held
pub mod Acquire
pub mod Lowest
pub mod Ids
pub mod TakenOver
mod Tests
use yaxter.Common.{
  ℕ, zero, suc, ◌+◌, Bool, true, false, not, ◌&&◌, Option, none, some, List, [], ◌∷◌, Result, ok,
  err, ltb, leb, ◌==◌, if◌then◌else◌, any,
}
use yaxter.Snowflake.{max_node}

-- A row of `node_ids`.
pub record Row : Type 0 where
  pub node_id : ℕ
  pub leased_by : ℕ
  pub heartbeat_at : ℕ
  pub expires_at : ℕ

abbrev pub Table : Type 0
Table = List Row

-- `Lease`; owners are texts, numbered.
pub record Lease : Type 0 where
  pub node_id : ℕ
  pub owner : ℕ
  pub ttl : ℕ

abbrev pub fresh : ℕ → ℕ → ℕ → ℕ → Row
fresh owner now ttl id = record {
  node_id = id;
  leased_by = owner;
  heartbeat_at = now;
  expires_at = now + ttl;
}

-- `EXISTS (SELECT 1 FROM node_ids t WHERE t.node_id = n.id AND t.expires_at > now())`
abbrev pub is_leased : ℕ → ℕ → Table → Bool
is_leased now id = any (λ r. r.node_id == id && ltb now r.expires_at)

-- The lowest of the `k` ids from `id` on that is not leased.
unfoldable pub first_free : ℕ → Table → ℕ → ℕ → Option ℕ
first_free now t zero id = none
first_free now t (suc k) id =
    let rest = first_free now t k (suc id) in if is_leased now id t then rest else some id

-- `INSERT … ON CONFLICT (node_id) DO UPDATE … WHERE node_ids.expires_at <= now()`: the table after
-- it, and whether it returned a row.
unfoldable pub upsert : ℕ → ℕ → ℕ → ℕ → Table → Bool × Table
upsert owner now ttl id [] = (true, fresh owner now ttl id ∷ [])
upsert owner now ttl id (r ∷ t) =
    let (done, rest) = upsert owner now ttl id t in
    if r.node_id == id
    then if leb r.expires_at now then (true, fresh owner now ttl id ∷ t) else (false, r ∷ t)
    else (done, r ∷ rest)

unfoldable pub claim_id : ℕ → ℕ → ℕ → Option ℕ → Table → Option ℕ × Table
claim_id owner now ttl none t = (none, t)
claim_id owner now ttl (some id) t =
    let (done, t') = upsert owner now ttl id t in (if done then some id else none, t')

-- `claimSQL`. Its SELECT reads the snapshot of the statement, which other transactions may have
-- overtaken, and its INSERT meets the rows as they are.
unfoldable pub claim : ℕ → ℕ → ℕ → Table → Table → Option ℕ × Table
unfolding claim_id
claim owner now ttl snapshot t = claim_id owner now ttl (first_free now snapshot (suc max_node) 0) t

-- `UPDATE … WHERE node_id = $1 AND leased_by = $2`
unfoldable pub beat : Lease → ℕ → Table → Table
beat l now [] = []
beat l now (r ∷ t) =
    (if r.node_id == l.node_id && r.leased_by == l.owner
      then record r { heartbeat_at = now; expires_at = now + l.ttl }
      else r)
    ∷ beat l now t

-- `tag.RowsAffected() != 0` of that update.
abbrev pub beats : Lease → Table → Bool
beats l = any (λ r. r.node_id == l.node_id && r.leased_by == l.owner)

-- `DELETE … WHERE node_id = $1 AND leased_by = $2`
unfoldable pub delete : ℕ → ℕ → Table → Table
delete id owner [] = []
delete id owner (r ∷ t) =
    if r.node_id == id && r.leased_by == owner then delete id owner t else r ∷ delete id owner t

-- Errors of the calls: of the database, after five attempts, and of a lease that is lost.
pub data Error : Type 0 where
  unavailable none_claimable not_owned : Error

-- `Heartbeat`
unfoldable pub heartbeat : Bool → Lease → ℕ → Table → Result Error (Unit {0}) × Table
heartbeat fails l now t =
    if fails
    then (err unavailable, t)
    else (if beats l t then ok tt else err not_owned, beat l now t)

-- `Release`
unfoldable pub release : Bool → Lease → Table → Result Error (Unit {0}) × Table
release fails l t = if fails then (err unavailable, t) else (ok tt, delete l.node_id l.owner t)

-- The statements of processes on the table, in the order in which they take effect.
pub data Statement : Type 0 where
  claims : ℕ → ℕ → ℕ → Table → Statement
  beats_at : Lease → ℕ → Statement
  releases : Lease → Statement

unfoldable pub step : Statement → Table → Table
step (claims owner now ttl snapshot) t = (claim owner now ttl snapshot t).1
step (beats_at l now) t = beat l now t
step (releases l) t = delete l.node_id l.owner t

unfoldable pub run : List Statement → Table → Table
run [] t = t
run (s ∷ ss) t = run ss (step s t)

-- What the outside decides at one attempt: the statements of other processes before it, whether
-- the database fails, its `now()`, and the snapshot that the claim reads.
pub record Attempt : Type 0 where
  pub before : List Statement
  pub fails : Bool
  pub now : ℕ
  pub snapshot : Table

-- The loop of `AcquireLease`, with the attempts left and the number of the next one.
unfoldable pub attempts : ℕ → ℕ → (ℕ → Attempt) → ℕ → ℕ → Table → Result Error Lease × Table
attempts owner ttl env zero i t = (err none_claimable, t)
attempts owner ttl env (suc k) i t =
    let t₁ = run (env i).before t in
    let (got, t₂) = claim owner (env i).now ttl (env i).snapshot t₁ in
    elim ((env i).fails) [
      | true ↦ (err unavailable, t₁)
      | false ↦ elim got [
        | none ↦ attempts owner ttl env k (suc i) t₂
        | some id ↦ (ok (record { node_id = id; owner = owner; ttl = ttl }), t₂)
      ]
    ]

-- `AcquireLease`; `ddl_fails`: the CREATE TABLE fails.
unfoldable pub acquire_lease : Bool → ℕ → ℕ → (ℕ → Attempt) → Table → Result Error Lease × Table
acquire_lease ddl_fails owner ttl env t =
    if ddl_fails then (err unavailable, t) else attempts owner ttl env 5 0 t
