-- ===== src/Leases/Acquire.antt =====
-- `AcquireLease`: what it returns and what it leaves to the others.
use yaxter.Common.{
  ℕ, zero, suc, ◌+◌, ◌≤◌, ◌<◌, ◌≡◌, ◌≢◌, refl, Bool, true, false, Option, none, some, leb, arith,
  All, Bool-cases, Option-cases, inl, inr, ok, err, Result,
}
use mathlib.Core.Path.{subst}
use yaxter.Snowflake.{max_node}
use yaxter.Leases.{
  Row, Table, Lease, first_free, upsert, claim_id, claim, run, Attempt, attempts, acquire_lease,
  Error, unavailable,
}
use yaxter.Leases.Claim.{
  find_node, HeldBy, Holds, IsLowest, first_free-IsLowest, find_node-upsert, upsert-done,
}
use yaxter.Leases.Held.{IsOther, claim_id-Holds, run-Holds}

-- What a claim that returns an id has done.
claim_id-some :
    (owner now ttl : ℕ) (chosen : Option ℕ) (t : Table) {id : ℕ}
    → (claim_id owner now ttl chosen t).0 ≡ some id
    → (chosen ≡ some id)
      × ((upsert owner now ttl id t).0 ≡ true)
      × ((claim_id owner now ttl chosen t).1 ≡ (upsert owner now ttl id t).1)
unfolding claim_id
claim_id-some owner now ttl none t h = cc
claim_id-some owner now ttl (some c) t {id} h = elim (Bool-cases (upsert owner now ttl c t).0) [
  | inl done ↦ let same : c ≡ id = ground arith in rw (← same) (refl, done, refl)
  | inr not_done ↦ absurd (ground arith)
]

-- A claim that returns an id returns one of the 1024, and its owner has it for the TTL.
pub claim-Holds :
    (owner now ttl : ℕ) (snapshot t : Table) {id : ℕ}
    → (claim owner now ttl snapshot t).0 ≡ some id
    → (id ≤ max_node) × Holds id owner (now + ttl) (claim owner now ttl snapshot t).1
unfolding claim
claim-Holds owner now ttl snapshot t {id} h =
    let (chosen, done, table) = claim_id-some owner now ttl (first_free now snapshot 1024 0) t h in
    let lowest = first_free-IsLowest now snapshot 1024 0 in
    let found = find_node-upsert owner now ttl id id t in
    (
      below (first_free now snapshot 1024 0) lowest chosen,
      rw table (rw (found, done) (ground arith)),
    )
  where
    below : (o : Option ℕ) → IsLowest now snapshot 0 1024 o → o ≡ some id → id ≤ max_node
    below none low e = cc
    below (some c) low e = ground arith

-- A claim does not return a node that another has.
claim-other :
    (owner now ttl : ℕ) (snapshot t : Table) (node holder until : ℕ) {id : ℕ}
    → Holds node holder until t
    → now < until
    → (claim owner now ttl snapshot t).0 ≡ some id
    → id ≢ node
unfolding claim
claim-other owner now ttl snapshot t node holder until {id} held before h same =
    let (_, done, _) = claim_id-some owner now ttl (first_free now snapshot 1024 0) t h in
    refused (find_node node t) held (upsert-done owner now ttl node t)
      (subst (λ i. (upsert owner now ttl i t).0 ≡ true) same done)
  where
    refused :
        {b : Bool} (o : Option Row)
        → HeldBy holder until o
        → b ≡ elim o [ none ↦ true | some r ↦ leb r.expires_at now ]
        → b ≡ true
        → ⊥
    refused none held e d = absurd held
    refused (some r) held e d = ground arith

claim-keeps :
    (owner now ttl : ℕ) (snapshot t : Table) (node holder until : ℕ)
    → Holds node holder until t
    → now < until
    → Holds node holder until (claim owner now ttl snapshot t).1
unfolding claim
claim-keeps owner now ttl snapshot t node holder until held before =
    claim_id-Holds node holder until owner now ttl (first_free now snapshot 1024 0) t before held

-- A lease that is returned is one of the 1024 ids, in the name of the caller, and the caller has it
-- for the TTL from the time of one of the attempts.
abbrev pub Granted : ℕ → ℕ → (ℕ → Attempt) → ℕ → ℕ → Result Error Lease × Table → Type 0
Granted owner ttl env from until (err e, t) = Unit
Granted owner ttl env from until (ok l, t) =
    (l.owner ≡ owner)
    × (l.ttl ≡ ttl)
    × (l.node_id ≤ max_node)
    × ((i : ℕ) × (from ≤ i)
        × (i < until)
        × ((env i).fails ≡ false)
        × Holds l.node_id owner ((env i).now + ttl) t)

Granted-later :
    (owner ttl : ℕ) (env : ℕ → Attempt) (i until : ℕ) (r : Result Error Lease × Table)
    → Granted owner ttl env (suc i) until r
    → Granted owner ttl env i until r
Granted-later owner ttl env i until (err e, t) g = tt
Granted-later owner ttl env i until (ok l, t) (a, b, c, (j, h, k, f, held)) =
    (a, b, c, (j, omega arith, k, f, held))

-- One attempt fails, is lost to another process, or returns the lease.
attempts_cases {ℓ} :
    (P : Result Error Lease × Table → Type ℓ) (owner ttl : ℕ) (env : ℕ → Attempt) (k i : ℕ)
    (t : Table)
    → P (err unavailable, run (env i).before t)
    → (let (got, t₂) = claim owner (env i).now ttl (env i).snapshot (run (env i).before t) in
        (got ≡ none → P (attempts owner ttl env k (suc i) t₂))
        × ((id : ℕ)
            → (env i).fails ≡ false
            → got ≡ some id
            → P (ok (record { node_id = id; owner = owner; ttl = ttl }), t₂)))
    → P (attempts owner ttl env (suc k) i t)
unfolding attempts
attempts_cases P owner ttl env k i t failed rest = elim (Bool-cases ((env i).fails)) [
  | inl fails ↦ rw (fails, attempts) failed
  | inr answers ↦
      elim (Option-cases (claim owner (env i).now ttl (env i).snapshot (run (env i).before t)).0) [
        | inl q ↦ rw (answers, q, attempts) (rest.0 q)
        | inr (id, q) ↦ rw (answers, q, attempts) (rest.1 id answers q)
      ]
]

attempts-Granted :
    (owner ttl : ℕ) (env : ℕ → Attempt) (k i until : ℕ) (t : Table)
    → i + k ≤ until
    → Granted owner ttl env i until (attempts owner ttl env k i t)
unfolding attempts
attempts-Granted owner ttl env zero i until t h = tt
attempts-Granted owner ttl env (suc k) i until t h =
    attempts_cases (Granted owner ttl env i until) owner ttl env k i t tt (
      λ q. Granted-later owner ttl env i until _ (
          attempts-Granted owner ttl env k (suc i) until
            (claim owner (env i).now ttl (env i).snapshot (run (env i).before t)).1 (omega arith)),
      λ id answers q.
          let (fits, held) =
            claim-Holds owner (env i).now ttl (env i).snapshot (run (env i).before t) q in
          (refl, refl, fits, (i, omega arith, omega arith, answers, held)),
    )

-- A node that another process has until a time stays with it, and is not the one that is returned.
abbrev pub Spared : ℕ → ℕ → ℕ → Result Error Lease × Table → Type 0
Spared node holder until (err e, t) = Holds node holder until t
Spared node holder until (ok l, t) = (l.node_id ≢ node) × Holds node holder until t

-- All attempts, and the statements before them, take place before the time.
abbrev pub IsBefore : ℕ → ℕ → (ℕ → Attempt) → Type 0
IsBefore holder until env =
    (i : ℕ) → All (IsOther holder until) (env i).before × ((env i).now < until)

attempts-Spared :
    (owner ttl : ℕ) (env : ℕ → Attempt) (node holder until k i : ℕ) (t : Table)
    → IsBefore holder until env
    → Holds node holder until t
    → Spared node holder until (attempts owner ttl env k i t)
unfolding attempts
attempts-Spared owner ttl env node holder until zero i t b held = held
attempts-Spared owner ttl env node holder until (suc k) i t b held =
    let t₁ = run (env i).before t in
    let kept = run-Holds node holder until (env i).before t (b i).0 held in
    let after =
      claim-keeps owner (env i).now ttl (env i).snapshot t₁ node holder until kept (b i).1 in
    attempts_cases (Spared node holder until) owner ttl env k i t kept (
      λ q.
          attempts-Spared owner ttl env node holder until k (suc i)
            (claim owner (env i).now ttl (env i).snapshot t₁).1 b after,
      λ id answers q. (
        claim-other owner (env i).now ttl (env i).snapshot t₁ node holder until kept (b i).1 q,
        after,
      ),
    )

-- Whatever the other processes do meanwhile: a lease that `AcquireLease` returns is one of the
-- 1024 node ids, in the name of the caller and with its TTL, and in the table the caller has it for
-- that TTL from the `now()` of one of the five attempts, which the database answered.
pub acquire_lease-Granted :
    (ddl_fails : Bool) (owner ttl : ℕ) (env : ℕ → Attempt) (t : Table)
    → Granted owner ttl env 0 5 (acquire_lease ddl_fails owner ttl env t)
unfolding acquire_lease
acquire_lease-Granted true owner ttl env t = tt
acquire_lease-Granted false owner ttl env t = attempts-Granted owner ttl env 5 0 5 t (omega arith)

-- While a process has a node in the table, `AcquireLease` of another process, with the same owner
-- too, returns no lease on that node and leaves the first process's row in place, if its attempts
-- and those of others before them take place before the row's end.
pub acquire_lease-Spared :
    (ddl_fails : Bool) (owner ttl : ℕ) (env : ℕ → Attempt) (node holder until : ℕ) (t : Table)
    → IsBefore holder until env
    → Holds node holder until t
    → Spared node holder until (acquire_lease ddl_fails owner ttl env t)
unfolding acquire_lease
acquire_lease-Spared true owner ttl env node holder until t b held = held
acquire_lease-Spared false owner ttl env node holder until t b held =
    attempts-Spared owner ttl env node holder until 5 0 t b held
