-- ===== src/Leases/Held.antt =====
-- A lease that has not expired stays with its owner under claims, and under heartbeats and releases
-- of other owners.
use yaxter.Common.{
  ℕ, ◌+◌, ◌<◌, ◌≡◌, ◌≢◌, refl, true, false, Option, none, some, List, [], ◌∷◌, arith, All, ok,
}
use yaxter.Leases.{
  Table, Lease, first_free, upsert, claim_id, claim, beat, beats, delete, heartbeat, Statement,
  claims, beats_at, releases, step, run,
}
use yaxter.Leases.Claim.{find_node, Holds}

-- A statement of another owner whose time, if it claims, is before the end.
abbrev pub IsOther : ℕ → ℕ → Statement → Type 0
IsOther owner until (claims other now ttl snapshot) = now < until
IsOther owner until (beats_at l now) = l.owner ≢ owner
IsOther owner until (releases l) = l.owner ≢ owner

module _ (node owner until : ℕ) where
  upsert-Holds :
      (other now ttl id : ℕ) (t : Table)
      → now < until
      → Holds node owner until t
      → Holds node owner until (upsert other now ttl id t).1
  unfolding find_node upsert
  upsert-Holds other now ttl id [] h held = absurd held
  upsert-Holds other now ttl id (r ∷ t) h held = ground (arith, upsert-Holds other now ttl id t)

  pub claim_id-Holds :
      (other now ttl : ℕ) (chosen : Option ℕ) (t : Table)
      → now < until
      → Holds node owner until t
      → Holds node owner until (claim_id other now ttl chosen t).1
  unfolding claim_id
  claim_id-Holds other now ttl none t h held = held
  claim_id-Holds other now ttl (some id) t h held = upsert-Holds other now ttl id t h held

  beat-Holds :
      (l : Lease) (now : ℕ) (t : Table)
      → l.owner ≢ owner
      → Holds node owner until t
      → Holds node owner until (beat l now t)
  unfolding find_node beat
  beat-Holds l now [] ne held = held
  beat-Holds l now (r ∷ t) ne held = ground (arith, beat-Holds l now t ne)

  delete-Holds :
      (id other : ℕ) (t : Table)
      → other ≢ owner
      → Holds node owner until t
      → Holds node owner until (delete id other t)
  unfolding find_node delete
  delete-Holds id other [] ne held = held
  delete-Holds id other (r ∷ t) ne held = ground (arith, delete-Holds id other t ne)

  pub step-Holds :
      (s : Statement) (t : Table)
      → IsOther owner until s
      → Holds node owner until t
      → Holds node owner until (step s t)
  unfolding step claim
  step-Holds (claims other now ttl snapshot) t h held =
      claim_id-Holds other now ttl (first_free now snapshot 1024 0) t h held
  step-Holds (beats_at l now) t h held = beat-Holds l now t h held
  step-Holds (releases l) t h held = delete-Holds l.node_id l.owner t h held

  pub run-Holds :
      (ss : List Statement) (t : Table)
      → All (IsOther owner until) ss
      → Holds node owner until t
      → Holds node owner until (run ss t)
  unfolding run
  run-Holds [] t h held = held
  run-Holds (s ∷ ss) t h held = run-Holds ss (step s t) h.1 (step-Holds s t h.0 held)

beats-Holds :
    (l : Lease) (until : ℕ) (t : Table) → Holds l.node_id l.owner until t → beats l t ≡ true
unfolding find_node
beats-Holds l until [] held = absurd held
beats-Holds l until (r ∷ t) held = ground (arith, beats-Holds l until t)

beat-extends :
    (l : Lease) (until now : ℕ) (t : Table)
    → Holds l.node_id l.owner until t
    → Holds l.node_id l.owner (now + l.ttl) (beat l now t)
unfolding find_node beat
beat-extends l until now [] held = absurd held
beat-extends l until now (r ∷ t) held = ground (arith, beat-extends l until now t)

-- A lease is in the table until a time, and then any statements of two kinds run: claims with a
-- `now()` before that time, of stale snapshots too and of processes with any owner; and heartbeats and
-- releases of owners other than that of the lease. The next heartbeat of the lease that the
-- database answers succeeds, and the lease is then in the table until the heartbeat's time and the
-- TTL.
pub run-heartbeat :
    (l : Lease) (until now : ℕ) (ss : List Statement) (t : Table)
    → Holds l.node_id l.owner until t
    → All (IsOther l.owner until) ss
    → ((heartbeat false l now (run ss t)).0 ≡ ok tt)
      × Holds l.node_id l.owner (now + l.ttl) (heartbeat false l now (run ss t)).1
unfolding heartbeat
run-heartbeat l until now ss t held others =
    let kept = run-Holds l.node_id l.owner until ss t others held in
    (rw (beats-Holds l until (run ss t) kept) refl, beat-extends l until now (run ss t) kept)
