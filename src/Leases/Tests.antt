-- ===== src/Leases/Tests.antt =====
-- The theorems on leases at concrete tables.
use yaxter.Common.{
  ◌≤◌, ◌==◌, none, some, if◌then◌else◌, ℕ, zero, suc, ◌+◌, ◌≡◌, refl, false, List, [], ◌∷◌, arith,
  ok, err,
}
use yaxter.Snowflake.{Generator, epoch_ms, pack}
use yaxter.Leases.{
  Table, Lease, fresh, first_free, upsert, claim, heartbeat, delete, release, Statement, claims,
  releases, step, run, Attempt, acquire_lease, not_owned,
}
use yaxter.Leases.Claim.{find_node, Holds}
use yaxter.Leases.Held.{run-heartbeat}
use yaxter.Leases.Acquire.{Granted, acquire_lease-Granted}
use yaxter.Leases.Lowest.{acquire_lease-lowest}
use yaxter.Leases.TakenOver.{heartbeat-taken_over}

-- Node 0 is leased by owner 7 until 130, node 1 expired at 90, node 2 is leased by owner 8.
abbrev table : Table
table = fresh 7 100 30 0 ∷ fresh 8 60 30 1 ∷ fresh 8 100 40 2 ∷ []

abbrev lease : Lease
lease = record { node_id = 0; owner = 7; ttl = 30 }

abbrev others : List Statement
others =
    claims 7 125 30 []
    ∷ claims 9 126 30 table
    ∷ releases (record { node_id = 2; owner = 8; ttl = 30 })
    ∷ []

run-others : run others table ≡ fresh 7 100 30 0 ∷ fresh 9 126 30 1 ∷ []
unfolding run step claim first_free upsert delete
run-others = refl

run-heartbeat_example :
    ((heartbeat false lease 127 (run others table)).0 ≡ ok tt)
    × Holds 0 7 157 (heartbeat false lease 127 (run others table)).1
unfolding find_node
run-heartbeat_example =
    run-heartbeat lease 130 127 others table (refl, omega arith)
      (omega arith, (omega arith, ((λ e. absurd (omega arith)), tt)))

heartbeat-lost : (heartbeat false lease 200 (fresh 9 190 30 0 ∷ [])).0 ≡ err not_owned
unfolding heartbeat
heartbeat-lost = refl

release-lease : release false lease table ≡ (ok tt, fresh 8 60 30 1 ∷ fresh 8 100 40 2 ∷ [])
unfolding release delete
release-lease = refl

-- The first attempt is overtaken on node 1, the second takes node 3.
abbrev raced : ℕ → Attempt
raced zero = record {
  before = claims 6 120 30 table ∷ [];
  fails = false;
  now = 121;
  snapshot = table;
}
raced (suc i) = record {
  before = [];
  fails = false;
  now = 122;
  snapshot = fresh 7 100 30 0 ∷ fresh 6 120 30 1 ∷ fresh 8 100 40 2 ∷ [];
}

abbrev calm : ℕ → Attempt
calm i = record { before = []; fails = false; now = 121; snapshot = table }

acquire_lease-lowest_example :
    (acquire_lease false 5 30 calm table).0 ≡ ok (record { node_id = 1; owner = 5; ttl = 30 })
acquire_lease-lowest_example =
    acquire_lease-lowest 5 30 calm table 1 refl refl refl (omega arith) refl (λ j h. ground arith)

acquire_lease-Granted_example : Granted 5 30 raced 0 5 (acquire_lease false 5 30 raced table)
acquire_lease-Granted_example = acquire_lease-Granted false 5 30 raced table

abbrev first : Generator
first = record { node = 0; last_ms = 0; seq = 0 }

abbrev second : Generator
second = record { node = 3; last_ms = 0; seq = 0 }

abbrev clock : List ℕ
clock = (epoch_ms + 6) ∷ (epoch_ms + 6) ∷ []

abbrev ids_of : ℕ → List ℕ
ids_of node = pack (epoch_ms + 6) node 0 ∷ pack (epoch_ms + 6) node 1 ∷ []

-- The second process has the same owner.
heartbeat-taken_over_example :
    (130 ≤ 200)
    × ((heartbeat false lease 210 (claim 7 200 30 table table).1).0
        ≡ (if 7 == lease.owner then ok tt else err not_owned))
    × (find_node 0 (release false lease (claim 7 200 30 table table).1).1
        ≡ (if 7 == lease.owner then none else some (fresh 7 200 30 0)))
unfolding claim first_free upsert find_node
heartbeat-taken_over_example =
    heartbeat-taken_over lease 130 7 30 200 210 table table (refl, (refl, (refl, tt)))
      (refl, omega arith) refl
