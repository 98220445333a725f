-- ===== src/Relay.antt =====
-- internal/relay/relay.go and kafka.go: the relay that publishes the outbox. One relay runs for each
-- database (leader.go), so it meets no row that another transaction has locked. Times are numbers;
-- the gauges are left out.
pub mod Batch
pub mod Cycle
mod Tests
use yaxter.Common.{
  ℕ, zero, suc, ◌+◌, ◌≡◌, refl, Bool, true, false, not, ◌&&◌, ◌||◌, Option, none, some, List, [],
  ◌∷◌, ◌++◌, map, ltb, leb, ◌==◌, if◌then◌else◌, filter, take, length, contains, Result, ok, err,
}
use yaxter.Common.Filtered.{sort_asc}
use yaxter.Events.{Message}
use yaxter.Redis.{Outcome, answered, refused, lost}

-- A row of `outbox`.
pub record Row : Type 0 where
  pub id : ℕ
  pub message : Message
  pub published_at : Option ℕ

-- The table, and what the broker has accepted, oldest first.
pub record State : Type 0 where
  pub outbox : List Row
  pub broker : List Message

-- `Publisher`: nil means that every message is accepted, in order; on an error some may be.
pub data Publish : Type 0 where
  accepted : Publish
  failed : (Message → Bool) → Publish

-- One round of `publishBatch`: which statements fail, what the broker does, how the commit ends, and
-- the clock.
pub record Round : Type 0 where
  pub begin_fails : Bool
  pub select_fails : Bool
  pub publish : Publish
  pub update_fails : Bool
  pub commit : Outcome
  pub now : ℕ

abbrev pub is_pending : Row → Bool
is_pending r = elim r.published_at [ none ↦ true | some t ↦ false ]

-- `SELECT … WHERE published_at IS NULL ORDER BY id LIMIT $1`
unfoldable pub select_batch : ℕ → List Row → List Row
select_batch size rows = take size (sort_asc Row.id (filter is_pending rows))

-- `UPDATE outbox SET published_at = now() WHERE id = ANY($1)`
unfoldable pub mark : ℕ → List ℕ → List Row → List Row
mark now ids [] = []
mark now ids (r ∷ rs) =
    (if contains r.id ids then record r { published_at = some now } else r) ∷ mark now ids rs

-- What the broker has after `Publish`.
abbrev pub receive : Publish → List Message → List Message → List Message
receive accepted msgs log = log ++ msgs
receive (failed got) msgs log = log ++ filter got msgs

committed : Outcome → ℕ → List Row → State → Result (Unit {0}) ℕ × State
committed answered n marked s = (ok n, record s { outbox = marked })
committed refused n marked s = (err tt, s)
committed lost n marked s = (err tt, record s { outbox = marked })

-- From `Publish` on, for the rows that were selected.
published : Round → Publish → List Row → State → Result (Unit {0}) ℕ × State
unfolding committed
published e (failed got) batch s =
    (err tt, record s { broker = receive (failed got) (map Row.message batch) s.broker })
published e accepted batch s =
    let s' = record s { broker = receive accepted (map Row.message batch) s.broker } in
    if e.update_fails
    then (err tt, s')
    else committed e.commit (length batch) (mark e.now (map Row.id batch) s.outbox) s'

publish_rows : Round → List Row → State → Result (Unit {0}) ℕ × State
unfolding published
publish_rows e [] s = (ok 0, s)
publish_rows e (r ∷ rs) s = published e e.publish (r ∷ rs) s

-- `publishBatch`; an open transaction that does not reach its commit is rolled back.
unfoldable pub publish_batch : Round → ℕ → State → Result (Unit {0}) ℕ × State
unfolding publish_rows
publish_batch e size s =
    if e.begin_fails || e.select_fails
    then (err tt, s)
    else publish_rows e (select_batch size s.outbox) s

-- `published_at < now() - make_interval(secs => $1)`
abbrev pub is_old : ℕ → ℕ → Row → Bool
is_old now grace r = elim r.published_at [ none ↦ false | some t ↦ ltb (t + grace) now ]

-- `DELETE … WHERE id IN (SELECT id … LIMIT $2)`: without an order, the first rows that are read.
unfoldable pub delete_old : ℕ → ℕ → ℕ → List Row → List Row
delete_old now grace limit [] = []
delete_old now grace zero (r ∷ rs) = r ∷ rs
delete_old now grace (suc limit) (r ∷ rs) =
    if is_old now grace r
    then delete_old now grace limit rs
    else r ∷ delete_old now grace (suc limit) rs

pub record Config : Type 0 where
  pub batch_size : ℕ
  pub delete_grace : ℕ
  pub delete_batch : ℕ

abbrev pub default_config : Config
default_config = record { batch_size = 500; delete_grace = 60; delete_batch = 1000 }

-- `deleteOld`
unfoldable pub delete : Outcome → ℕ → Config → State → Result (Unit {0}) (Unit {0}) × State
delete answered now c s =
    (ok tt, record s { outbox = delete_old now c.delete_grace c.delete_batch s.outbox })
delete refused now c s = (err tt, s)
delete lost now c s =
    (err tt, record s { outbox = delete_old now c.delete_grace c.delete_batch s.outbox })

-- A loop that has not come to its end is `none`.
abbrev Ended : Type 0
Ended = Option (Result (Unit {0}) (Unit {0}) × State)

next_round : Outcome → ℕ → Config → (State → Ended) → Result (Unit {0}) ℕ × State → Ended
next_round del now c again (err e, s) = some (err e, s)
next_round del now c again (ok n, s) =
    if ltb n c.batch_size then some (delete del now c s) else again s

-- `cycle`, with the rounds of its loop in order.
unfoldable pub cycle : ℕ → (ℕ → Round) → Outcome → ℕ → Config → State → Ended
unfolding next_round
cycle zero rounds del now c s = none
cycle (suc fuel) rounds del now c s =
    let again = cycle fuel (λ n. rounds (n + 1)) del now c in
    next_round del now c again (publish_batch (rounds 0) c.batch_size s)
