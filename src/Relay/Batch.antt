-- ===== src/Relay/Batch.antt =====
-- Whatever fails, a message is not marked as published before the broker has it.
use yaxter.Common.{
  ℕ, ◌≡◌, refl, sym, ap, ◌∙◌, Bool, true, false, ◌||◌, List, [], ◌∷◌, ◌++◌, map, filter, length,
  contains, All, arith, Bool-cases, inl, inr,
}
use yaxter.Common.Sort.{DistinctKeys, has_key}
use yaxter.Common.Filtered.{sort_asc, All-sort_asc, All-filter}
use yaxter.Common.Member.{
  In, All-of_In, In-left, In-right, All-take, In-unique, contains-In, In-map,
}
use mathlib.Core.Path.{subst}
use yaxter.Events.{Message}
use yaxter.Redis.{Outcome, answered, refused, lost}
use yaxter.Relay.{
  Row, State, Publish, accepted, failed, Round, is_pending, select_batch, mark, committed,
  published, publish_rows, publish_batch,
}

-- Ids are a primary key, and the broker has the message of every row that is marked.
pub record NoLoss (s : State) : Type 0 where
  pub distinct : DistinctKeys Row.id s.outbox
  pub delivered : All (λ r. is_pending r ≡ false → In r.message s.broker) s.outbox

All-In-filter : (p : Row → Bool) (rows : List Row) → All (λ b. In b rows) (filter p rows)
All-In-filter p rows =
    All-filter Row.id (λ b. In b rows) p rows (All-of_In (λ b. In b rows) rows (λ a i. i))

-- The batch is a part of the table.
pub select_batch-In : (size : ℕ) (rows : List Row) → All (λ b. In b rows) (select_batch size rows)
unfolding select_batch
select_batch-In size rows =
    All-take (λ b. In b rows) size (sort_asc Row.id (filter is_pending rows))
      (All-sort_asc Row.id (λ b. In b rows) (filter is_pending rows)
        (All-In-filter is_pending rows))

All-In : {A : Type 0} (P : A → Type 0) (a : A) (xs : List A) → All P xs → In a xs → P a
All-In P a [] h i = absurd i
All-In P a (x ∷ xs) h (inl p) = rw p h.0
All-In P a (x ∷ xs) h (inr i) = All-In P a xs h.1 i

-- A row whose id is among those of the batch has its message among the batch's.
batch-message :
    (rows batch : List Row) (r : Row)
    → DistinctKeys Row.id rows
    → All (λ b. In b rows) batch
    → In r rows
    → contains r.id (map Row.id batch) ≡ true
    → In r.message (map Row.message batch)
batch-message rows batch r d sel i c =
    let (b, at, same) = contains-In Row.id r.id batch c in
    let equal = In-unique Row.id r b rows d i (All-In (λ b. In b rows) b batch sel at) same in
    subst (λ m. In m (map Row.message batch)) (ap Row.message (sym equal))
      (In-map Row.message b batch at)

-- Messages are only added to the broker.
grown-NoLoss :
    (s : State) (more : List Message)
    → NoLoss s
    → NoLoss (record { outbox = s.outbox; broker = s.broker ++ more })
grown-NoLoss s more v = record {
  distinct = v.distinct;
  delivered =
      All-of_In (λ r. is_pending r ≡ false → In r.message (s.broker ++ more)) s.outbox
        (λ r i p.
          In-left r.message s.broker more (
            All-In (λ r. is_pending r ≡ false → In r.message s.broker) r s.outbox v.delivered i p));
}

has_key-mark :
    (k now : ℕ) (ids : List ℕ) (rows : List Row)
    → has_key Row.id k (mark now ids rows) ≡ has_key Row.id k rows
unfolding mark
has_key-mark k now ids [] = refl
has_key-mark k now ids (r ∷ rs) = ground (arith, has_key-mark k now ids rs)

pub mark-DistinctKeys :
    (now : ℕ) (ids : List ℕ) (rows : List Row)
    → DistinctKeys Row.id rows
    → DistinctKeys Row.id (mark now ids rows)
unfolding mark
mark-DistinctKeys now ids [] d = tt
mark-DistinctKeys now ids (r ∷ rs) d = elim (Bool-cases (contains r.id ids)) [
  | inl this ↦ rw this (has_key-mark r.id now ids rs ∙ d.0, mark-DistinctKeys now ids rs d.1)
  | inr other ↦ rw other (has_key-mark r.id now ids rs ∙ d.0, mark-DistinctKeys now ids rs d.1)
]

-- What is marked is delivered, if it was before, or if its id is among the marked ones.
mark-delivered :
    (now : ℕ) (ids : List ℕ) (log : List Message) (rows : List Row)
    → All (λ r. is_pending r ≡ false → In r.message log) rows
    → All (λ r. contains r.id ids ≡ true → In r.message log) rows
    → All (λ r. is_pending r ≡ false → In r.message log) (mark now ids rows)
unfolding mark
mark-delivered now ids log [] h c = tt
mark-delivered now ids log (r ∷ rs) h c = elim (Bool-cases (contains r.id ids)) [
  | inl this ↦ rw this (λ p. c.0 this, mark-delivered now ids log rs h.1 c.1)
  | inr other ↦ rw other (h.0, mark-delivered now ids log rs h.1 c.1)
]

marked-NoLoss :
    (now : ℕ) (batch : List Row) (s : State)
    → All (λ b. In b s.outbox) batch
    → NoLoss s
    → NoLoss (record {
      outbox = mark now (map Row.id batch) s.outbox;
      broker = s.broker ++ map Row.message batch;
    })
marked-NoLoss now batch s sel v =
    let log = s.broker ++ map Row.message batch in
    record {
      distinct = mark-DistinctKeys now (map Row.id batch) s.outbox v.distinct;
      delivered =
          mark-delivered now (map Row.id batch) log s.outbox
            (grown-NoLoss s (map Row.message batch) v).delivered
            (All-of_In (λ r. contains r.id (map Row.id batch) ≡ true → In r.message log) s.outbox
              (λ r i c.
                In-right r.message s.broker (map Row.message batch)
                  (batch-message s.outbox batch r v.distinct sel i c)));
    }

committed-NoLoss :
    (o : Outcome) (n : ℕ) (marked : List Row) (s : State)
    → NoLoss s
    → NoLoss (record { outbox = marked; broker = s.broker })
    → NoLoss (committed o n marked s).1
unfolding committed
committed-NoLoss answered n marked s v w = w
committed-NoLoss refused n marked s v w = v
committed-NoLoss lost n marked s v w = w

published-NoLoss :
    (e : Round) (p : Publish) (batch : List Row) (s : State)
    → All (λ b. In b s.outbox) batch
    → NoLoss s
    → NoLoss (published e p batch s).1
unfolding published
published-NoLoss e (failed got) batch s sel v =
    grown-NoLoss s (filter got (map Row.message batch)) v
published-NoLoss e accepted batch s sel v =
    let grown = grown-NoLoss s (map Row.message batch) v in
    let marked = mark e.now (map Row.id batch) s.outbox in
    elim (Bool-cases e.update_fails) [
      | inl fails ↦ rw fails grown
      | inr answers ↦ rw answers (
          committed-NoLoss e.commit (length batch) marked
            (record { outbox = s.outbox; broker = s.broker ++ map Row.message batch }) grown
            (marked-NoLoss e.now batch s sel v))
    ]

publish_rows-NoLoss :
    (e : Round) (batch : List Row) (s : State)
    → All (λ b. In b s.outbox) batch
    → NoLoss s
    → NoLoss (publish_rows e batch s).1
unfolding publish_rows
publish_rows-NoLoss e [] s sel v = v
publish_rows-NoLoss e (r ∷ rs) s sel v = published-NoLoss e e.publish (r ∷ rs) s sel v

-- Whatever fails in a round, at the broker or at any statement, the broker has the message of every
-- row of the outbox that is marked as published afterwards, if it had so before and ids are
-- distinct; in particular a batch that is lost at the commit is still pending.
pub publish_batch-NoLoss :
    (e : Round) (size : ℕ) (s : State) → NoLoss s → NoLoss (publish_batch e size s).1
unfolding publish_batch
publish_batch-NoLoss e size s v = elim (Bool-cases (e.begin_fails || e.select_fails)) [
  | inl fails ↦ rw fails v
  | inr answers ↦
      rw answers
        (publish_rows-NoLoss e (select_batch size s.outbox) s (select_batch-In size s.outbox) v)
]
