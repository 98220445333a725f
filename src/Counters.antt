-- ===== src/Counters.antt =====
-- internal/counters: the buffered write-behind counters of likes and retweets, in a hash in Redis for
-- reads, and in the columns of `tweets`. The mutex makes each buffer access one step; the batch is
-- queued in the order of the buffer, where Go's map order is arbitrary: the updates add, so
-- their order does not matter.
pub mod Sums
pub mod Total
pub mod Run
pub mod Read
mod Tests
use yaxter.Common.{
  ℕ, suc, ◌+◌, ◌≡◌, Bool, true, false, not, ◌||◌, Option, none, some, List, [], ◌∷◌, leb, ◌==◌,
  if◌then◌else◌, Result, ok, err,
}
use yaxter.Common.Dict.{Dict, insert, lookup_or}
use yaxter.Common.Int.{ℤ, pos, negsuc, ◌+ℤ◌}
use yaxter.Events.{
  Payload, Event, liked, unliked, retweeted, unretweeted, follow_changed, created, deleted,
  uploaded,
}
use yaxter.Redis.{Outcome, answered, refused, lost, Dedupe, once}

-- `delta`
pub record Delta : Type 0 where
  pub likes : ℤ
  pub retweets : ℤ

abbrev pub zero_delta : Delta
zero_delta = record { likes = pos 0; retweets = pos 0 }

infixl 65 ◌⊕◌
unfoldable pub ◌⊕◌ : Delta → Delta → Delta
a ⊕ b = record { likes = a.likes +ℤ b.likes; retweets = a.retweets +ℤ b.retweets }

abbrev pub or_zero : Option Delta → Delta
or_zero none = zero_delta
or_zero (some d) = d

-- The hashes `cnt:<id>`, with the fields `likes` and `retweets`; a field that is not there counts as
-- 0, for `HINCRBY` as for the reader.
pub record Hashes (H : Type 0) : Type 0 where
  pub counts : ℕ → H → Option Delta
  pub incr_by : ℕ → Delta → H → H
  pub set_both : ℕ → Delta → H → H
  pub set_likes : ℕ → ℤ → H → H
  pub counts_incr_by :
      (i j : ℕ) (d : Delta) (h : H)
      → counts i (incr_by j d h) ≡ (if i == j then some (or_zero (counts j h) ⊕ d) else counts i h)
  pub counts_set_both :
      (i j : ℕ) (d : Delta) (h : H)
      → counts i (set_both j d h) ≡ (if i == j then some d else counts i h)
  pub counts_set_likes :
      (i j : ℕ) (n : ℤ) (h : H)
      → counts i (set_likes j n h) ≡ (
          if i == j
          then some (record { likes = n; retweets = (or_zero (counts j h)).retweets })
          else counts i h)

-- The columns of `tweets` that are used here.
pub record Row : Type 0 where
  pub id : ℕ
  pub counted : Delta

-- The buffer of `Counters`, the parts of Redis and the table.
pub record State (D H : Type 0) : Type 0 where
  pub dedupe : D
  pub hashes : H
  pub deltas : Dict Delta
  pub pending : ℕ
  pub flushes : ℕ
  pub tweets : List Row

-- The outcomes of the calls of `Once`, of the pipeline and of the batch.
pub record Env : Type 0 where
  pub once : Outcome
  pub pipeline : Outcome
  pub batch : Outcome

-- The `switch` over the payload.
abbrev pub delta_of : Payload → Option (ℕ × Delta)
delta_of (liked tweet user author) = some (tweet, record { likes = pos 1; retweets = pos 0 })
delta_of (unliked tweet user author) = some (tweet, record { likes = negsuc 0; retweets = pos 0 })
delta_of (retweeted tweet retweet user author) =
    some (tweet, record { likes = pos 0; retweets = pos 1 })
delta_of (unretweeted tweet retweet user) =
    some (tweet, record { likes = pos 0; retweets = negsuc 0 })
delta_of (follow_changed a b following) = none
delta_of (created a b text c media followers) = none
delta_of (deleted a b) = none
delta_of (uploaded a b type size) = none

-- `UPDATE tweets SET likes_count = likes_count + $2, retweets_count = retweets_count + $3 WHERE id = $1`
unfoldable pub update : ℕ → Delta → List Row → List Row
update id d [] = []
update id d (r ∷ rs) =
    (if r.id == id then record { id = r.id; counted = r.counted ⊕ d } else r) ∷ update id d rs

unfoldable pub send_batch : Dict Delta → List Row → List Row
send_batch [] rs = rs
send_batch ((id, d) ∷ ds) rs = send_batch ds (update id d rs)

module _ {D H : Type 0} where
  -- `SendBatch`: the statements of a batch are one implicit transaction.
  sent : Outcome → Dict Delta → State D H → Result (Unit {0}) (Unit {0}) × State D H
  sent answered ds s = (ok tt, record s { tweets = send_batch ds s.tweets })
  sent refused ds s = (err tt, s)
  sent lost ds s = (err tt, record s { tweets = send_batch ds s.tweets })

  -- `Flush`
  unfoldable pub flush : Outcome → State D H → Result (Unit {0}) (Unit {0}) × State D H
  unfolding sent
  flush o s =
      if s.pending == 0
      then (ok tt, s)
      else sent o s.deltas (record s { deltas = []; pending = 0; flushes = s.flushes + 1 })

  -- The critical section of `HandleEvent`, and the flush of a full buffer.
  unfoldable pub accumulate :
      ℕ → Outcome → ℕ → Delta → State D H → Result (Unit {0}) (Unit {0}) × State D H
  accumulate flush_after o tweet d s =
      let s' : State D H = record s {
        deltas = insert tweet (lookup_or zero_delta tweet s.deltas ⊕ d) s.deltas;
        pending = s.pending + 1;
      } in
      if leb flush_after s'.pending then flush o s' else (ok tt, s')

  -- After the first sight of an event: the hash, then the buffer.
  count :
      Hashes H → ℕ → Env → Option (ℕ × Delta) → State D H → Result (Unit {0}) (Unit {0}) × State D H
  count h flush_after e none s = (ok tt, s)
  count h flush_after e (some (tweet, d)) s = elim e.pipeline [
    | answered ↦
        accumulate flush_after e.batch tweet d (record s { hashes = h.incr_by tweet d s.hashes })
    | refused ↦ (err tt, s)
    | lost ↦ (err tt, record s { hashes = h.incr_by tweet d s.hashes })
  ]

  counted_once :
      Hashes H
      → ℕ
      → Env
      → Payload
      → State D H
      → Result (Unit {0}) Bool × D
      → Result (Unit {0}) (Unit {0}) × State D H
  counted_once h flush_after e p s (err x, d) = (err x, record s { dedupe = d })
  counted_once h flush_after e p s (ok false, d) = (ok tt, record s { dedupe = d })
  counted_once h flush_after e p s (ok true, d) =
      count h flush_after e (delta_of p) (record s { dedupe = d })

  -- `HandleEvent`
  unfoldable pub handle_event :
      Dedupe D → Hashes H → ℕ → Env → Event → State D H → Result (Unit {0}) (Unit {0}) × State D H
  unfolding count counted_once
  handle_event r h flush_after e ev s =
      counted_once h flush_after e ev.payload s (once r e.once ev.event_id s.dedupe)
