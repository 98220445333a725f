-- ===== src/Notifications.antt =====
-- internal/notifications: the worker that turns follow and engagement events into rows, and the
-- queries of the read side. Creation times are left out.
pub mod Worker
pub mod Reads
mod Tests
use yaxter.Common.{
  ℕ, zero, suc, ◌+◌, Bool, true, false, not, ◌&&◌, ◌||◌, Option, none, some, List, [], ◌∷◌, leb,
  ◌==◌, if◌then◌else◌, any, Result, ok, err, ◌>>=◌, ◌>>◌, guard,
}
use yaxter.Events.{
  Event, Payload, follow_changed, liked, unliked, retweeted, unretweeted, created, deleted,
  uploaded,
}
use yaxter.Paging.{query, cut_page}
use yaxter.Redis.{Outcome, Dedupe, once}
use yaxter.Users.{User, find_id}

pub data Kind : Type 0 where
  kind_follow kind_like kind_retweet : Kind

-- A row of `notifications`.
pub record Row : Type 0 where
  pub id : ℕ
  pub user_id : ℕ
  pub kind : Kind
  pub actor_id : ℕ
  pub subject_id : Option ℕ
  pub read_at : Option ℕ

pub data Topic : Type 0 where
  follows engagements another : Topic

-- A Kafka record: its topic, and its event if `proto.Unmarshal` can read it.
pub record Record : Type 0 where
  pub topic : Topic
  pub event : Option Event

-- The answer of `Once`, whether the insert fails, and the id that `w.ids.Next()` gives.
pub record Env : Type 0 where
  pub once : Outcome
  pub insert_fails : Bool
  pub fresh_id : ℕ

-- `insert`; the primary key refuses an id that is there.
unfoldable pub insert : Env → ℕ → Kind → ℕ → Option ℕ → List Row → Result (Unit {0}) (List Row)
insert e user kind actor subject rows =
    if e.insert_fails || any (λ r. r.id == e.fresh_id) rows
    then err tt
    else ok (
        record {
          id = e.fresh_id;
          user_id = user;
          kind = kind;
          actor_id = actor;
          subject_id = subject;
          read_at = none;
        }
        ∷ rows)

-- `handleFollow`
unfoldable pub handle_follow : Env → Payload → List Row → Result (Unit {0}) (List Row)
handle_follow e (follow_changed follower followee following) rows =
    if following then insert e followee kind_follow follower none rows else ok rows
handle_follow e (liked a b c) rows = ok rows
handle_follow e (unliked a b c) rows = ok rows
handle_follow e (retweeted a b c d) rows = ok rows
handle_follow e (unretweeted a b c) rows = ok rows
handle_follow e (created a b c d m n) rows = ok rows
handle_follow e (deleted a b) rows = ok rows
handle_follow e (uploaded a b c d) rows = ok rows

-- `notifyEngagement`
unfoldable pub notify_engagement : Env → Kind → ℕ → ℕ → ℕ → List Row → Result (Unit {0}) (List Row)
notify_engagement e kind author actor tweet rows =
    if author == actor then ok rows else insert e author kind actor (some tweet) rows

-- `handleEngagement`
unfoldable pub handle_engagement : Env → Payload → List Row → Result (Unit {0}) (List Row)
handle_engagement e (liked tweet user author) rows =
    notify_engagement e kind_like author user tweet rows
handle_engagement e (retweeted tweet retweet user author) rows =
    notify_engagement e kind_retweet author user tweet rows
handle_engagement e (follow_changed a b following) rows = ok rows
handle_engagement e (unliked a b c) rows = ok rows
handle_engagement e (unretweeted a b c) rows = ok rows
handle_engagement e (created a b c d m n) rows = ok rows
handle_engagement e (deleted a b) rows = ok rows
handle_engagement e (uploaded a b c d) rows = ok rows

module _ {D : Type 0} (k : Dedupe D) where
  written :
      D → List Row → Result (Unit {0}) (List Row) → Result (Unit {0}) (Unit {0}) × D × List Row
  written d rows (ok rows') = (ok tt, d, rows')
  written d rows (err e) = (err tt, d, rows)

  -- `HandleFollow` and `HandleEngagement` after `once`: the insert is one statement.
  after_once :
      (Payload → List Row → Result (Unit {0}) (List Row))
      → Payload
      → List Row
      → Result (Unit {0}) Bool × D
      → Result (Unit {0}) (Unit {0}) × D × List Row
  after_once handle p rows (err e, d) = (err tt, d, rows)
  after_once handle p rows (ok false, d) = (ok tt, d, rows)
  after_once handle p rows (ok true, d) = written d rows (handle p rows)

  with_event :
      Env
      → (Payload → List Row → Result (Unit {0}) (List Row))
      → Option Event
      → D
      → List Row
      → Result (Unit {0}) (Unit {0}) × D × List Row
  with_event e handle none d rows = (err tt, d, rows)
  with_event e handle (some ev) d rows =
      after_once handle ev.payload rows (once k e.once ev.event_id d)

  on_topic : Env → Topic → Option Event → D → List Row → Result (Unit {0}) (Unit {0}) × D × List Row
  on_topic e follows ev d rows = with_event e (handle_follow e) ev d rows
  on_topic e engagements ev d rows = with_event e (handle_engagement e) ev d rows
  on_topic e another ev d rows = (ok tt, d, rows)

  -- `HandleRecord`
  unfoldable pub handle_record :
      Env → Record → D → List Row → Result (Unit {0}) (Unit {0}) × D × List Row
  unfolding on_topic with_event after_once written
  handle_record e rec d rows = on_topic e rec.topic rec.event d rows

abbrev has_user : Option User → Bool
has_user none = false
has_user (some u) = true

-- `WHERE user_id = $1`, with the actor joined.
unfoldable pub rows_of : ℕ → List User → List Row → List Row
rows_of user us [] = []
rows_of user us (r ∷ rs) =
    if r.user_id == user && has_user (find_id r.actor_id us)
    then r ∷ rows_of user us rs
    else rows_of user us rs

-- `List`
unfoldable pub list :
    Bool → ℕ → ℕ → ℕ → List User → List Row → Result (Unit {0}) (List Row × Option ℕ)
list fails user cursor limit us rows =
    if fails
    then err tt
    else ok (cut_page Row.id limit (query Row.id cursor (limit + 1) (rows_of user us rows)))

abbrev pub is_unread : Row → Bool
is_unread r = elim r.read_at [ none ↦ true | some t ↦ false ]

-- `UnreadCount`
unfoldable pub unread_count : ℕ → List Row → ℕ
unread_count user [] = 0
unread_count user (r ∷ rs) =
    (if r.user_id == user && is_unread r then 1 else 0) + unread_count user rs

-- `MarkRead`
unfoldable pub mark_read : ℕ → ℕ → ℕ → List Row → List Row
mark_read now user up_to [] = []
mark_read now user up_to (r ∷ rs) =
    (if r.user_id == user && (leb r.id up_to && is_unread r)
      then record r { read_at = some now }
      else r)
    ∷ mark_read now user up_to rs
