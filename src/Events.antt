-- ===== src/Events.antt =====
-- internal/events/events.go and pkg/outbox/outbox.go: every domain event goes into the outbox table,
-- in the transaction of the domain write. A payload is kept as the message that `proto.Marshal`
-- encodes; the times of the envelope and the trace context are left out.
use Prim.Native.Char.{code}
use Prim.Native.String.{String}
use yaxter.Common.{
  ℕ, ◌≡◌, arith, Bool, true, false, ◌||◌, List, [], ◌∷◌, ◌==◌, if◌then◌else◌, any, Result, ok, err,
}
use yaxter.Common.Decimal.{Text, decimal}

-- The payloads of the four topics (gen/yaxter/events). The name of each field stands behind it.
pub data Payload : Type 0 where
  follow_changed : ℕ → ℕ → Bool → Payload  -- follower_id, followee_id, following
  liked unliked : ℕ → ℕ → ℕ → Payload  -- tweet_id, user_id, author_id
  retweeted : ℕ → ℕ → ℕ → ℕ → Payload  -- tweet_id, retweet_id, user_id, author_id
  unretweeted : ℕ → ℕ → ℕ → Payload  -- tweet_id, retweet_id, user_id
  created : ℕ → ℕ → Text → ℕ → List ℕ → ℕ → Payload  -- tweet_id, author_id, text, retweet_of_id, media_ids, author_followers_count
  deleted : ℕ → ℕ → Payload  -- tweet_id, author_id
  uploaded : ℕ → ℕ → Text → ℕ → Payload  -- media_id, owner_id, content_type, size_bytes

-- The wrapper message: the envelope's event id, and the payload.
pub record Event : Type 0 where
  pub event_id : ℕ
  pub payload : Payload

-- `outbox.Message`
pub record Message : Type 0 where
  pub id : ℕ
  pub topic : Text
  pub key : Text
  pub payload : Event

pub data EmitError : Type 0 where
  marshal_failed id_required topic_required key_required insert_failed : EmitError

-- The code points of an ASCII text.
abbrev pub codes : String → Text
codes String.[] = []
codes (String.◌∷◌ c s) = code c ∷ codes s

abbrev is_empty : Text → Bool
is_empty [] = true
is_empty (c ∷ cs) = false

-- `validate`
abbrev pub validate : Message → Result EmitError (Unit {0})
validate m =
    if m.id == 0
    then err id_required
    else if is_empty m.topic
    then err topic_required
    else if is_empty m.key
    then err key_required
    else ok tt

-- `outbox.Insert`; the primary key refuses an id that the table has.
insert_checked :
    Bool → Message → Result EmitError (Unit {0}) → List Message → Result EmitError (List Message)
insert_checked fails m (err e) outbox = err e
insert_checked fails m (ok done) outbox =
    if fails || any (λ n. n.id == m.id) outbox then err insert_failed else ok (m ∷ outbox)

unfoldable pub insert : Bool → Message → List Message → Result EmitError (List Message)
unfolding insert_checked
insert fails m outbox = insert_checked fails m (validate m) outbox

-- `Key`
abbrev pub event_key : ℕ → Text
event_key id = decimal id

-- `Emit` with `NewEnvelope`; the two tests say whether `proto.Marshal` and the database fail.
unfoldable pub emit :
    Bool → Bool → ℕ → Text → Text → Payload → List Message → Result EmitError (List Message)
unfolding insert
emit marshal_fails insert_fails id topic key p outbox =
    if marshal_fails
    then err marshal_failed
    else insert insert_fails
        (record {
          id = id;
          topic = topic;
          key = key;
          payload = record { event_id = id; payload = p };
        })
        outbox

-- An event that is emitted is the one new row of the outbox, under its own id.
pub emit-ok :
    (m i : Bool) (id : ℕ) (topic key : Text) (p : Payload) (outbox outbox' : List Message)
    → emit m i id topic key p outbox ≡ ok outbox'
    → outbox'
      ≡ record {
        id = id;
        topic = topic;
        key = key;
        payload = record { event_id = id; payload = p };
      }
        ∷ outbox
unfolding emit
emit-ok m i id topic key p outbox outbox' h = ground arith
