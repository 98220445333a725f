-- ===== src/Notifications/Worker.antt =====
-- What the worker writes for a record, and that a redelivered record writes nothing.
use yaxter.Common.{
  ℕ, ◌≡◌, refl, Bool, true, false, not, ◌||◌, Option, none, some, List, ◌∷◌, ◌==◌, if◌then◌else◌,
  any, Result, ok, arith, Bool-cases, inl, inr,
}
use yaxter.Events.{
  Event, Payload, follow_changed, liked, unliked, retweeted, unretweeted, created, deleted,
  uploaded,
}
use yaxter.Redis.{answered, Dedupe, once}
use yaxter.Notifications.{
  Kind, kind_follow, kind_like, kind_retweet, Row, Topic, follows, engagements, another, Env,
  insert, handle_follow, notify_engagement, handle_engagement, written, after_once, with_event,
  on_topic, handle_record,
}

-- Who is to be told what: the user, the kind, the actor and the tweet. Unfollows, unlikes and undone
-- retweets tell nobody, and nobody is told of what one does oneself.
abbrev pub Notice : Type 0
Notice = ℕ × Kind × ℕ × Option ℕ

abbrev unless_self : ℕ → ℕ → Notice → Option Notice
unless_self author actor n = if author == actor then none else some n

abbrev pub notice_of : Topic → Payload → Option Notice
notice_of follows (follow_changed follower followee following) =
    if following then some (followee, kind_follow, follower, none) else none
notice_of follows (liked a b c) = none
notice_of follows (unliked a b c) = none
notice_of follows (retweeted a b c d) = none
notice_of follows (unretweeted a b c) = none
notice_of follows (created a b c d m n) = none
notice_of follows (deleted a b) = none
notice_of follows (uploaded a b c d) = none
notice_of engagements (liked tweet user author) =
    unless_self author user (author, kind_like, user, some tweet)
notice_of engagements (retweeted tweet retweet user author) =
    unless_self author user (author, kind_retweet, user, some tweet)
notice_of engagements (follow_changed a b following) = none
notice_of engagements (unliked a b c) = none
notice_of engagements (unretweeted a b c) = none
notice_of engagements (created a b c d m n) = none
notice_of engagements (deleted a b) = none
notice_of engagements (uploaded a b c d) = none
notice_of another p = none

abbrev pub add_notice : ℕ → Option Notice → List Row → List Row
add_notice id none rows = rows
add_notice id (some (user, kind, actor, subject)) rows =
    record {
      id = id;
      user_id = user;
      kind = kind;
      actor_id = actor;
      subject_id = subject;
      read_at = none;
    }
    ∷ rows

-- The calls are answered.
abbrev pub calm : ℕ → Env
calm id = record { once = answered; insert_fails = false; fresh_id = id }

-- The handler of a topic; an unknown topic has none.
abbrev handler : Topic → Env → Payload → List Row → Result (Unit {0}) (List Row)
handler follows e p rows = handle_follow e p rows
handler engagements e p rows = handle_engagement e p rows
handler another e p rows = ok rows

handler-notice :
    (t : Topic) (id : ℕ) (p : Payload) (rows : List Row)
    → any (λ r. r.id == id) rows ≡ false
    → handler t (calm id) p rows ≡ ok (add_notice id (notice_of t p) rows)
unfolding handle_follow handle_engagement notify_engagement insert
handler-notice follows id (follow_changed a b following) rows h = ground arith
handler-notice follows id (liked a b c) rows h = refl
handler-notice follows id (unliked a b c) rows h = refl
handler-notice follows id (retweeted a b c d) rows h = refl
handler-notice follows id (unretweeted a b c) rows h = refl
handler-notice follows id (created a b c d m n) rows h = refl
handler-notice follows id (deleted a b) rows h = refl
handler-notice follows id (uploaded a b c d) rows h = refl
handler-notice engagements id (liked a b c) rows h = ground arith
handler-notice engagements id (retweeted a b c d) rows h = ground arith
handler-notice engagements id (follow_changed a b following) rows h = refl
handler-notice engagements id (unliked a b c) rows h = refl
handler-notice engagements id (unretweeted a b c) rows h = refl
handler-notice engagements id (created a b c d m n) rows h = refl
handler-notice engagements id (deleted a b) rows h = refl
handler-notice engagements id (uploaded a b c d) rows h = refl
handler-notice another id p rows h = refl

-- Whether the record is handled: a record of another topic is not looked at.
abbrev is_known : Topic → Bool
is_known follows = true
is_known engagements = true
is_known another = false

module _ {D : Type 0} (k : Dedupe D) where
  after-notice :
      (t : Topic) (id : ℕ) (ev : Event) (d : D) (rows : List Row)
      → any (λ r. r.id == id) rows ≡ false
      → with_event k (calm id) (handler t (calm id)) (some ev) d rows ≡ (
          if k.seen ev.event_id d
          then (ok tt, d, rows)
          else (ok tt, k.mark ev.event_id d, add_notice id (notice_of t ev.payload) rows))
  unfolding with_event after_once written once
  after-notice t id ev d rows h = elim (Bool-cases (k.seen ev.event_id d)) [
    | inl old ↦ rw old refl
    | inr new ↦ rw (new, handler-notice t id ev.payload rows h) refl
  ]

  -- A record is handled, when the calls are answered and the new id is free, in one of three ways: of
  -- another topic, it is passed over; seen before, it changes nothing; and seen for the first time,
  -- its key is set and exactly the notification that `notice_of` describes is written, if any.
  pub handle_record-notice :
      (t : Topic) (id : ℕ) (ev : Event) (d : D) (rows : List Row)
      → any (λ r. r.id == id) rows ≡ false
      → handle_record k (calm id) (record { topic = t; event = some ev }) d rows ≡ (
          if not (is_known t) || k.seen ev.event_id d
          then (ok tt, d, rows)
          else (ok tt, k.mark ev.event_id d, add_notice id (notice_of t ev.payload) rows))
  unfolding handle_record on_topic
  handle_record-notice follows id ev d rows h = after-notice follows id ev d rows h
  handle_record-notice engagements id ev d rows h = after-notice engagements id ev d rows h
  handle_record-notice another id ev d rows h = refl
