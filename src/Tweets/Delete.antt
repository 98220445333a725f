-- ===== src/Tweets/Delete.antt =====
-- What a successful `Delete` did.
use yaxter.Common.{
  ℕ, ◌≡◌, ap, ◌∙◌, Option, none, some, List, [], ◌∷◌, ◌==◌, if◌then◌else◌, ok, arith, Result-cases,
  is_ok, is_err,
}
use yaxter.Events.{Message, codes, emit, event_key, deleted, unretweeted}
use yaxter.Tweets.{
  Tweet, Db, Env, not_found, find_tweet, row, lift, delete_tweet, emit_unretweet, delete,
}
use yaxter.Tweets.Create.{message, lift-ok, row-some}

find_tweet-delete_tweet :
    (id k : ℕ) (ts : List Tweet)
    → find_tweet k (delete_tweet id ts) ≡ (if k == id then none else find_tweet k ts)
unfolding delete_tweet
find_tweet-delete_tweet id k [] = ground arith
find_tweet-delete_tweet id k (t ∷ ts) = ground (arith, find_tweet-delete_tweet id k ts)

-- The event of a retweet that is deleted; none for another tweet.
abbrev pub with_unretweet : Env → Option ℕ → ℕ → ℕ → List Message → List Message
with_unretweet e none tweet user outbox = outbox
with_unretweet e (some original) tweet user outbox =
    message (e.fresh 1) (codes "engagements.v1") original (unretweeted original tweet user) ∷ outbox

emit_unretweet-ok :
    (e : Env) (o : Option ℕ) (tweet user : ℕ) (outbox outbox' : List Message)
    → emit_unretweet e o tweet user outbox ≡ ok outbox'
    → outbox' ≡ with_unretweet e o tweet user outbox
unfolding emit_unretweet
emit_unretweet-ok e none tweet user outbox outbox' h = ground arith
emit_unretweet-ok e (some original) tweet user outbox outbox' h =
    lift-ok (e.fails 5) (e.fails 6) (e.fresh 1) (codes "engagements.v1") original
      (unretweeted original tweet user) outbox outbox' h

abbrev pub Deleted : Env → ℕ → ℕ → Db → Db → Option Tweet → Type 0
Deleted e user tweet db db' none = ⊥
Deleted e user tweet db db' (some t) =
    (t.author_id ≡ user)
    × ((k : ℕ) → find_tweet k db'.tweets ≡ (if k == tweet then none else find_tweet k db.tweets))
    × (db'.outbox
        ≡ with_unretweet e t.retweet_of_id tweet user (
            message (e.fresh 0) (codes "tweets.v1") t.author_id (deleted tweet t.author_id)
            ∷ db.outbox))

-- When `Delete` succeeds, the tweet existed and the caller is its author; afterwards it is gone and
-- every other tweet is as before; and exactly its `TweetDeleted` event, and for a retweet the
-- `TweetUnretweeted` event of the original, are added to the outbox.
pub delete-Deleted :
    (e : Env) (user tweet : ℕ) (db db' : Db)
    → delete e user tweet db ≡ ok db'
    → Deleted e user tweet db db' (find_tweet tweet db.tweets)
unfolding delete
delete-Deleted e user tweet db db' h =
    elim (Result-cases (row (e.fails 0) not_found (find_tweet tweet db.tweets))) [
      | is_err x q ↦ absurd (ground arith)
      | is_ok t q ↦
          let found = row-some (e.fails 0) not_found (find_tweet tweet db.tweets) t q in
          let p = deleted tweet t.author_id in
          elim (Result-cases (
            lift (
              emit (e.fails 3) (e.fails 4) (e.fresh 0) (codes "tweets.v1") (event_key t.author_id) p
                db.outbox))) [
                  | is_err x q1 ↦ absurd (ground arith)
                  | is_ok o q1 ↦
                      let one =
                        lift-ok (e.fails 3) (e.fails 4) (e.fresh 0) (codes "tweets.v1") t.author_id
                          p db.outbox o q1 in
                      elim (Result-cases (emit_unretweet e t.retweet_of_id tweet user o)) [
                        | is_err x q2 ↦ absurd (ground arith)
                        | is_ok o2 q2 ↦
                            let two = emit_unretweet-ok e t.retweet_of_id tweet user o o2 q2 in
                            let d : db'
                                ≡ record db { tweets = delete_tweet tweet db.tweets; outbox = o2 } =
                              ground arith in
                            rw (found, d)
                              (
                                ground arith,
                                λ k. find_tweet-delete_tweet tweet k db.tweets,
                                two ∙ ap (with_unretweet e t.retweet_of_id tweet user) one,
                              )
                      ]
                ]
    ]
