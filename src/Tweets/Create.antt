-- ===== src/Tweets/Create.antt =====
-- What a successful `Create` did.
use yaxter.Common.{
  ℕ, zero, suc, ◌≤◌, ◌≡◌, ◌⊎◌, All, ◌≢◌, refl, Bool, true, false, Option, none, some, List, [], ◌∷◌,
  ◌==◌, length, any, ok, arith, Bool-cases, Result-cases, is_ok, is_err, inl, inr,
}
use yaxter.Common.Decimal.{Text}
use yaxter.Events.{Message, Payload, codes, emit, emit-ok, event_key, created, retweeted}
use yaxter.Common.Sort.{DistinctKeys}
use yaxter.Users.Profile.{MediaRow}
use yaxter.Tweets.Ready.{IsReady, count_ready-full}
use yaxter.Tweets.{
  Tweet, Db, Error, Env, find_author, count_ready, row, lift, check, check_media, resolve,
  emit_retweet, stored_id, write_tweet, create, unavailable,
}

-- The row of an event in the outbox.
abbrev pub message : ℕ → Text → ℕ → Payload → Message
message id topic key p = record {
  id = id;
  topic = topic;
  key = event_key key;
  payload = record { event_id = id; payload = p };
}

pub lift-ok :
    (m i : Bool) (id : ℕ) (topic : Text) (key : ℕ) (p : Payload) (outbox outbox' : List Message)
    → lift (emit m i id topic (event_key key) p outbox) ≡ ok outbox'
    → outbox' ≡ message id topic key p ∷ outbox
lift-ok m i id topic key p outbox outbox' h =
    elim (Result-cases (emit m i id topic (event_key key) p outbox)) [
      | is_err x q ↦ absurd (ground arith)
      | is_ok o q ↦ let one = emit-ok m i id topic (event_key key) p outbox o q in ground arith
    ]

-- The events of a retweet; none for another tweet.
abbrev pub with_retweet : Env → ℕ → ℕ → ℕ → List Message → List Message
with_retweet e zero original author outbox = outbox
with_retweet e (suc n) original author outbox =
    message (e.fresh 2) (codes "engagements.v1") (suc n)
      (retweeted (suc n) (e.fresh 0) author original)
    ∷ outbox

emit_retweet-ok :
    (e : Env) (target original author : ℕ) (outbox outbox' : List Message)
    → emit_retweet e target original (e.fresh 0) author outbox ≡ ok outbox'
    → outbox' ≡ with_retweet e target original author outbox
unfolding emit_retweet
emit_retweet-ok e zero original author outbox outbox' h = ground arith
emit_retweet-ok e (suc n) original author outbox outbox' h =
    lift-ok (e.fails 8) (e.fails 9) (e.fresh 2) (codes "engagements.v1") (suc n)
      (retweeted (suc n) (e.fresh 0) author original) outbox outbox' h

-- What is written for a tweet.
abbrev Written : Env → ℕ → Text → List ℕ → ℕ → ℕ → ℕ → Db → Db → Tweet → Type 0
Written e author text media target original followers db db' t =
    (t ≡ record {
      id = e.fresh 0;
      author_id = author;
      text = text;
      retweet_of_id = stored_id target;
      media_ids = media;
    })
    × (any (λ u. u.id == e.fresh 0) db.tweets ≡ false)
    × (db' ≡ record db {
      tweets = t ∷ db.tweets;
      outbox = with_retweet e target original author (
          message (e.fresh 1) (codes "tweets.v1") author
            (created (e.fresh 0) author text target media followers)
          ∷ db.outbox);
    })

write_tweet-Written :
    (e : Env) (author : ℕ) (text : Text) (media : List ℕ) (target original followers : ℕ)
    (db db' : Db) (t : Tweet)
    → write_tweet e author text media (target, original) followers db ≡ ok (db', t)
    → Written e author text media target original followers db db' t
unfolding write_tweet
write_tweet-Written e author text media target original followers db db' t h =
    let p = created (e.fresh 0) author text target media followers in
    elim (Bool-cases (any (λ u. u.id == e.fresh 0) db.tweets)) [
      | inl used ↦ absurd (ground arith)
      | inr new ↦
          elim (Result-cases (
            lift (
              emit (e.fails 6) (e.fails 7) (e.fresh 1) (codes "tweets.v1") (event_key author) p
                db.outbox))) [
                  | is_err x q ↦ absurd (ground arith)
                  | is_ok o q ↦
                      let one =
                        lift-ok (e.fails 6) (e.fails 7) (e.fresh 1) (codes "tweets.v1") author p
                          db.outbox o q in
                      elim (Result-cases (emit_retweet e target original (e.fresh 0) author o)) [
                        | is_err x q' ↦ absurd (ground arith)
                        | is_ok o' q' ↦
                            let two = emit_retweet-ok e target original author o o' q' in
                            (ground arith, new, ground arith)
                      ]
                ]
    ]

check-Bounds :
    (text : Text) (media : List ℕ) (retweet_of : ℕ)
    → check text media retweet_of ≡ ok tt
    → (length text ≤ 280) × (length media ≤ 4) × (length text ≡ 0 → retweet_of ≢ 0)
unfolding check
check-Bounds text media retweet_of h = (ground arith, ground arith, ground arith)

check_media-ready :
    (fails : Bool) (media : List ℕ) (author : ℕ) (ms : List MediaRow)
    → check_media fails media author ms ≡ ok tt
    → (count_ready media author ms ≡ length media) ⊎ (media ≡ [])
unfolding check_media
check_media-ready fails [] author ms h = inr refl
check_media-ready fails (m ∷ media) author ms h = inl (ground arith)

-- The steps of a successful `Create`: the arguments are within their bounds, and one tweet and its
-- events are written for the target that `resolve` found.
abbrev pub Steps : Env → ℕ → Text → List ℕ → ℕ → Db → Db → Tweet → Type 0
Steps e author text media retweet_of db db' t =
    (length text ≤ 280)
    × (length media ≤ 4)
    × (length text ≡ 0 → retweet_of ≢ 0)
    × (count_ready media author db.media ≡ length media ⊎ (media ≡ []))
    × ((target : ℕ) × (original : ℕ) × (followers : ℕ) × (resolve e.fails retweet_of db.tweets
          ≡ ok (target, original))
        × (find_author author db.users ≡ some followers)
        × Written e author text media target original followers db db' t)

-- The same, with what the count of the media says of each.
abbrev pub Created : Env → ℕ → Text → List ℕ → ℕ → Db → Db → Tweet → Type 0
Created e author text media retweet_of db db' t =
    (length text ≤ 280)
    × (length media ≤ 4)
    × (length text ≡ 0 → retweet_of ≢ 0)
    × All (IsReady db.media author) media
    × ((target : ℕ) × (original : ℕ) × (followers : ℕ) × (resolve e.fails retweet_of db.tweets
          ≡ ok (target, original))
        × (find_author author db.users ≡ some followers)
        × Written e author text media target original followers db db' t)

pub row-some :
    {A : Type 0} (fails : Bool) (m : Error) (o : Option A) (a : A)
    → row fails m o ≡ ok a
    → o ≡ some a
row-some true m o a h = absurd (ground arith)
row-some false m none a h = absurd (ground arith)
row-some false m (some b) a h = ground arith

pub create-Steps :
    (e : Env) (author : ℕ) (text : Text) (media : List ℕ) (retweet_of : ℕ) (db db' : Db) (t : Tweet)
    → create e author text media retweet_of db ≡ ok (db', t)
    → Steps e author text media retweet_of db db' t
unfolding create
create-Steps e author text media retweet_of db db' t h =
    elim (Result-cases (check text media retweet_of)) [
      | is_err x q ↦ absurd (ground arith)
      | is_ok done q ↦ elim (Result-cases (check_media (e.fails 0) media author db.media)) [
        | is_err x q1 ↦ absurd (ground arith)
        | is_ok done1 q1 ↦ elim (Result-cases (resolve e.fails retweet_of db.tweets)) [
          | is_err x q2 ↦ absurd (ground arith)
          | is_ok (target, original) q2 ↦
              elim (Result-cases (row (e.fails 3) unavailable (find_author author db.users))) [
                | is_err x q3 ↦ absurd (ground arith)
                | is_ok followers q3 ↦
                    let (long, many, text') = check-Bounds text media retweet_of q in
                    (
                      long,
                      many,
                      text',
                      check_media-ready (e.fails 0) media author db.media q1,
                      (
                        target,
                        original,
                        followers,
                        q2,
                        row-some (e.fails 3) unavailable (find_author author db.users) followers q3,
                        write_tweet-Written e author text media target original followers db db' t
                            (ground arith),
                      ),
                    )
              ]
        ]
      ]
    ]

-- When the ids of `media` are distinct, a tweet that `Create` returns has at most 280 characters and 4
-- media, and a text unless it is a retweet. Each of its media has a row that is the author's and
-- ready. The tweet has the given author, text and media, and is the one new row of `tweets`,
-- under an id that was free; and exactly its `TweetCreated` event, and for a retweet the
-- `TweetRetweeted` event of the original, are added to the outbox, in the same transaction.
pub create-Created :
    (e : Env) (author : ℕ) (text : Text) (media : List ℕ) (retweet_of : ℕ) (db db' : Db) (t : Tweet)
    → DistinctKeys MediaRow.id db.media
    → create e author text media retweet_of db ≡ ok (db', t)
    → Created e author text media retweet_of db db' t
create-Created e author text media retweet_of db db' t distinct h =
    let (long, many, filled, counted, written) =
      create-Steps e author text media retweet_of db db' t h in
    (long, many, filled, each_ready media counted, written)
  where
    each_ready :
        (ids : List ℕ)
        → (count_ready ids author db.media ≡ length ids) ⊎ (ids ≡ [])
        → All (IsReady db.media author) ids
    each_ready [] c = tt
    each_ready (i ∷ ids) (inl c) = count_ready-full (i ∷ ids) author db.media distinct c
    each_ready (i ∷ ids) (inr e) = absurd (ground arith)
