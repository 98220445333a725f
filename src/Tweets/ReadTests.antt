-- ===== src/Tweets/ReadTests.antt =====
-- Reading a tweet that has just been written, with Redis as functions.
use yaxter.Common.{
  ℕ, ◌+◌, ◌≡◌, refl, Bool, true, false, Option, none, some, [], ◌∷◌, ◌==◌, if◌then◌else◌, Result,
  ok, err,
}
use yaxter.Common.Int.{pos}
use yaxter.Events.{emit, codes}
use yaxter.Redis.{answered}
use yaxter.Counters.{Delta, ◌⊕◌, or_zero, Hashes}
use yaxter.Tweets.{
  Tweet, Db, Error, Env, create, check, check_media, resolve, write_tweet, emit_retweet, tweet_of,
}
use yaxter.Tweets.Read.{Profile, get, create-get}

abbrev hashes : Hashes (ℕ → Option Delta)
hashes = record {
  counts = λ i h. h i;
  incr_by = λ j d h i. if i == j then some (or_zero (h j) ⊕ d) else h i;
  set_both = λ j d h i. if i == j then some d else h i;
  set_likes = λ j n h i.
      if i == j then some (record { likes = n; retweets = (or_zero (h j)).retweets }) else h i;
  counts_incr_by = λ i j d h. refl;
  counts_set_both = λ i j d h. refl;
  counts_set_likes = λ i j n h. refl;
}

abbrev calm : Env
calm = record { fails = λ n. false; fresh = λ n. 50 + n }

abbrev ann : Profile
ann = record { id = 3; username = codes "ann"; avatar_key = none }

abbrev before : Db
before = record { tweets = []; likes = []; users = (3, 0) ∷ []; media = []; outbox = [] }

abbrev added : Tweet
added = tweet_of calm 3 (codes "hi") [] 0

abbrev db_of : Result Error (Db × Tweet) → Db
db_of (ok (db, t)) = db
db_of (err e) = before

abbrev after : Db
after = db_of (create calm 3 (codes "hi") [] 0 before)

create-written : create calm 3 (codes "hi") [] 0 before ≡ ok (after, added)
unfolding create check check_media resolve write_tweet emit_retweet emit
    yaxter.Common.Decimal.decimal
create-written = refl

abbrev none_counted : Delta
none_counted = record { likes = pos 0; retweets = pos 0 }

create-get_example :
    (get hashes false
      (record { hash = answered; query_fails = true; warm = answered })
      50
      after.tweets
      (ann ∷ [])
      (record { id = 50; counted = none_counted } ∷ [])
      (λ i. none)).0
    ≡ ok (record {
      tweet = added;
      counted = none_counted;
      author_username = codes "ann";
      author_avatar_key = none;
    })
create-get_example =
    create-get hashes calm 3 (codes "hi") [] 0 before after added
      (record { hash = answered; query_fails = true; warm = answered }) (ann ∷ [])
      (record { id = 50; counted = none_counted } ∷ []) (λ i. none) ann none_counted create-written
      refl refl
