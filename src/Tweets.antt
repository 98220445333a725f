-- ===== src/Tweets.antt =====
-- internal/tweets: writing, deleting and liking tweets. Each call runs its writes in one transaction,
-- which is rolled back unless it commits: an error leaves the tables as they were.
pub mod Ready
pub mod Create
pub mod Flat
pub mod Likes
pub mod Delete
pub mod Read
pub mod Caches
mod ReadTests
mod Tests
use yaxter.Common.{
  ℕ, zero, suc, ◌+◌, Bool, true, false, not, ◌&&◌, ◌||◌, Option, none, some, List, [], ◌∷◌, ltb,
  leb, ◌==◌, if◌then◌else◌, length, contains, any, Result, ok, err, ◌>>=◌, ◌>>◌, guard,
}
use yaxter.Common.Decimal.{Text}
use yaxter.Events.{
  Message, EmitError, Payload, codes, emit, event_key, created, deleted, liked, unliked, retweeted,
  unretweeted,
}
use yaxter.Users.{Edge, edge_eq, has_edge, remove_edge, add_edge}
use yaxter.Users.Profile.{MediaRow}

-- A row of `tweets`; `Tweet` and the columns that the write path uses.
pub record Tweet : Type 0 where
  pub id : ℕ
  pub author_id : ℕ
  pub text : Text
  pub retweet_of_id : Option ℕ
  pub media_ids : List ℕ

-- What is read of a row of `users`: the id and `followers_count`.
abbrev pub Author : Type 0
Author = ℕ × ℕ

-- A row of `likes` is (user_id, tweet_id).
pub record Db : Type 0 where
  pub tweets : List Tweet
  pub likes : List Edge
  pub users : List Author
  pub media : List MediaRow
  pub outbox : List Message

pub data Error : Type 0 where
  validation not_found forbidden media_not_ready unavailable : Error
  emit_failed : EmitError → Error

-- Which call to the database (or to `proto.Marshal`) fails, and the ids that `s.ids.Next()` gives.
pub record Env : Type 0 where
  pub fails : ℕ → Bool
  pub fresh : ℕ → ℕ

-- `SELECT … FROM tweets WHERE id = $1`
abbrev pub find_tweet : ℕ → List Tweet → Option Tweet
find_tweet id [] = none
find_tweet id (t ∷ ts) = if t.id == id then some t else find_tweet id ts

abbrev pub find_author : ℕ → List Author → Option ℕ
find_author id [] = none
find_author id ((a, count) ∷ us) = if a == id then some count else find_author id us

-- `SELECT count(*) FROM media WHERE id = ANY($1) AND owner_id = $2 AND status = 'ready'`
abbrev pub count_ready : List ℕ → ℕ → List MediaRow → ℕ
count_ready ids owner [] = 0
count_ready ids owner (m ∷ ms) =
    (if contains m.id ids && (m.owner_id == owner && m.ready) then 1 else 0)
    + count_ready ids owner ms

abbrev pub row : {A : Type 0} → Bool → Error → Option A → Result Error A
row true missing o = err unavailable
row false missing none = err missing
row false missing (some a) = ok a

abbrev pub lift : Result EmitError (List Message) → Result Error (List Message)
lift (ok outbox) = ok outbox
lift (err e) = err (emit_failed e)

-- The tests of the arguments.
unfoldable pub check : Text → List ℕ → ℕ → Result Error (Unit {0})
check text media retweet_of = do
  guard (leb (length text) 280) validation
  guard (not (length text == 0 && retweet_of == 0)) validation
  guard (leb (length media) 4) validation

unfoldable pub check_media : Bool → List ℕ → ℕ → List MediaRow → Result Error (Unit {0})
check_media fails [] author ms = ok tt
check_media fails (m ∷ media) author ms = do
  guard (not fails) unavailable
  guard (count_ready (m ∷ media) author ms == length (m ∷ media)) media_not_ready

-- A retweet of a retweet points to the original: the id that is stored, and its author. The second
-- query's `ErrNoRows` is not told apart.
abbrev pub flatten : Bool → List Tweet → Tweet → Result Error (ℕ × ℕ)
flatten fails ts t = elim t.retweet_of_id [
  | none ↦ ok (t.id, t.author_id)
  | some original ↦
      row fails unavailable (find_tweet original ts) >>= λ o. ok (original, o.author_id)
]

unfoldable pub resolve : (ℕ → Bool) → ℕ → List Tweet → Result Error (ℕ × ℕ)
resolve fails zero ts = ok (0, 0)
resolve fails (suc n) ts = row (fails 1) not_found (find_tweet (suc n) ts) >>= flatten (fails 2) ts

abbrev pub stored_id : ℕ → Option ℕ
stored_id zero = none
stored_id (suc n) = some (suc n)

-- `INSERT INTO tweets`; the primary key refuses an id that is there.
abbrev pub insert_tweet : Bool → Tweet → List Tweet → Result Error (List Tweet)
insert_tweet fails t ts =
    if fails || any (λ u. u.id == t.id) ts then err unavailable else ok (t ∷ ts)

-- The engagement event of a retweet.
unfoldable pub emit_retweet : Env → ℕ → ℕ → ℕ → ℕ → List Message → Result Error (List Message)
emit_retweet e zero original tweet author outbox = ok outbox
emit_retweet e (suc n) original tweet author outbox = lift (
    emit (e.fails 8) (e.fails 9) (e.fresh 2) (codes "engagements.v1") (event_key (suc n))
      (retweeted (suc n) tweet author original) outbox)

-- The tweet that is written.
abbrev pub tweet_of : Env → ℕ → Text → List ℕ → ℕ → Tweet
tweet_of e author text media target = record {
  id = e.fresh 0;
  author_id = author;
  text = text;
  retweet_of_id = stored_id target;
  media_ids = media;
}

-- The transaction of `Create`.
unfoldable pub write_tweet : Env → ℕ → Text → List ℕ → ℕ × ℕ → ℕ → Db → Result Error (Db × Tweet)
write_tweet e author text media (target, original) followers db = do
  guard (not (e.fails 4)) unavailable
  tweets ← insert_tweet (e.fails 5) (tweet_of e author text media target) db.tweets
  outbox ← lift (
      emit (e.fails 6) (e.fails 7) (e.fresh 1) (codes "tweets.v1") (event_key author)
        (created (e.fresh 0) author text target media followers) db.outbox)
  outbox ← emit_retweet e target original (e.fresh 0) author outbox
  guard (not (e.fails 10)) unavailable
  ok (record db { tweets = tweets; outbox = outbox }, tweet_of e author text media target)

-- `Create`, up to the caches
unfoldable pub create : Env → ℕ → Text → List ℕ → ℕ → Db → Result Error (Db × Tweet)
create e author text media retweet_of db = do
  check text media retweet_of
  check_media (e.fails 0) media author db.media
  target ← resolve e.fails retweet_of db.tweets
  followers ← row (e.fails 3) unavailable (find_author author db.users)
  write_tweet e author text media target followers db

-- `DELETE FROM tweets WHERE id = $1`
unfoldable pub delete_tweet : ℕ → List Tweet → List Tweet
delete_tweet id [] = []
delete_tweet id (t ∷ ts) = if t.id == id then delete_tweet id ts else t ∷ delete_tweet id ts

unfoldable pub emit_unretweet : Env → Option ℕ → ℕ → ℕ → List Message → Result Error (List Message)
emit_unretweet e none tweet user outbox = ok outbox
emit_unretweet e (some original) tweet user outbox = lift (
    emit (e.fails 5) (e.fails 6) (e.fresh 1) (codes "engagements.v1") (event_key original)
      (unretweeted original tweet user) outbox)

-- `Delete`, up to the caches
unfoldable pub delete : Env → ℕ → ℕ → Db → Result Error Db
delete e user tweet db = do
  t ← row (e.fails 0) not_found (find_tweet tweet db.tweets)
  guard (t.author_id == user) forbidden
  guard (not (e.fails 1)) unavailable
  guard (not (e.fails 2)) unavailable
  outbox ← lift (
      emit (e.fails 3) (e.fails 4) (e.fresh 0) (codes "tweets.v1") (event_key t.author_id)
        (deleted tweet t.author_id) db.outbox)
  outbox ← emit_unretweet e t.retweet_of_id tweet user outbox
  guard (not (e.fails 7)) unavailable
  ok (record db { tweets = delete_tweet tweet db.tweets; outbox = outbox })

abbrev pub like_changes : Bool → ℕ → ℕ → List Edge → Bool
like_changes like user tweet es =
    if like then not (has_edge user tweet es) else has_edge user tweet es

abbrev pub write_like : Bool → ℕ → ℕ → List Edge → List Edge
write_like like user tweet es = if like then add_edge user tweet es else remove_edge user tweet es

abbrev pub like_event : Bool → ℕ → ℕ → ℕ → Payload
like_event like tweet user author =
    if like then liked tweet user author else unliked tweet user author

-- The rest of `setLike`, once its statement has changed a row.
unfoldable pub apply_like : Env → ℕ → ℕ → ℕ → Bool → Db → Result Error Db
apply_like e user tweet author like db = do
  outbox ← lift (
      emit (e.fails 3) (e.fails 4) (e.fresh 0) (codes "engagements.v1") (event_key tweet)
        (like_event like tweet user author) db.outbox)
  guard (not (e.fails 5)) unavailable
  ok (record db { likes = write_like like user tweet db.likes; outbox = outbox })

-- `setLike`, which is `Like` and `Unlike`
unfoldable pub set_like : Env → ℕ → ℕ → Bool → Db → Result Error Db
set_like e user tweet like db = do
  t ← row (e.fails 0) not_found (find_tweet tweet db.tweets)
  guard (not (e.fails 1)) unavailable
  guard (not (e.fails 2)) unavailable
  if like_changes like user tweet db.likes
      then apply_like e user tweet t.author_id like db
      else ok db
