-- ===== src/Tweets/Read.antt =====
-- internal/tweets/hydrate.go: `Get`, on the table `tweets` with its counts and on `users`. Creation times are
-- left out.
use yaxter.Common.{
  ℕ, ◌≡◌, refl, ap, sym, ◌∙◌, Bool, true, false, Option, none, some, List, [], ◌∷◌, ◌==◌,
  if◌then◌else◌, Result, ok, err, arith,
}
use yaxter.Common.Decimal.{Text}
use yaxter.Counters.{Delta, Hashes, Row}
use yaxter.Counters.Read.{ReadEnv, columns, read, hash_of, Answers, read-Answers}
use yaxter.Tweets.{Tweet, Db, Env, Error, not_found, unavailable, find_tweet, create}
use yaxter.Tweets.Create.{create-Steps}

-- What is read of a row of `users`.
pub record Profile : Type 0 where
  pub id : ℕ
  pub username : Text
  pub avatar_key : Option Text

-- `HydratedTweet`
pub record Hydrated : Type 0 where
  pub tweet : Tweet
  pub counted : Delta
  pub author_username : Text
  pub author_avatar_key : Option Text

abbrev pub find_profile : ℕ → List Profile → Option Profile
find_profile id [] = none
find_profile id (u ∷ us) = if u.id == id then some u else find_profile id us

-- `tweets t JOIN users u ON u.id = t.author_id`, with the counts of the row.
abbrev pub with_author : Tweet → Option Delta → Option Profile → Option Hydrated
with_author t none u = none
with_author t (some d) none = none
with_author t (some d) (some u) = some (record {
  tweet = t;
  counted = d;
  author_username = u.username;
  author_avatar_key = u.avatar_key;
})

abbrev pub joined : Option Tweet → List Profile → List Row → Option Hydrated
joined none users rows = none
joined (some t) users rows = with_author t (columns t.id rows) (find_profile t.author_id users)

module _ {H : Type 0} (h : Hashes H) where
  -- The counts of `counters.Read`, when it gives some.
  abbrev pub with_counts : Hydrated → Result (Unit {0}) Delta × H → Result Error Hydrated × H
  with_counts t (ok d, s) = (ok (record t { counted = d }), s)
  with_counts t (err e, s) = (ok t, s)

  scanned : ReadEnv → ℕ → List Row → H → Option Hydrated → Result Error Hydrated × H
  scanned e id rows s none = (err not_found, s)
  scanned e id rows s (some t) = with_counts t (read h e id rows s)

  -- `Get`
  unfoldable pub get :
      Bool → ReadEnv → ℕ → List Tweet → List Profile → List Row → H → Result Error Hydrated × H
  unfolding scanned
  get fails e id tweets users rows s =
      if fails
      then (err unavailable, s)
      else scanned e id rows s (joined (find_tweet id tweets) users rows)

find_tweet-id : (id : ℕ) (ts : List Tweet) {t : Tweet} → find_tweet id ts ≡ some t → t.id ≡ id
find_tweet-id id [] h = absurd (ground arith)
find_tweet-id id (x ∷ ts) {t} h = ground (arith, find_tweet-id id ts {t = t})

-- The counts of the hash when there are some, and else those of the row.
abbrev pub counts_or : Option Delta → Delta → Delta
counts_or none d = d
counts_or (some c) d = c

with_author-columns :
    (x : Tweet) (d : Option Delta) (u : Option Profile) {t : Hydrated}
    → with_author x d u ≡ some t
    → d ≡ some t.counted
with_author-columns x none u h = absurd (ground arith)
with_author-columns x (some d) none h = absurd (ground arith)
with_author-columns x (some d) (some u) h = ground arith

joined-columns :
    (id : ℕ) (tweets : List Tweet) (users : List Profile) (rows : List Row) (o : Option Tweet)
    {t : Hydrated}
    → find_tweet id tweets ≡ o
    → joined o users rows ≡ some t
    → columns id rows ≡ some t.counted
joined-columns id tweets users rows none q h = absurd (ground arith)
joined-columns id tweets users rows (some x) q h =
    ap (λ i. columns i rows) (sym (find_tweet-id id tweets q))
    ∙ with_author-columns x (columns x.id rows) (find_profile x.author_id users) h

create-row :
    (e : Env) (author : ℕ) (text : Text) (media : List ℕ) (retweet_of : ℕ) (db db' : Db) (t : Tweet)
    → create e author text media retweet_of db ≡ ok (db', t)
    → (db'.tweets ≡ t ∷ db.tweets) × (t.author_id ≡ author)
create-row e author text media retweet_of db db' t made =
    let c = create-Steps e author text media retweet_of db db' t made in
    let (target, original, followers, resolved, known, written) = c.4 in
    (ap (λ x. x.tweets) written.2, ap (λ x. x.author_id) written.0)

joined-own :
    (t : Tweet) (ts : List Tweet) (users : List Profile) (rows : List Row) (author : ℕ)
    (u : Profile) (d : Delta)
    → t.author_id ≡ author
    → find_profile author users ≡ some u
    → columns t.id rows ≡ some d
    → joined (find_tweet t.id (t ∷ ts)) users rows
      ≡ some (record {
        tweet = t;
        counted = d;
        author_username = u.username;
        author_avatar_key = u.avatar_key;
      })
joined-own t ts users rows author u d own named counted =
    let same : (t.id == t.id) ≡ true = ground arith in
    let name = ap (λ a. find_profile a users) own ∙ named in rw (same, counted, name) refl

module _ {H : Type 0} (h : Hashes H) where
  with_counts-Answers :
      (t : Hydrated) (c : Option Delta) (column : Option Delta) (r : Result (Unit {0}) Delta)
      (s : H)
      → column ≡ some t.counted
      → Answers c column r
      → (with_counts h t (r, s)).0 ≡ ok (record t { counted = counts_or c t.counted })
  with_counts-Answers t c none r s q a = absurd (ground arith)
  with_counts-Answers t none (some d) (ok x) s q a =
      let same : x ≡ t.counted = ground (arith, a) in ap (λ y. ok (record t { counted = y })) same
  with_counts-Answers t none (some d) (err e) s q a = refl
  with_counts-Answers t (some c) (some d) (ok x) s q a = ap (λ y. ok (record t { counted = y })) a
  with_counts-Answers t (some c) (some d) (err e) s q a = absurd a

  -- A tweet that the query finds with its author is answered, whatever becomes of Redis and of the
  -- second query: its counts are those of the hash when Redis gives one, and else those of its row.
  pub get-Hydrated :
      (e : ReadEnv) (id : ℕ) (tweets : List Tweet) (users : List Profile) (rows : List Row) (s : H)
      (t : Hydrated)
      → joined (find_tweet id tweets) users rows ≡ some t
      → (get h false e id tweets users rows s).0
        ≡ ok (record t { counted = counts_or (hash_of h e.hash id s) t.counted })
  unfolding get scanned
  get-Hydrated e id tweets users rows s t found =
      let column = joined-columns id tweets users rows (find_tweet id tweets) refl found in
      let r = read h e id rows s in
      rw found (
        with_counts-Answers t (hash_of h e.hash id s) (columns id rows) r.0 r.1 column
          (read-Answers h e id rows s).0)

  -- A tweet that `Create` has returned is read by `Get` with the name and the avatar of its author and
  -- with its counts, when the query works, the author has a row and the row of the tweet its counts.
  pub create-get :
      (ec : Env) (author : ℕ) (text : Text) (media : List ℕ) (retweet_of : ℕ) (db db' : Db)
      (t : Tweet) (e : ReadEnv) (users : List Profile) (rows : List Row) (s : H) (u : Profile)
      (d : Delta)
      → create ec author text media retweet_of db ≡ ok (db', t)
      → find_profile author users ≡ some u
      → columns t.id rows ≡ some d
      → (get h false e t.id db'.tweets users rows s).0
        ≡ ok (record {
          tweet = t;
          counted = counts_or (hash_of h e.hash t.id s) d;
          author_username = u.username;
          author_avatar_key = u.avatar_key;
        })
  create-get ec author text media retweet_of db db' t e users rows s u d made named counted =
      let (rows', own) = create-row ec author text media retweet_of db db' t made in
      rw rows' (
        get-Hydrated e t.id (t ∷ db.tweets) users rows s _
          (joined-own t db.tweets users rows author u d own named counted))
