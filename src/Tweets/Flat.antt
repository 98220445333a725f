-- ===== src/Tweets/Flat.antt =====
-- Retweets are flattened: no retweet points to a retweet.
use mathlib.Core.Path.{subst}
use yaxter.Common.{
  ◌∙◌, ◌⊎◌, ℕ, zero, suc, ◌≡◌, ◌≢◌, refl, sym, ap, ◌∙◌, Bool, true, false, Option, none, some, List,
  [], ◌∷◌, ◌==◌, ok, arith, Bool-cases, Option-cases, Result-cases, is_ok, is_err, inl, inr, All,
}
use yaxter.Common.Decimal.{Text}
use yaxter.Tweets.{
  Tweet, Db, Env, find_tweet, row, flatten, resolve, stored_id, tweet_of, create, not_found,
}
use yaxter.Tweets.Create.{row-some, create-Steps}

-- A row that is there, and is no retweet itself; or none.
abbrev Original : Option Tweet → Type 0
Original none = Unit
Original (some t) = t.retweet_of_id ≡ none

abbrev Points : List Tweet → Option ℕ → Type 0
Points ts none = Unit
Points ts (some id) = Original (find_tweet id ts)

-- Every retweet points to an original, or to a tweet that was deleted.
abbrev pub Flat : List Tweet → Type 0
Flat ts = All (λ t. Points ts t.retweet_of_id) ts

-- No row has the id or points to it.
abbrev pub IsFree : ℕ → List Tweet → Type 0
IsFree id ts = All (λ t. (t.id ≢ id) × (t.retweet_of_id ≢ some id)) ts

find_tweet-id : (id : ℕ) (ts : List Tweet) (t : Tweet) → find_tweet id ts ≡ some t → t.id ≡ id
find_tweet-id id [] t h = absurd (ground arith)
find_tweet-id id (u ∷ ts) t h = ground (arith, find_tweet-id id ts t)

find_tweet-All :
    (P : Tweet → Type 0) (id : ℕ) (ts : List Tweet) (t : Tweet)
    → All P ts
    → find_tweet id ts ≡ some t
    → P t
find_tweet-All P id [] t a h = absurd (ground arith)
find_tweet-All P id (u ∷ ts) t a h = elim (Bool-cases (u.id == id)) [
  | inl this ↦ let same : u ≡ t = ground arith in subst P same a.0
  | inr other ↦ find_tweet-All P id ts t a.1 (ground arith)
]

-- What `resolve` gives: nothing to point to, or an original that is there.
abbrev Target : List Tweet → ℕ → Type 0
Target ts id = (id ≡ 0) ⊎ ((t : Tweet) × (find_tweet id ts ≡ some t) × (t.retweet_of_id ≡ none))

flatten-gone :
    (fails : Bool) (ts : List Tweet) (t : Tweet) (k target original : ℕ)
    → t.retweet_of_id ≡ some k
    → find_tweet k ts ≡ none
    → flatten fails ts t ≡ ok (target, original)
    → ⊥
flatten-gone true ts t k target original q g h = ground arith
flatten-gone false ts t k target original q g h = ground arith

flatten-found :
    (fails : Bool) (ts : List Tweet) (t o : Tweet) (k target original : ℕ)
    → t.retweet_of_id ≡ some k
    → find_tweet k ts ≡ some o
    → flatten fails ts t ≡ ok (target, original)
    → k ≡ target
flatten-found true ts t o k target original q g h = absurd (ground arith)
flatten-found false ts t o k target original q g h = ground arith

flatten-Target :
    (fails : Bool) (ts : List Tweet) (t : Tweet) (o : Option ℕ) (target original : ℕ)
    → t.retweet_of_id ≡ o
    → Points ts o
    → find_tweet t.id ts ≡ some t
    → flatten fails ts t ≡ ok (target, original)
    → Target ts target
flatten-Target fails ts t none target original q p f h =
    let same : t.id ≡ target = ground arith in
    inr (t, subst (λ n. find_tweet n ts ≡ some t) same f, q)
flatten-Target fails ts t (some k) target original q p f h = elim (Option-cases (find_tweet k ts)) [
  | inl gone ↦ absurd (flatten-gone fails ts t k target original q gone h)
  | inr (o, found) ↦
      let same : k ≡ target = flatten-found fails ts t o k target original q found h in
      inr (o, subst (λ n. find_tweet n ts ≡ some o) same found, rw found at p)
]

resolve-Target :
    (fails : ℕ → Bool) (n target original : ℕ) (ts : List Tweet)
    → Flat ts
    → resolve fails n ts ≡ ok (target, original)
    → Target ts target
unfolding resolve
resolve-Target fails zero target original ts flat h = inl (ground arith)
resolve-Target fails (suc n) target original ts flat h =
    elim (Result-cases (row (fails 1) not_found (find_tweet (suc n) ts))) [
      | is_err x q ↦ absurd (ground arith)
      | is_ok t q ↦
          let found = row-some (fails 1) not_found (find_tweet (suc n) ts) t q in
          let id = find_tweet-id (suc n) ts t found in
          flatten-Target (fails 2) ts t t.retweet_of_id target original refl
            (find_tweet-All (λ u. Points ts u.retweet_of_id) (suc n) ts t flat found)
            (ap (λ k. find_tweet k ts) id ∙ found) (ground arith)
    ]

-- A new row hides no other.
Points-cons :
    (t : Tweet) (ts : List Tweet) (o : Option ℕ) → o ≢ some t.id → Points ts o → Points (t ∷ ts) o
Points-cons t ts none ne p = tt
Points-cons t ts (some k) ne p = let other : (t.id == k) ≡ false = ground arith in rw other p

Flat-cons :
    (t : Tweet) (all ts : List Tweet)
    → IsFree t.id ts
    → All (λ u. Points all u.retweet_of_id) ts
    → All (λ u. Points (t ∷ all) u.retweet_of_id) ts
Flat-cons t all [] free flat = tt
Flat-cons t all (u ∷ ts) free flat =
    (Points-cons t all u.retweet_of_id free.0.1 flat.0, Flat-cons t all ts free.1 flat.1)

free-find :
    (id k : ℕ) (ts : List Tweet) (t : Tweet) → IsFree id ts → find_tweet k ts ≡ some t → k ≢ id
free-find id k [] t free h = absurd (ground arith)
free-find id k (u ∷ ts) t free h = elim (Bool-cases (u.id == k)) [
  | inl this ↦ λ same. free.0.0 (ground arith)
  | inr other ↦ free-find id k ts t free.1 (ground arith)
]

Target-Points :
    (t : Tweet) (ts : List Tweet) (target : ℕ)
    → IsFree t.id ts
    → Target ts target
    → Points (t ∷ ts) (stored_id target)
Target-Points t ts zero free x = tt
Target-Points t ts (suc k) free (inl z) = absurd (omega arith)
Target-Points t ts (suc k) free (inr (o, found, original)) =
    let ne = free-find t.id (suc k) ts o free found in
    let other : (t.id == suc k) ≡ false = ground arith in rw (other, found) original

-- `Create` keeps the tweets flat: a retweet of a retweet points to the original, if the new id is
-- that of no row and no row points to it.
pub create-Flat :
    (e : Env) (author : ℕ) (text : Text) (media : List ℕ) (retweet_of : ℕ) (db db' : Db) (t : Tweet)
    → create e author text media retweet_of db ≡ ok (db', t)
    → IsFree (e.fresh 0) db.tweets
    → Flat db.tweets
    → Flat db'.tweets
create-Flat e author text media retweet_of db db' t h free flat =
    let (long, many, text', ready, done) = create-Steps e author text media retweet_of db db' t h in
    let (target, original, followers, found, counted, written) = done in
    let added = tweet_of e author text media target in
    let all : db'.tweets ≡ added ∷ db.tweets =
      ap Db.tweets written.2 ∙ ap (λ x. x ∷ db.tweets) written.0 in
    subst Flat (sym all) (
      Target-Points added db.tweets target free
          (resolve-Target e.fails retweet_of target original db.tweets flat found),
      Flat-cons added db.tweets db.tweets free flat,
    )
