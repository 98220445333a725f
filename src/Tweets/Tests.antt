-- ===== src/Tweets/Tests.antt =====
-- Tweets on a small table.
use yaxter.Common.{
  ℕ, zero, suc, ◌+◌, ◌≡◌, ◌≢◌, refl, Bool, true, false, Option, none, some, List, [], ◌∷◌, Result,
  ok, err, arith, length, inl, inr,
}
use yaxter.Events.{emit}
use yaxter.Tweets.{
  Tweet, Db, Error, not_found, unavailable, forbidden, Env, create, check, check_media, resolve,
  write_tweet, emit_retweet, tweet_of, delete, delete_tweet, emit_unretweet, set_like, apply_like,
}
use yaxter.Tweets.Create.{Created, create-Created}
use yaxter.Tweets.Flat.{Flat, create-Flat}
use yaxter.Tweets.Likes.{Liked, set_like-Liked}
use yaxter.Tweets.Delete.{Deleted, delete-Deleted}
use yaxter.Users.{add_edge}

abbrev tweet : ℕ → ℕ → Option ℕ → Tweet
tweet n author retweet_of = record {
  id = n;
  author_id = author;
  text = 104 ∷ 105 ∷ [];
  retweet_of_id = retweet_of;
  media_ids = [];
}

-- 1 wrote tweet 5, and 2 retweeted it as 6; 7 is a retweet of a deleted tweet.
abbrev start : Db
start = record {
  tweets = tweet 7 2 (some 4) ∷ tweet 6 2 (some 5) ∷ tweet 5 1 none ∷ [];
  likes = [];
  users = (1, 10) ∷ (2, 20) ∷ (3, 0) ∷ [];
  media = [];
  outbox = [];
}

abbrev calm : Env
calm = record { fails = λ n. false; fresh = λ n. 50 + n }

abbrev result_db : Result Error (Db × Tweet) → Db
result_db (ok (db, t)) = db
result_db (err e) = start

abbrev added : Tweet
added = tweet_of calm 3 [] [] 5

abbrev after : Db
after = result_db (create calm 3 [] [] 6 start)

create-flattened : create calm 3 [] [] 6 start ≡ ok (after, added)
unfolding create check check_media resolve write_tweet emit_retweet emit
    yaxter.Common.Decimal.decimal
create-flattened = refl

-- 3 writes a tweet with two media.
abbrev with_media : Db
with_media = record start {
  media =
      record { id = 8; owner_id = 3; ready = true }
      ∷ record { id = 9; owner_id = 3; ready = true }
      ∷ record { id = 10; owner_id = 1; ready = false }
      ∷ [];
}

abbrev after_media : Db
after_media = result_db (create calm 3 (104 ∷ []) (9 ∷ 8 ∷ []) 0 with_media)

abbrev added_media : Tweet
added_media = tweet_of calm 3 (104 ∷ []) (9 ∷ 8 ∷ []) 0

create-pictured : create calm 3 (104 ∷ []) (9 ∷ 8 ∷ []) 0 with_media ≡ ok (after_media, added_media)
unfolding create check check_media resolve write_tweet emit_retweet emit
    yaxter.Common.Decimal.decimal
create-pictured = refl

create-Created_example : Created calm 3 (104 ∷ []) (9 ∷ 8 ∷ []) 0 with_media after_media added_media
create-Created_example =
    create-Created calm 3 (104 ∷ []) (9 ∷ 8 ∷ []) 0 with_media after_media added_media
      (refl, (refl, (refl, tt))) create-pictured

create-Flat_example : Flat after.tweets
create-Flat_example =
    create-Flat calm 3 [] [] 6 start after added create-flattened
      (
        (λ p. absurd (omega arith), λ p. absurd (ground arith)),
        (
          (λ p. absurd (omega arith), λ p. absurd (ground arith)),
          ((λ p. absurd (omega arith), λ p. absurd (ground arith)), tt),
        ),
      )
      (tt, (refl, (tt, tt)))

-- The target is a retweet whose original was deleted: the caller gets an internal error, not
-- `ErrNotFound`.
create-dangling : create calm 3 [] [] 7 start ≡ err unavailable
unfolding create check check_media resolve
create-dangling = refl

create-missing : create calm 3 [] [] 9 start ≡ err not_found
unfolding create check check_media resolve
create-missing = refl

-- Only the author may delete.
delete-forbidden : delete calm 3 5 start ≡ err forbidden
unfolding delete
delete-forbidden = refl

abbrev after_like : Db
after_like = result (set_like calm 3 5 true start)
  where
    result : Result Error Db → Db
    result (ok db) = db
    result (err e) = start

set_like-Liked_example : Liked calm 3 5 true start after_like (some (tweet 5 1 none))
unfolding set_like apply_like emit add_edge yaxter.Common.Decimal.decimal
set_like-Liked_example = set_like-Liked calm 3 5 true start after_like refl

abbrev after_delete : Db
after_delete = result (delete calm 2 6 start)
  where
    result : Result Error Db → Db
    result (ok db) = db
    result (err e) = start

delete-Deleted_example : Deleted calm 2 6 start after_delete (some (tweet 6 2 (some 5)))
unfolding delete delete_tweet emit_unretweet emit yaxter.Common.Decimal.decimal
delete-Deleted_example = delete-Deleted calm 2 6 start after_delete refl
