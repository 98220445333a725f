-- ===== src/Api/Tweets.antt =====
-- internal/httpapi/tweets_handlers.go and likes_handlers.go. The operations of the service are arguments:
-- they take the state and give it back with their result.
use yaxter.Common.{ℕ, Option, none, some, List, [], ◌∷◌, ◌++◌, Result, ok, err}
use yaxter.Common.Int.{ℤ, pos}
use yaxter.Common.Decimal.{Text}
use yaxter.Events.{codes}
use yaxter.Tweets.{Error, validation, not_found, forbidden, media_not_ready}
use yaxter.Api.{Reply, json, failure, empty, as_user, with_id}

-- `CreateTweetRequest`
pub record CreateRequest : Type 0 where
  pub text : Text
  pub media_ids : List Text
  pub retweet_of_id : Option Text

module _ {B : Type 0} where
  abbrev pub create_error : Error → Reply B
  create_error validation = failure 400 (codes "validation_failed")
  create_error not_found = failure 404 (codes "not_found")
  create_error media_not_ready = failure 422 (codes "media_not_ready")
  create_error e = failure 500 (codes "internal")

  abbrev pub get_error : Error → Reply B
  get_error not_found = failure 404 (codes "not_found")
  get_error e = failure 500 (codes "internal")

  abbrev pub delete_error : Error → Reply B
  delete_error not_found = failure 404 (codes "not_found")
  delete_error forbidden = failure 403 (codes "forbidden")
  delete_error e = failure 500 (codes "internal")

  abbrev pub got : Result Error B → Reply B
  got (ok t) = json 200 t
  got (err e) = get_error e

  -- The tweet is read back after it is created.
  abbrev pub read_back : Result Error B → Reply B
  read_back (ok t) = json 201 t
  read_back (err e) = failure 500 (codes "internal")

module _ {B S : Type 0} where
  -- The loop over the media ids, which ends at the first that is no number.
  media_ids : List Text → List ℤ → S → (List ℤ → Reply B × S) → Reply B × S
  media_ids [] done s k = k done
  media_ids (t ∷ ts) done s k =
      with_id t (failure 400 (codes "validation_failed")) s
        (λ id. media_ids ts (done ++ id ∷ []) s k)

  retweet_id : Option Text → S → (ℤ → Reply B × S) → Reply B × S
  retweet_id none s k = k (pos 0)
  retweet_id (some t) s k = with_id t (failure 400 (codes "validation_failed")) s k

  created : (ℕ → S → Result Error B) → Result Error ℕ × S → Reply B × S
  created get (ok id, s) = (read_back (get id s), s)
  created get (err e, s) = (create_error e, s)

  create_body :
      (ℕ → Text → List ℤ → ℤ → S → Result Error ℕ × S)
      → (ℕ → S → Result Error B)
      → ℕ
      → Option CreateRequest
      → S
      → Reply B × S
  create_body create get uid none s = (failure 400 (codes "malformed_body"), s)
  create_body create get uid (some q) s =
      retweet_id q.retweet_of_id s
        (λ of_id. media_ids q.media_ids [] s (λ ids. created get (create uid q.text ids of_id s)))

  -- `Create`; the body is none if it is no JSON of its type.
  unfoldable pub create_tweet :
      (ℕ → Text → List ℤ → ℤ → S → Result Error ℕ × S)
      → (ℕ → S → Result Error B)
      → Option ℕ
      → Option CreateRequest
      → S
      → Reply B × S
  unfolding create_body created retweet_id media_ids
  create_tweet create get user body s = as_user user s (λ uid. create_body create get uid body s)

  -- `Get`
  unfoldable pub get_tweet : (ℤ → Result Error B) → Text → S → Reply B × S
  get_tweet get id s =
      with_id id (failure 400 (codes "validation_failed")) s (λ n. (got (get n), s))

  abbrev pub deleted : Result Error (Unit {0}) × S → Reply B × S
  deleted (ok t, s) = (empty 204, s)
  deleted (err e, s) = (delete_error e, s)

  -- `Delete`
  unfoldable pub delete_tweet :
      (ℕ → ℤ → S → Result Error (Unit {0}) × S) → Option ℕ → Text → S → Reply B × S
  delete_tweet delete user id s = as_user user s (λ uid.
      with_id id (failure 400 (codes "validation_failed")) s (λ n. deleted (delete uid n s)))

  abbrev pub liked : Result Error (Unit {0}) × S → Reply B × S
  liked (ok t, s) = (empty 204, s)
  liked (err e, s) = (get_error e, s)

  -- `setLike`, with `Like` or `Unlike`.
  unfoldable pub set_like :
      (ℕ → ℤ → S → Result Error (Unit {0}) × S) → Option ℕ → Text → S → Reply B × S
  set_like like user id s =
      as_user user s
        (λ uid. with_id id (failure 404 (codes "not_found")) s (λ n. liked (like uid n s)))
