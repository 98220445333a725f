-- ===== src/Timeline/Hydrate.antt =====
-- internal/timeline/timeline.go, `hydratePage` and `Profile`: tweets for ids, without the deleted
-- ones. The answer for an id, from the loader and `tweets.Get`, is an argument.
use yaxter.Common.{
  ℕ, ◌+◌, Bool, not, ◌&&◌, Option, none, some, List, [], ◌∷◌, ◌++◌, leb, ◌==◌, if◌then◌else◌,
  length, Result, ok, err, ◌>>=◌,
}
use yaxter.Paging.{query, cut_page, last_key}
use yaxter.Timeline.{Db, Error, user_not_found, unavailable, TweetRow, id_key}
use yaxter.Users.{User, find_username}

-- What `tweets.Get` says of an id.
pub data Got {ℓ} (T : Type ℓ) : Type ℓ where
  got : T → Got T
  missing failure : Got T

-- `SELECT id FROM tweets WHERE author_id = $1 …`
abbrev pub of_author : ℕ → List TweetRow → List ℕ
of_author author [] = []
of_author author (t ∷ ts) =
    if t.author_id == author then t.id ∷ of_author author ts else of_author author ts

module _ {T : Type 0} (key : T → ℕ) (get : ℕ → Got T) where
  abbrev pub hydrated :
      (List T → Result Error (List T × Option ℕ))
      → List T
      → Got T
      → Result Error (List T × Option ℕ)
  hydrated again out missing = again out
  hydrated again out failure = err unavailable
  hydrated again out (got t) = again (out ++ t ∷ [])

  -- The loop of `hydratePage`, with what it has collected. The limit is 1 at least, as the
  -- handlers see to: at 0 the index of the last tweet would be out of range.
  unfoldable pub hydrate : ℕ → ℕ → List T → List ℕ → Result Error (List T × Option ℕ)
  hydrate limit cursor out [] = ok (out, none)
  hydrate limit cursor out (id ∷ ids) =
      let again : List T → Result Error (List T × Option ℕ) =
        λ out'. hydrate limit cursor out' ids in
      if not (cursor == 0) && leb cursor id
      then again out
      else if length out == limit
      then ok (out, some (last_key key out))
      else hydrated again out (get id)

  -- `hydratePage`
  unfoldable pub hydrate_page : ℕ → ℕ → List ℕ → Result Error (List T × Option ℕ)
  hydrate_page limit cursor ids = hydrate limit cursor [] ids

  -- The last loop of `Profile`.
  abbrev pub fetched : Got T → Result Error (List T) → Result Error (List T)
  fetched missing rest = rest
  fetched failure rest = err unavailable
  fetched (got t) rest = rest >>= λ ts. ok (t ∷ ts)

  unfoldable pub fetch_all : List ℕ → Result Error (List T)
  fetch_all [] = ok []
  fetch_all (id ∷ ids) = fetched (get id) (fetch_all ids)

  abbrev pub page_of : List ℕ × Option ℕ → Result Error (List T × Option ℕ)
  page_of (ids, next) = fetch_all ids >>= λ ts. ok (ts, next)

  abbrev pub profile_of : Bool → ℕ → ℕ → Db → Option User → Result Error (List T × Option ℕ)
  profile_of fails limit cursor db none = err user_not_found
  profile_of fails limit cursor db (some u) =
      if fails
      then err unavailable
      else page_of
          (cut_page id_key limit (query id_key cursor (limit + 1) (of_author u.id db.tweets)))

  -- `Profile`; the two tests say which of its queries fails.
  unfoldable pub profile : Bool → Bool → ℕ → ℕ → ℕ → Db → Result Error (List T × Option ℕ)
  profile user_fails fails name cursor limit db =
      if user_fails
      then err unavailable
      else profile_of fails limit cursor db (find_username name db.users)
