-- ===== src/Timeline.antt =====
-- internal/timeline/timeline.go: the home timeline, merged from the fan-out list `tl:<id>` and the
-- lists `utl:<id>` of followed celebrities, and the profile page.
pub mod Merge
pub mod Hydrate
pub mod Visible
pub mod Scroll
pub mod Profile
pub mod Home
mod Tests
use yaxter.Common.{
  ℕ, zero, suc, ◌+◌, Bool, true, false, not, ◌&&◌, ◌||◌, Option, none, some, List, [], ◌∷◌, ◌++◌,
  map, ltb, leb, ◌==◌, if◌then◌else◌, length, take, filter, contains, Result, ok, err, ◌>>=◌,
}
use yaxter.Common.Int.{ℤ, pos, ltb_ℤ}
use yaxter.Common.Sort.{sort_desc}
use yaxter.Paging.{query, cut_page}
use yaxter.Redis.{
  Outcome, answered, refused, lost, Lists, Item, number, other, Command, ltrim_command,
  rpush_command, Pipe, exec,
}
use yaxter.Users.{Edge, User, find_id, find_username, has_edge}

abbrev pub tl_cap : ℕ
tl_cap = 800

abbrev pub celeb_cap : ℕ
celeb_cap = 1000

-- `parseIDs`
abbrev pub parse_ids : List Item → List ℕ
parse_ids [] = []
parse_ids (number n ∷ xs) = n ∷ parse_ids xs
parse_ids (other ∷ xs) = parse_ids xs

-- The ids that were not seen before, each at its first place.
abbrev pub unique : List ℕ → List ℕ → List ℕ
unique seen [] = []
unique seen (x ∷ xs) = if contains x seen then unique seen xs else x ∷ unique (x ∷ seen) xs

abbrev pub id_key : ℕ → ℕ
id_key n = n

-- `mergeDesc`
unfoldable pub merge_desc : List ℕ → List ℕ
merge_desc ids = sort_desc id_key (unique [] ids)

-- What `rebuild` and `Profile` read of a row of `tweets`.
pub record TweetRow : Type 0 where
  pub id : ℕ
  pub author_id : ℕ

pub record Db : Type 0 where
  pub users : List User
  pub follows : List Edge
  pub tweets : List TweetRow

-- The sets `celebs:<id>`; the sentinel is `other`.
pub record Sets (C : Type 0) : Type 0 where
  pub members : ℕ → C → List Item
  pub add : ℕ → List Item → C → C

pub record State (L C : Type 0) : Type 0 where
  pub tl : L
  pub utl : L
  pub celebs : C

pub data Error : Type 0 where
  user_not_found unavailable : Error

-- Which reads fail, and what the two pipelines do.
pub record Env : Type 0 where
  pub tl_fails : Bool
  pub rebuild_fails : Bool
  pub warm : Pipe
  pub members_fails : Bool
  pub celebs_fails : Bool
  pub remember : Outcome
  pub utl_fails : ℕ → Bool

is_below : ℕ → Option User → Bool
is_below threshold none = false
is_below threshold (some u) = ltb_ℤ u.followers_count (pos threshold)

is_celebrity : ℕ → Option User → Bool
is_celebrity threshold none = false
is_celebrity threshold (some u) = not (ltb_ℤ u.followers_count (pos threshold))

-- The rows of the query in `rebuild`.
unfoldable pub rebuilt_ids : ℕ → ℕ → Db → List ℕ
unfolding is_below
rebuilt_ids threshold uid db = take tl_cap (
    sort_desc id_key (
      map TweetRow.id (
        filter
          (λ t.
            has_edge uid t.author_id db.follows
            && is_below threshold (find_id t.author_id db.users))
          db.tweets)))

-- The rows of the query in `followedCelebrities`, which has no order.
celebrities : ℕ → ℕ → Db → List Edge → List ℕ
unfolding is_celebrity
celebrities threshold uid db [] = []
celebrities threshold uid db ((a, b) ∷ es) =
    if a == uid && is_celebrity threshold (find_id b db.users)
    then b ∷ celebrities threshold uid db es
    else celebrities threshold uid db es

module _ {L C : Type 0} (r : Lists L) (c : Sets C) where
  warm_commands : ℕ → List ℕ → List Command
  warm_commands uid [] = []
  warm_commands uid (x ∷ xs) =
      rpush_command uid (map number (x ∷ xs)) ∷ ltrim_command uid tl_cap ∷ []

  pub warmed :
      List ℕ → State L C → Result (Unit {0}) (Unit {0}) × L → Result Error (List ℕ) × State L C
  warmed ids s (ok done, l) = (ok ids, record s { tl = l })
  warmed ids s (err e, l) = (err unavailable, record s { tl = l })

  -- `rebuild`
  unfoldable pub rebuild : Env → ℕ → ℕ → Db → State L C → Result Error (List ℕ) × State L C
  unfolding warmed warm_commands
  rebuild e threshold uid db s =
      let ids = rebuilt_ids threshold uid db in
      if e.rebuild_fails
      then (err unavailable, s)
      else if length ids == 0
      then (ok [], s)
      else warmed ids s (exec r e.warm (warm_commands uid ids) s.tl)

  pub remembered : Outcome → ℕ → List ℕ → State L C → Result Error (List ℕ) × State L C
  remembered answered uid ids s =
      (ok ids, record s { celebs = c.add uid (other ∷ map number ids) s.celebs })
  remembered refused uid ids s = (err unavailable, s)
  remembered lost uid ids s =
      (err unavailable, record s { celebs = c.add uid (other ∷ map number ids) s.celebs })

  -- `followedCelebrities`; `parseCelebMembers` is `parseIDs`, since the sentinel is no number.
  unfoldable pub followed_celebrities :
      Env → ℕ → ℕ → Db → State L C → Result Error (List ℕ) × State L C
  unfolding remembered celebrities
  followed_celebrities e threshold uid db s =
      if e.members_fails
      then (err unavailable, s)
      else if not (length (c.members uid s.celebs) == 0)
      then (ok (parse_ids (c.members uid s.celebs)), s)
      else if e.celebs_fails
      then (err unavailable, s)
      else remembered e.remember uid (take celeb_cap (celebrities threshold uid db db.follows)) s

  -- The loop over the celebrities.
  unfoldable pub streams : (ℕ → Bool) → List ℕ → L → Result Error (List ℕ)
  streams fails [] l = ok []
  streams fails (x ∷ xs) l = do
    rest ← if fails x then err unavailable else streams fails xs l
    ok (parse_ids (r.lrange x l) ++ rest)

  pub merged : List ℕ → Result Error (List ℕ) → Result Error (List ℕ)
  merged ids streamed = streamed >>= λ more. ok (merge_desc (ids ++ more))

  pub with_celebrities :
      Env → List ℕ → Result Error (List ℕ) × State L C → Result Error (List ℕ) × State L C
  unfolding merged
  with_celebrities e ids (err x, s) = (err x, s)
  with_celebrities e ids (ok cs, s) = (merged ids (streams e.utl_fails cs s.utl), s)

  pub with_timeline :
      Env → ℕ → ℕ → Db → Result Error (List ℕ) × State L C → Result Error (List ℕ) × State L C
  unfolding with_celebrities
  with_timeline e threshold uid db (err x, s) = (err x, s)
  with_timeline e threshold uid db (ok ids, s) =
      with_celebrities e ids (followed_celebrities e threshold uid db s)

  -- `homeIDs`
  unfoldable pub home_ids : Env → ℕ → ℕ → Db → State L C → Result Error (List ℕ) × State L C
  unfolding with_timeline
  home_ids e threshold uid db s =
      if e.tl_fails
      then (err unavailable, s)
      else with_timeline e threshold uid db (
          if length (r.lrange uid s.tl) == 0
          then rebuild e threshold uid db s
          else (ok (parse_ids (r.lrange uid s.tl)), s))
