-- ===== src/Users.antt =====
-- internal/users: profiles and the follow graph. A username is compared only (CITEXT), so it is a
-- number that stands for its case-folded text.
pub mod Graph
pub mod Follow
pub mod Lists
pub mod Profile
mod Tests
use yaxter.Common.{
  ℕ, ◌+◌, Bool, true, false, not, ◌&&◌, ◌||◌, Option, none, some, List, [], ◌∷◌, map, Result, ok,
  err, ◌>>=◌, ◌>>◌, guard, ltb, leb, ◌==◌, if◌then◌else◌, filter,
}
use yaxter.Common.Decimal.{Text}
use yaxter.Common.Int.{ℤ, pos, negsuc, ◌+ℤ◌, ltb_ℤ}
use yaxter.Events.{Message, EmitError, codes, emit, event_key, follow_changed}

-- `users.User`, a row of `users`.
pub record User : Type 0 where
  pub id : ℕ
  pub username : ℕ
  pub bio : Text
  pub avatar_key : Option ℕ
  pub followers_count : ℤ
  pub following_count : ℤ
  pub has_password : Bool

-- A row of `follows` is (follower_id, followee_id), one of `followers` is (followee_id, follower_id).
abbrev pub Edge : Type 0
Edge = ℕ × ℕ

pub record Db : Type 0 where
  pub users : List User
  pub follows : List Edge
  pub followers : List Edge
  pub outbox : List Message

pub data Error : Type 0 where
  not_found self_follow media_not_ready unavailable : Error
  emit_failed : EmitError → Error

-- Whether call number `n` to the database (or to `proto.Marshal`) fails, and the id that
-- `s.ids.Next()` gives.
pub record Env : Type 0 where
  pub fails : ℕ → Bool
  pub fresh_id : ℕ

-- The Redis keys that a call deletes.
pub data CacheKey : Type 0 where
  usr celebs : ℕ → CacheKey

-- `SELECT … FROM users WHERE username = $1`
abbrev pub find_username : ℕ → List User → Option User
find_username name [] = none
find_username name (u ∷ us) = if u.username == name then some u else find_username name us

-- `SELECT … FROM users WHERE id = $1`
abbrev pub find_id : ℕ → List User → Option User
find_id id [] = none
find_id id (u ∷ us) = if u.id == id then some u else find_id id us

-- `scanUser`
abbrev pub scan_user : Bool → Option User → Result Error User
scan_user true row = err unavailable
scan_user false none = err not_found
scan_user false (some u) = ok u

-- `GetByUsername`
unfoldable pub get_by_username : Bool → ℕ → List User → Result Error User
get_by_username fails name us = scan_user fails (find_username name us)

-- `GetByID`
unfoldable pub get_by_id : Bool → ℕ → List User → Result Error User
get_by_id fails id us = scan_user fails (find_id id us)

abbrev pub edge_eq : ℕ → ℕ → Edge → Bool
edge_eq a b (c, d) = c == a && d == b

abbrev pub has_edge : ℕ → ℕ → List Edge → Bool
has_edge a b [] = false
has_edge a b (e ∷ es) = edge_eq a b e || has_edge a b es

-- `INSERT INTO … VALUES ($1, $2) ON CONFLICT DO NOTHING`
unfoldable pub add_edge : ℕ → ℕ → List Edge → List Edge
add_edge a b es = if has_edge a b es then es else (a, b) ∷ es

-- `DELETE FROM … WHERE … = $1 AND … = $2`
unfoldable pub remove_edge : ℕ → ℕ → List Edge → List Edge
remove_edge a b [] = []
remove_edge a b (e ∷ es) = if edge_eq a b e then remove_edge a b es else e ∷ remove_edge a b es

-- `UPDATE users SET followers_count = followers_count + $2 WHERE id = $1`
unfoldable pub add_followers : ℕ → ℤ → List User → List User
add_followers id delta [] = []
add_followers id delta (u ∷ us) =
    (if u.id == id then record u { followers_count = u.followers_count +ℤ delta } else u)
    ∷ add_followers id delta us

-- `UPDATE users SET following_count = following_count + $2 WHERE id = $1`
unfoldable pub add_following : ℕ → ℤ → List User → List User
add_following id delta [] = []
add_following id delta (u ∷ us) =
    (if u.id == id then record u { following_count = u.following_count +ℤ delta } else u)
    ∷ add_following id delta us

pub delta_of : Bool → ℤ
delta_of true = pos 1
delta_of false = negsuc 0

-- Whether the first statement of the transaction affects a row.
abbrev pub changes : Bool → ℕ → ℕ → List Edge → Bool
changes follow a b es = if follow then not (has_edge a b es) else has_edge a b es

abbrev pub write_edge : Bool → ℕ → ℕ → List Edge → List Edge
write_edge follow a b es = if follow then add_edge a b es else remove_edge a b es

-- `if followee.FollowersCount+delta >= s.celebrityThreshold || …`
pub stale_keys : ℕ → User → ℕ → ℤ → List CacheKey
stale_keys threshold followee follower delta =
    if not (ltb_ℤ (followee.followers_count +ℤ delta) (pos threshold))
      || not (ltb_ℤ followee.followers_count (pos threshold))
    then usr followee.id ∷ usr follower ∷ celebs follower ∷ []
    else usr followee.id ∷ usr follower ∷ []

lift : Result EmitError (List Message) → Result Error (List Message)
lift (ok outbox) = ok outbox
lift (err e) = err (emit_failed e)

-- The statements after the first, once it has changed a row, and the deletes after the commit.
unfoldable pub apply_change : ℕ → Env → ℕ → User → Bool → Db → Result Error (Db × List CacheKey)
unfolding stale_keys delta_of lift
apply_change threshold e follower followee follow db = do
  guard (not (e.fails 3)) unavailable
  guard (not (e.fails 4)) unavailable
  guard (not (e.fails 5)) unavailable
  outbox ← lift (
      emit (e.fails 6) (e.fails 7) e.fresh_id (codes "follows.v1") (event_key followee.id)
        (follow_changed follower followee.id follow) db.outbox)
  guard (not (e.fails 8)) unavailable
  ok (
    record {
      users =
          add_following follower (delta_of follow)
            (add_followers followee.id (delta_of follow) db.users);
      follows = write_edge follow follower followee.id db.follows;
      followers = write_edge follow followee.id follower db.followers;
      outbox = outbox;
    },
    stale_keys threshold followee follower (delta_of follow),
  )

-- `setFollow`. A transaction that does not reach its commit is rolled back: an error, and the
-- return when no row changed, leave the tables as they were.
unfoldable pub set_follow : ℕ → Env → ℕ → ℕ → Bool → Db → Result Error (Db × List CacheKey)
set_follow threshold e follower name follow db = do
  followee ← get_by_username (e.fails 0) name db.users
  guard (not (followee.id == follower)) self_follow
  guard (not (e.fails 1)) unavailable
  guard (not (e.fails 2)) unavailable
  if changes follow follower followee.id db.follows
      then apply_change threshold e follower followee follow db
      else ok (db, [])

-- `Follow` and `Unfollow`
unfoldable pub follow : ℕ → Env → ℕ → ℕ → Db → Result Error (Db × List CacheKey)
follow threshold e follower name db = set_follow threshold e follower name true db

unfoldable pub unfollow : ℕ → Env → ℕ → ℕ → Db → Result Error (Db × List CacheKey)
unfollow threshold e follower name db = set_follow threshold e follower name false db
