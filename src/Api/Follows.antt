-- ===== src/Api/Follows.antt =====
-- Following over the API: the handlers of internal/httpapi/users_handlers.go on `setFollow` of
-- internal/users/service.go.
use yaxter.Common.{
  ℕ, ◌≤◌, ◌≡◌, refl, Bool, true, false, Option, some, List, Result, ok, err, arith, ◌⊎◌, inl, inr,
  Result-cases, is_ok, is_err,
}
use yaxter.Events.{codes}
use yaxter.Users
use yaxter.Users.{Db, Env, User, CacheKey, set_follow, get_by_username, find_username}
use yaxter.Users.Follow.{Effect, set_follow-Effect}
use yaxter.Api.{Reply, failure, empty, status}
use yaxter.Api.Users.{follow_user, unfollow_user, follow_error, unfollow_error}

-- What a call leaves in the tables. After an error these are any tables, `left`: those before, or those
-- of a commit whose answer was lost.
abbrev pub committed :
    Db → Result Users.Error (Db × List CacheKey) → Result Users.Error (Unit {0}) × Db
committed left (ok (db', keys)) = (ok tt, db')
committed left (err e) = (err e, left)

-- `FollowUser` or `UnfollowUser` of a caller, on the tables.
unfoldable pub edge_request : ℕ → Env → Db → ℕ → ℕ → Bool → Db → Reply (Unit {0}) × Db
edge_request threshold e left uid name true db =
    follow_user (λ u n s. committed left (set_follow threshold e u n true s)) (some uid) name db
edge_request threshold e left uid name false db =
    unfollow_user (λ u n s. committed left (set_follow threshold e u n false s)) (some uid) name db

error_of : Bool → Users.Error → Reply (Unit {0})
error_of true e = follow_error e
error_of false e = unfollow_error e

edge_request-ok :
    (threshold : ℕ) (e : Env) (left : Db) (uid name : ℕ) (follow : Bool) (db : Db) {db' : Db}
    {keys : List CacheKey}
    → set_follow threshold e uid name follow db ≡ ok (db', keys)
    → edge_request threshold e left uid name follow db ≡ (empty 204, db')
unfolding edge_request follow_user unfollow_user
edge_request-ok threshold e left uid name true db h = rw h refl
edge_request-ok threshold e left uid name false db h = rw h refl

edge_request-err :
    (threshold : ℕ) (e : Env) (left : Db) (uid name : ℕ) (follow : Bool) (db : Db) {x : Users.Error}
    → set_follow threshold e uid name follow db ≡ err x
    → edge_request threshold e left uid name follow db ≡ (error_of follow x, left)
unfolding edge_request follow_user unfollow_user error_of
edge_request-err threshold e left uid name true db h = rw h refl
edge_request-err threshold e left uid name false db h = rw h refl

-- A reply 204 with what it means, or an error.
abbrev pub Answered : ℕ → Env → ℕ → Bool → Db → Option User → Reply (Unit {0}) × Db → Type 0
Answered threshold e uid follow db target (r, db') =
    ((r ≡ empty 204) × ((keys : List CacheKey) × Effect threshold e uid follow db db' keys target))
    ⊎ (400 ≤ status r)

error_of-status : (follow : Bool) (x : Users.Error) → 400 ≤ status (error_of follow x)
unfolding error_of
error_of-status true Users.not_found = omega arith
error_of-status true Users.self_follow = omega arith
error_of-status true Users.media_not_ready = omega arith
error_of-status true Users.unavailable = omega arith
error_of-status true (Users.emit_failed n) = omega arith
error_of-status false Users.not_found = omega arith
error_of-status false Users.self_follow = omega arith
error_of-status false Users.media_not_ready = omega arith
error_of-status false Users.unavailable = omega arith
error_of-status false (Users.emit_failed n) = omega arith

-- A request to follow or to unfollow a name is answered in one of two ways. With 204, the name is
-- that of a user other than the caller, the edge to that user is there after `Follow` and gone
-- after `Unfollow`, every other edge is as before, and one event is added to the outbox if this
-- changed something. Otherwise the status is 400 or more, and nothing is said of the tables, since
-- the answer to a commit may be lost.
pub edge_request-Answered :
    (threshold : ℕ) (e : Env) (left : Db) (uid name : ℕ) (follow : Bool) (db : Db)
    → Answered threshold e uid follow db
        (find_username name db.users)
        (edge_request threshold e left uid name follow db)
edge_request-Answered threshold e left uid name follow db =
    elim (Result-cases (set_follow threshold e uid name follow db)) [
      | is_ok (db', keys) h ↦
          rw (edge_request-ok threshold e left uid name follow db h)
            (inl (refl, (keys, set_follow-Effect threshold e uid name follow db db' keys h)))
      | is_err x h ↦
          rw (edge_request-err threshold e left uid name follow db h)
            (inr (error_of-status follow x))
    ]

set_follow_self :
    (threshold : ℕ) (e : Env) (name : ℕ) (follow : Bool) (db : Db) (u : User)
    → find_username name db.users ≡ some u
    → e.fails 0 ≡ false
    → set_follow threshold e u.id name follow db ≡ err Users.self_follow
unfolding set_follow get_by_username
set_follow_self threshold e name follow db u found up = rw (found, up) (ground arith)

-- When the database answers, a caller who asks for its own name gets 422 from the follow and 500
-- from the unfollow.
pub edge_request_self :
    (threshold : ℕ) (e : Env) (left : Db) (name : ℕ) (db : Db) (u : User)
    → find_username name db.users ≡ some u
    → e.fails 0 ≡ false
    → (edge_request threshold e left u.id name true db ≡ (failure 422 (codes "self_follow"), left))
      × (edge_request threshold e left u.id name false db
          ≡ (failure 500 (codes "internal_error"), left))
unfolding error_of
edge_request_self threshold e left name db u found up = (
  edge_request-err threshold e left u.id name true db
      (set_follow_self threshold e name true db u found up),
  edge_request-err threshold e left u.id name false db
      (set_follow_self threshold e name false db u found up),
)
