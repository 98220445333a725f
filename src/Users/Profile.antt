-- ===== src/Users/Profile.antt =====
-- internal/users/service.go, `UpdateProfile`.
use yaxter.Common.{
  ℕ, ◌≡◌, ◌≢◌, refl, Bool, true, false, not, ◌&&◌, ◌||◌, Option, none, some, List, [], ◌∷◌, Result,
  ok, ◌>>=◌, ◌>>◌, guard, ◌==◌, if◌then◌else◌, arith, Bool-cases, Option-cases, Result-cases, is_ok,
  is_err, ap, ◌∙◌, inl, inr,
}
use yaxter.Common.Decimal.{Text}
use yaxter.Users.{User, Db, Error, unavailable, media_not_ready, CacheKey, usr, find_id, get_by_id}

-- What the statement reads of a row of `media`.
pub record MediaRow : Type 0 where
  pub id : ℕ
  pub owner_id : ℕ
  pub ready : Bool

-- `SELECT EXISTS (SELECT 1 FROM media WHERE id = $1 AND owner_id = $2 AND status = 'ready')`
unfoldable pub is_ready : ℕ → ℕ → List MediaRow → Bool
is_ready id owner [] = false
is_ready id owner (m ∷ ms) =
    (m.id == id && (m.owner_id == owner && m.ready)) || is_ready id owner ms

unfoldable pub check_avatar : (ℕ → Bool) → Option ℕ → ℕ → List MediaRow → Result Error (Unit {0})
check_avatar fails none owner ms = ok tt
check_avatar fails (some id) owner ms =
    guard (not (fails 0)) unavailable >> guard (is_ready id owner ms) media_not_ready

-- `COALESCE($2, x)`
abbrev coalesce : {A : Type 0} → Option A → A → A
coalesce none x = x
coalesce (some y) x = y

abbrev coalesce_key : Option ℕ → Option ℕ → Option ℕ
coalesce_key none x = x
coalesce_key (some y) x = some y

-- `SET bio = COALESCE($2, bio), avatar_key = COALESCE($3, avatar_key)`; the avatar's key is the
-- decimal form of its id, which stands for it.
abbrev pub set_profile : Option Text → Option ℕ → User → User
set_profile bio avatar u = record u {
  bio = coalesce bio u.bio;
  avatar_key = coalesce_key avatar u.avatar_key;
}

-- `UPDATE users SET … WHERE id = $1`
unfoldable pub update_user : Option Text → Option ℕ → ℕ → List User → List User
update_user bio avatar id [] = []
update_user bio avatar id (u ∷ us) =
    (if u.id == id then set_profile bio avatar u else u) ∷ update_user bio avatar id us

-- `UpdateProfile`
unfoldable pub update_profile :
    (ℕ → Bool)
    → ℕ
    → Option Text
    → Option ℕ
    → List MediaRow
    → Db
    → Result Error (Db × User × List CacheKey)
update_profile fails user bio avatar ms db = do
  check_avatar fails avatar user ms
  u ← get_by_id (fails 1) user (update_user bio avatar user db.users)
  ok (record db { users = update_user bio avatar user db.users }, u, usr user ∷ [])

-- What the caller gets of a user before and after.
abbrev pub Updated : Option Text → Option ℕ → Option User → User → Type 0
Updated bio avatar none u = ⊥
Updated bio avatar (some old) u = u ≡ set_profile bio avatar old

abbrev pub Owned : Option ℕ → ℕ → List MediaRow → Type 0
Owned none user ms = Unit
Owned (some id) user ms = is_ready id user ms ≡ true

check_avatar-Owned :
    (fails : ℕ → Bool) (avatar : Option ℕ) (user : ℕ) (ms : List MediaRow)
    → check_avatar fails avatar user ms ≡ ok tt
    → Owned avatar user ms
unfolding check_avatar
check_avatar-Owned fails none user ms h = tt
check_avatar-Owned fails (some id) user ms h = ground arith

find_id-update_user :
    (bio : Option Text) (avatar : Option ℕ) (id : ℕ) (us : List User) (u : User)
    → find_id id (update_user bio avatar id us) ≡ some u
    → Updated bio avatar (find_id id us) u
unfolding update_user
find_id-update_user bio avatar id [] u h = absurd (ground arith)
find_id-update_user bio avatar id (v ∷ us) u h = elim (Bool-cases (v.id == id)) [
  | inl this ↦ rw this (ground arith)
  | inr other ↦ rw other (find_id-update_user bio avatar id us u (ground arith))
]

find_id-others :
    (bio : Option Text) (avatar : Option ℕ) (id k : ℕ) (us : List User)
    → k ≢ id
    → find_id k (update_user bio avatar id us) ≡ find_id k us
unfolding update_user
find_id-others bio avatar id k [] ne = refl
find_id-others bio avatar id k (v ∷ us) ne = ground (arith, find_id-others bio avatar id k us ne)

-- A profile update that succeeds answers with the user's new row: the given fields replaced, the
-- others, counters included, kept. A given avatar is a ready medium of the user, and the rows of all
-- other users are as before.
pub update_profile-Updated :
    (fails : ℕ → Bool) (user : ℕ) (bio : Option Text) (avatar : Option ℕ) (ms : List MediaRow)
    (db db' : Db)
    → (u : User) (keys : List CacheKey)
    → update_profile fails user bio avatar ms db ≡ ok (db', u, keys)
    → Owned avatar user ms
      × Updated bio avatar (find_id user db.users) u
      × (find_id user db'.users ≡ some u)
      × ((k : ℕ) → k ≢ user → find_id k db'.users ≡ find_id k db.users)
unfolding update_profile get_by_id
update_profile-Updated fails user bio avatar ms db db' u keys h =
    elim (Result-cases (check_avatar fails avatar user ms)) [
      | is_err e q ↦ absurd (ground arith)
      | is_ok done q ↦ elim (Option-cases (find_id user (update_user bio avatar user db.users))) [
        | inl missing ↦ absurd (ground arith)
        | inr (v, found) ↦
            let same : v ≡ u = ground arith in
            let rows : db'.users ≡ update_user bio avatar user db.users = ground arith in
            let found' = found ∙ ap (λ x. some x) same in
            (
              check_avatar-Owned fails avatar user ms q,
              find_id-update_user bio avatar user db.users u found',
              ap (find_id user) rows ∙ found',
              λ k ne. ap (find_id k) rows ∙ find_id-others bio avatar user k db.users ne,
            )
      ]
    ]
