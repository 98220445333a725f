-- ===== src/Auth.antt =====
-- internal/auth/service.go: passwords and sessions. Usernames and emails are compared only (CITEXT), so
-- one number stands for each case-folded text, and a login is such a number.
pub mod Base64
pub mod Password
pub mod Tokens
pub mod Login
pub mod Refused
pub mod Register
pub mod Sample
mod Tests
use yaxter.Common.{
  ℕ, ◌+◌, ◌/◌, ◌==◌, Bool, true, false, not, ◌||◌, ◌&&◌, Option, none, some, List, [], ◌∷◌, ◌++◌,
  if◌then◌else◌, Result, ok, err, any, map, filter,
}
use yaxter.Common.Filtered.{sort_asc}
use yaxter.Common.Decimal.{Text}
use yaxter.Refresh
use yaxter.Refresh.{
  Table, Phase, rotated, refused, issue_new_family, rotate, revoke_family_by_token,
}
use Password.{Argon, hash_password, verify_password}
use Tokens.{Jwt, Issuer, issue}

-- A row of `users`, as far as the service reads or writes it.
pub record Account : Type 0 where
  pub id : ℕ
  pub username : ℕ
  pub email : ℕ
  pub bio : Text
  pub created_at : ℕ
  pub pass_hash : Option Text

-- `User`
pub record User : Type 0 where
  pub id : ℕ
  pub username : ℕ
  pub email : ℕ
  pub bio : Text
  pub created_at : ℕ
  pub has_password : Bool

-- `TokenPair`; the lifetime is in seconds.
pub record TokenPair : Type 0 where
  pub access : ℕ
  pub refresh : ℕ
  pub expires_in : ℕ

-- `users`, the providers of `identities` with their users, and `refresh_tokens`.
pub record Db : Type 0 where
  pub users : List Account
  pub identities : List (ℕ × ℕ)
  pub refresh_tokens : Table

-- `ErrInvalidCredentials`, `ErrConflict`; an error of refresh.go; any other.
pub data Error : Type 0 where
  invalid_credentials conflict unavailable : Error
  refresh_failed : Refresh.Error → Error

-- What the outside decides in a call: whether its statement on `users` fails, the clock, the id of
-- the generator, the salt of `rand.Read`, and what it decides in refresh.go.
pub record Env : Type 0 where
  pub fails : Bool
  pub now : ℕ
  pub pg_now : ℕ
  pub fresh_id : ℕ
  pub salt : Option Text
  pub refresh : Refresh.Env

-- `WHERE username = $1 OR email = $1`
abbrev pub has_login : ℕ → Account → Bool
has_login l a = a.username == l || a.email == l

unfoldable pub find_login : ℕ → List Account → Option Account
find_login l [] = none
find_login l (a ∷ rest) = if has_login l a then some a else find_login l rest

abbrev pub user_of : Account → Bool → User
user_of a has = record {
  id = a.id;
  username = a.username;
  email = a.email;
  bio = a.bio;
  created_at = a.created_at;
  has_password = has;
}

module _ (j : Jwt) (argon : Argon) (hash_token : ℕ → ℕ) (issuer : Issuer) (refresh_ttl : ℕ) where
  with_refresh : ℕ → Db → Result Refresh.Error ℕ × Table → Result Error TokenPair × Db
  with_refresh access db (ok token, t) = (
    ok (record { access = access; refresh = token; expires_in = issuer.ttl / 1000 }),
    record db { refresh_tokens = t },
  )
  with_refresh access db (err x, t) = (err (refresh_failed x), record db { refresh_tokens = t })

  with_access : Refresh.Env → ℕ → Option ℕ → Db → Result Error TokenPair × Db
  with_access e user none db = (err unavailable, db)
  with_access e user (some access) db =
      with_refresh access db (issue_new_family hash_token refresh_ttl e user db.refresh_tokens)

  -- `pair`, and `TokenPairFor`
  unfoldable pub pair : Env → ℕ → Db → Result Error TokenPair × Db
  unfolding with_access with_refresh
  pair e user db = with_access e.refresh user (issue j issuer e.now user) db

  unfoldable pub and_user :
      User → Result Error TokenPair × Db → Result Error (User × TokenPair) × Db
  and_user u (ok p, db) = (ok (u, p), db)
  and_user u (err x, db) = (err x, db)

  new_account : Env → ℕ → ℕ → Text → Account
  new_account e username email hash = record {
    id = e.fresh_id;
    username = username;
    email = email;
    bio = [];
    created_at = e.pg_now;
    pass_hash = some hash;
  }

  -- The INSERT, which a primary key or a unique name refuses.
  insert : Env → ℕ → ℕ → Result (Unit {0}) Text → Db → Result Error (User × TokenPair) × Db
  insert e username email (err x) db = (err unavailable, db)
  insert e username email (ok hash) db =
      if e.fails
      then (err unavailable, db)
      else if any (λ a. a.id == e.fresh_id || a.username == username || a.email == email) db.users
      then (err conflict, db)
      else and_user (user_of (new_account e username email hash) false) (
          pair e e.fresh_id
            (record db { users = db.users ++ new_account e username email hash ∷ [] }))

  -- `Register`
  unfoldable pub register : Env → ℕ → ℕ → Text → Db → Result Error (User × TokenPair) × Db
  unfolding insert and_user new_account
  register e username email password db =
      insert e username email (hash_password argon password e.salt) db

  -- What `Login` makes of `VerifyPassword`; a panic goes on up.
  checked :
      Env
      → Account
      → Option (Result (Unit {0}) Bool)
      → Db
      → Option (Result Error (User × TokenPair) × Db)
  checked e a none db = none
  checked e a (some (ok true)) db = some (and_user (user_of a false) (pair e a.id db))
  checked e a (some (ok false)) db = some (err invalid_credentials, db)
  checked e a (some (err x)) db = some (err invalid_credentials, db)

  with_hash :
      Env → Account → Text → Option Text → Db → Option (Result Error (User × TokenPair) × Db)
  with_hash e a password none db = some (err invalid_credentials, db)
  with_hash e a password (some hash) db = checked e a (verify_password argon password hash) db

  with_account : Env → Text → Option Account → Db → Option (Result Error (User × TokenPair) × Db)
  with_account e password none db = some (err invalid_credentials, db)
  with_account e password (some a) db = with_hash e a password a.pass_hash db

  -- `Login`; `none`: it panics, and the caller gets no answer.
  unfoldable pub login : Env → ℕ → Text → Db → Option (Result Error (User × TokenPair) × Db)
  unfolding with_account with_hash checked and_user
  login e l password db =
      if e.fails
      then some (err unavailable, db)
      else with_account e password (find_login l db.users) db

  renewed : Env → ℕ → Option ℕ → Db → Result Error TokenPair × Db
  renewed e next none db = (err unavailable, db)
  renewed e next (some access) db =
      (ok (record { access = access; refresh = next; expires_in = issuer.ttl / 1000 }), db)

  after_rotate : Env → Phase × Table → Db → Result Error TokenPair × Db
  after_rotate e (rotated r user next, t) db =
      renewed e next (issue j issuer e.now user) (record db { refresh_tokens = t })
  after_rotate e (refused x, t) db = (err (refresh_failed x), record db { refresh_tokens = t })
  after_rotate e (p, t) db = (err unavailable, record db { refresh_tokens = t })

  -- `Refresh`, with what the outside decides at the statements of `Rotate`.
  unfoldable pub refresh :
      Env → Refresh.Env → Refresh.Env → Refresh.Env → ℕ → Db → Result Error TokenPair × Db
  unfolding after_rotate renewed
  refresh e e₁ e₂ e₃ token db =
      after_rotate e (rotate hash_token refresh_ttl e₁ e₂ e₃ token db.refresh_tokens) db

  -- `Logout`
  unfoldable pub logout : Refresh.Env → Refresh.Env → ℕ → Db → Result Refresh.Error (Unit {0}) × Db
  logout e₁ e₂ token db =
      let (res, t) = revoke_family_by_token hash_token refresh_ttl e₁ e₂ token db.refresh_tokens in
      (res, record db { refresh_tokens = t })

-- `WHERE id = $1`
find_account : ℕ → List Account → Option Account
find_account id [] = none
find_account id (a ∷ rest) = if a.id == id then some a else find_account id rest

abbrev pub is_some {ℓ} : {A : Type ℓ} → Option A → Bool
is_some none = false
is_some (some a) = true

info_of : Bool → Option Account → List (ℕ × ℕ) → Result Error (User × List ℕ)
info_of fails none links = err unavailable
info_of fails (some a) links =
    if fails
    then err unavailable
    else ok (
      user_of a (is_some a.pass_hash),
      sort_asc (λ p. p) (map (λ l. l.1) (filter (λ l. l.0 == a.id) links)),
    )

-- `UserInfo`, and whether its two queries fail; a user who is not there is an error too.
unfoldable pub user_info : Bool → Bool → ℕ → Db → Result Error (User × List ℕ)
unfolding find_account info_of
user_info fails fails' id db =
    if fails then err unavailable else info_of fails' (find_account id db.users) db.identities
