-- ===== src/OAuth/Accounts.antt =====
-- internal/auth/oauth/flow.go: the accounts and their identities in PostgreSQL, and the calls that
-- link, create and unlink. Emails are compared only (CITEXT), so an email is a number that stands for
-- its case-folded text; providers and their user ids are numbers too.
use yaxter.Common.{
  ℕ, ◌+◌, Bool, true, false, not, ◌&&◌, ◌||◌, Option, none, some, List, [], ◌∷◌, Result, ok, err,
  ◌>>=◌, ◌>>◌, guard, leb, ◌==◌, if◌then◌else◌, any, filter,
}
use yaxter.Common.Decimal.{Text}

-- `Identity`, what a provider asserts about the user.
pub record Identity : Type 0 where
  pub provider_user_id : ℕ
  pub email : ℕ
  pub email_verified : Bool
  pub login : Text

-- A row of `users`, as far as the flow reads or writes it.
pub record Account : Type 0 where
  pub id : ℕ
  pub username : Text
  pub email : ℕ
  pub has_password : Bool

-- A row of `identities`.
pub record Link : Type 0 where
  pub user_id : ℕ
  pub provider : ℕ
  pub provider_user_id : ℕ
  pub email : ℕ

-- A row of `global_identities`.
pub record GlobalLink : Type 0 where
  pub provider : ℕ
  pub provider_user_id : ℕ
  pub user_id : ℕ

-- `'oauth_link'` and `'oauth_unlink'`
pub data Action : Type 0 where
  oauth_link oauth_unlink : Action

-- A row of `audit_log`, with its detail, and one of `notifications` of the kind `'oauth_link'`.
pub record Audit : Type 0 where
  pub id : ℕ
  pub user_id : ℕ
  pub action : Action
  pub provider : ℕ
  pub subject : Option ℕ

pub record Notice : Type 0 where
  pub id : ℕ
  pub user_id : ℕ
  pub actor_id : ℕ

pub record Db : Type 0 where
  pub users : List Account
  pub identities : List Link
  pub global_identities : List GlobalLink
  pub audit_log : List Audit
  pub notifications : List Notice

-- The errors of flow.go; `no_rows` is `pgx.ErrNoRows`, and `unavailable` any other.
pub data Error : Type 0 where
  unknown_provider invalid_state link_required identity_taken last_credential no_rows : Error
  unavailable : Error

-- Whether statement number `n` of the call fails, and the ids that `f.ids.Next()` gives.
pub record Env : Type 0 where
  pub fails : ℕ → Bool
  pub fresh : ℕ → ℕ

-- `SELECT user_id FROM global_identities WHERE provider = $1 AND provider_user_id = $2`
abbrev pub find_global : ℕ → ℕ → List GlobalLink → Option ℕ
find_global p pid [] = none
find_global p pid (g ∷ gs) =
    if g.provider == p && g.provider_user_id == pid then some g.user_id else find_global p pid gs

-- `SELECT id FROM users WHERE email = $1`
abbrev pub find_email : ℕ → List Account → Option ℕ
find_email e [] = none
find_email e (u ∷ us) = if u.email == e then some u.id else find_email e us

abbrev pub find_user : ℕ → List Account → Option Account
find_user id [] = none
find_user id (u ∷ us) = if u.id == id then some u else find_user id us

abbrev pub is_some {ℓ} : {A : Type ℓ} → Option A → Bool
is_some none = false
is_some (some a) = true

-- The keys of `identities` and of `global_identities`, and the reference to `users`.
abbrev pub same_slot : ℕ → ℕ → Link → Bool
same_slot user p l = l.user_id == user && l.provider == p

abbrev pub same_subject : ℕ → ℕ → Link → Bool
same_subject p pid l = l.provider == p && l.provider_user_id == pid

abbrev pub refuses_link : ℕ → ℕ → ℕ → Db → Bool
refuses_link user p pid db =
    not (is_some (find_user user db.users))
    || any (same_slot user p) db.identities
    || any (same_subject p pid) db.identities

abbrev pub link_row : ℕ → ℕ → Identity → Link
link_row user p ident = record {
  user_id = user;
  provider = p;
  provider_user_id = ident.provider_user_id;
  email = ident.email;
}

abbrev pub global_row : Link → GlobalLink
global_row l = record {
  provider = l.provider;
  provider_user_id = l.provider_user_id;
  user_id = l.user_id;
}

-- `insertIdentity`, from statement number `n` on.
unfoldable pub insert_identity : Env → ℕ → ℕ → ℕ → Identity → Db → Result Error Db
insert_identity e n user p ident db = do
  guard (not (e.fails n)) unavailable
  guard (not (refuses_link user p ident.provider_user_id db)) unavailable
  guard (not (e.fails (n + 1))) unavailable
  guard (not (is_some (find_global p ident.provider_user_id db.global_identities))) unavailable
  ok (record db {
    identities = link_row user p ident ∷ db.identities;
    global_identities = global_row (link_row user p ident) ∷ db.global_identities;
  })

-- `INSERT INTO audit_log`, whose key is the id.
abbrev pub insert_audit : Bool → Audit → Db → Result Error Db
insert_audit fails a db =
    if fails || any (λ x. x.id == a.id) db.audit_log
    then err unavailable
    else ok (record db { audit_log = a ∷ db.audit_log })

abbrev pub insert_notice : Bool → Notice → Db → Result Error Db
insert_notice fails x db =
    if fails || any (λ y. y.id == x.id) db.notifications
    then err unavailable
    else ok (record db { notifications = x ∷ db.notifications })

-- The transaction of `link`.
unfoldable pub link_tx : Env → ℕ → ℕ → Identity → Db → Result Error Db
link_tx e user p ident db = do
  guard (not (e.fails 11)) unavailable
  db₁ ← insert_identity e 12 user p ident db
  db₂ ←
      insert_audit (e.fails 14)
        (record {
          id = e.fresh 0;
          user_id = user;
          action = oauth_link;
          provider = p;
          subject = some ident.provider_user_id;
        })
        db₁
  db₃ ← insert_notice (e.fails 15) (record { id = e.fresh 1; user_id = user; actor_id = user }) db₂
  guard (not (e.fails 16)) unavailable
  ok db₃

unfoldable pub link_found : Env → ℕ → ℕ → Identity → Option ℕ → Db → Result Error Db
link_found e user p ident (some existing) db =
    if existing == user then ok db else err identity_taken
link_found e user p ident none db = link_tx e user p ident db

-- `link`
unfoldable pub link : Env → ℕ → ℕ → Identity → Db → Result Error Db
unfolding link_found
link e user p ident db =
    if e.fails 10
    then err unavailable
    else link_found e user p ident (find_global p ident.provider_user_id db.global_identities) db

-- `identityCount` and `hasPassword`
abbrev pub identity_count : ℕ → List Link → ℕ
identity_count user [] = 0
identity_count user (l ∷ ls) = (if l.user_id == user then 1 else 0) + identity_count user ls

unfoldable pub check_account : Option Account → List Link → Result Error (Unit {0})
check_account none ls = err no_rows
check_account (some u) ls =
    if not u.has_password && leb (identity_count u.id ls) 1 then err last_credential else ok tt

-- `Unlink` up to its transaction.
unfoldable pub unlink_check : Env → ℕ → Db → Result Error (Unit {0})
unfolding check_account
unlink_check e user db =
    if e.fails 0 then err unavailable else check_account (find_user user db.users) db.identities

-- The transaction of `Unlink`.
unfoldable pub unlink_tx : Env → ℕ → ℕ → Db → Result Error Db
unlink_tx e user p db = do
  guard (not (e.fails 1)) unavailable
  guard (not (e.fails 2)) unavailable
  guard (any (same_slot user p) db.identities) no_rows
  guard (not (e.fails 3)) unavailable
  db₁ ←
      insert_audit (e.fails 4)
        (record {
          id = e.fresh 0;
          user_id = user;
          action = oauth_unlink;
          provider = p;
          subject = none;
        })
        (record db {
          identities = filter (λ l. not (same_slot user p l)) db.identities;
          global_identities =
              filter (λ g. not (g.provider == p && g.user_id == user)) db.global_identities;
        })
  guard (not (e.fails 5)) unavailable
  ok db₁

-- `Unlink`, with no other call between its check and its transaction.
unfoldable pub unlink : Env → ℕ → ℕ → Db → Result Error Db
unlink e user p db = unlink_check e user db >>= λ done. unlink_tx e user p db
