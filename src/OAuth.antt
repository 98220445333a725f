-- ===== src/OAuth.antt =====
-- internal/auth/oauth/flow.go: `Start` and `Callback`. The providers and the store of the states
-- are interfaces; a state is a random token, numbered.
pub mod Accounts
pub mod Create
pub mod Valid
pub mod Unlink
pub mod Linking
pub mod Names
pub mod Fresh
pub mod SingleUse
pub mod Resolve
mod Tests
use yaxter.Common.{
  ℕ, ◌≡◌, Bool, true, false, not, ◌&&◌, Option, none, some, List, [], ◌∷◌, ◌++◌, Result, ok, err,
  ◌==◌, if◌then◌else◌, ◌>>=◌, ◌>>◌, guard,
}
use yaxter.Common.Decimal.{Text}
use yaxter.Redis.{Outcome, answered, refused, lost}
use Accounts.{
  Identity, Db, Error, unknown_provider, invalid_state, link_required, unavailable, Env,
  find_global, find_email, link,
}
use Create.{create_user}

-- `ModeLogin` and `ModeLink`
pub data Mode : Type 0 where
  login_mode link_mode : Mode

-- `stateData`
pub record StateData : Type 0 where
  pub provider : ℕ
  pub verifier : ℕ
  pub redirect_to : Text
  pub mode : Mode
  pub user_id : ℕ

-- `Provider`: the calls of a third party. `exchange code verifier uri` is the token or a failure.
pub record Provider : Type 0 where
  pub auth_code_url : ℕ → ℕ → Text → Text
  pub exchange : ℕ → ℕ → Text → Option ℕ
  pub identity : ℕ → Option Identity

-- The keys `oas:{state}` of Redis. `find` is what GET finds: the data, or a text that is no data;
-- `set` writes the data and `del` removes the key.
pub record States (S : Type 0) : Type 0 where
  pub find : ℕ → S → Option (Option StateData)
  pub set : ℕ → StateData → S → S
  pub del : ℕ → S → S
  pub find_set :
      (i j : ℕ) (d : StateData) (s : S)
      → find i (set j d s) ≡ (if i == j then some (some d) else find i s)
  pub find_del : (i j : ℕ) (s : S) → find i (del j s) ≡ (if i == j then none else find i s)

-- What the outside decides in `Start`: the two random tokens (`none`: `rand.Read` fails) and how
-- the SET ends.
pub record StartEnv : Type 0 where
  pub state : Option ℕ
  pub verifier : Option ℕ
  pub stored : Outcome

module _ {S : Type 0} (r : States S) (providers : ℕ → Option Provider) (callback_uri : ℕ → Text)
    (challenge : ℕ → ℕ) where
  set_outcome : Outcome → ℕ → StateData → Text → S → Result Error Text × S
  set_outcome answered state d url s = (ok url, r.set state d s)
  set_outcome refused state d url s = (err unavailable, s)
  set_outcome lost state d url s = (err unavailable, r.set state d s)

  start_tokens :
      Outcome → Provider → ℕ → Text → Mode → ℕ → Option ℕ → Option ℕ → S → Result Error Text × S
  start_tokens o p provider redirect mode user none v s = (err unavailable, s)
  start_tokens o p provider redirect mode user (some state) none s = (err unavailable, s)
  start_tokens o p provider redirect mode user (some state) (some verifier) s =
      set_outcome o state
        (record {
          provider = provider;
          verifier = verifier;
          redirect_to = redirect;
          mode = mode;
          user_id = user;
        })
        (p.auth_code_url state (challenge verifier) (callback_uri provider)) s

  start_with : StartEnv → Option Provider → ℕ → Text → Mode → ℕ → S → Result Error Text × S
  start_with e none provider redirect mode user s = (err unknown_provider, s)
  start_with e (some p) provider redirect mode user s =
      start_tokens e.stored p provider redirect mode user e.state e.verifier s

  -- `Start`
  unfoldable pub start : StartEnv → ℕ → Text → Mode → ℕ → S → Result Error Text × S
  unfolding start_with start_tokens set_outcome
  start e provider redirect mode user s =
      start_with e (providers provider) provider redirect mode user s

  -- The state's data, if they are those of the provider.
  parse : ℕ → Option (Option StateData) → Result Error StateData
  parse provider none = err invalid_state
  parse provider (some none) = err invalid_state
  parse provider (some (some d)) = if d.provider == provider then ok d else err invalid_state

  -- `GETDEL`, and the checks of what it returns.
  unfoldable pub consume : Outcome → ℕ → ℕ → S → Result Error StateData × S
  unfolding parse
  consume answered provider state s = (parse provider (r.find state s), r.del state s)
  consume refused provider state s = (err unavailable, s)
  consume lost provider state s = (err unavailable, r.del state s)

  token_of : Option ℕ → Result Error ℕ
  token_of none = err unavailable
  token_of (some t) = ok t

  identity_of : Option Identity → Result Error Identity
  identity_of none = err unavailable
  identity_of (some ident) = ok ident

  -- `p.Exchange` and `p.Identity`
  unfoldable pub ask : Provider → ℕ → ℕ → StateData → Result Error Identity
  unfolding token_of identity_of
  ask p provider code d = token_of (p.exchange code d.verifier (callback_uri provider)) >>= λ t.
      identity_of (p.identity t)

with_user : ℕ → Result Error Db → Result Error (ℕ × Db)
with_user user (ok db) = ok (user, db)
with_user user (err e) = err e

-- Rules 2 and 3. Rule 2 tests the email.
by_email : ℕ → Env → (ℕ → Bool) → ℕ → Identity → Option ℕ → Db → Option (Result Error (ℕ × Db))
by_email fuel e lookups provider ident none db = create_user fuel e lookups provider ident db
by_email fuel e lookups provider ident (some user) db = some (
    if not ident.email_verified
    then err link_required
    else with_user user (link e user provider ident db))

-- Rule 1: the user who has the identity.
by_identity : ℕ → Env → (ℕ → Bool) → ℕ → Identity → Option ℕ → Db → Option (Result Error (ℕ × Db))
by_identity fuel e lookups provider ident (some user) db = some (ok (user, db))
by_identity fuel e lookups provider ident none db =
    if e.fails 1
    then some (err unavailable)
    else by_email fuel e lookups provider ident (find_email ident.email db.users) db

-- The linking rules, for a state of the mode `ModeLogin`.
unfoldable pub sign_in : ℕ → Env → (ℕ → Bool) → ℕ → Identity → Db → Option (Result Error (ℕ × Db))
unfolding by_identity by_email with_user
sign_in fuel e lookups provider ident db =
    if e.fails 0
    then some (err unavailable)
    else by_identity fuel e lookups provider ident
        (find_global provider ident.provider_user_id db.global_identities) db

-- The part of `Callback` after the identity is known; `none` says that the fuel of the username
-- search ran out.
unfoldable pub resolve :
    ℕ → Env → (ℕ → Bool) → ℕ → Mode → ℕ → Identity → Db → Option (Result Error (ℕ × Db))
unfolding with_user
resolve fuel e lookups provider link_mode user ident db =
    some (with_user user (link e user provider ident db))
resolve fuel e lookups provider login_mode user ident db = sign_in fuel e lookups provider ident db

module _ {S : Type 0} (r : States S) (providers : ℕ → Option Provider) (callback_uri : ℕ → Text)
    (challenge : ℕ → ℕ) where
  callback_asked :
      ℕ
      → Env
      → (ℕ → Bool)
      → ℕ
      → StateData
      → Result Error Identity
      → Db
      → Option (Result Error (ℕ × Db))
  callback_asked fuel e lookups provider d (err x) db = some (err x)
  callback_asked fuel e lookups provider d (ok ident) db =
      resolve fuel e lookups provider d.mode d.user_id ident db

  callback_data :
      ℕ
      → Env
      → (ℕ → Bool)
      → Provider
      → ℕ
      → ℕ
      → Result Error StateData
      → Db
      → Option (Result Error (ℕ × Db))
  callback_data fuel e lookups p provider code (err x) db = some (err x)
  callback_data fuel e lookups p provider code (ok d) db =
      callback_asked fuel e lookups provider d
        (ask r providers callback_uri challenge p provider code d) db

  callback_with :
      ℕ
      → Env
      → (ℕ → Bool)
      → Outcome
      → Option Provider
      → ℕ
      → ℕ
      → ℕ
      → S
      → Db
      → Option (Result Error (ℕ × Db)) × S
  callback_with fuel e lookups o none provider code state s db = (some (err unknown_provider), s)
  callback_with fuel e lookups o (some p) provider code state s db =
      let (got, s') = consume r providers callback_uri challenge o provider state s in
      (callback_data fuel e lookups p provider code got db, s')

  -- `Callback`: the user and the tables after it, and the states.
  unfoldable pub callback :
      ℕ → Env → (ℕ → Bool) → Outcome → ℕ → ℕ → ℕ → S → Db → Option (Result Error (ℕ × Db)) × S
  unfolding callback_with callback_data callback_asked
  callback fuel e lookups o provider code state s db =
      callback_with fuel e lookups o (providers provider) provider code state s db
