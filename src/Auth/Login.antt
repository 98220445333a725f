-- ===== src/Auth/Login.antt =====
-- Who can log in, and what they get.
use yaxter.Common.{
  ℕ, ◌+◌, ◌*◌, ◌/◌, ◌^◌, ◌<◌, ◌≡◌, refl, sym, ap, ◌∙◌, Bool, true, false, Option, none, some, List,
  [], ◌∷◌, if◌then◌else◌, Result, ok, err, All, arith, Bool-cases, inl, inr, ltb,
}
use yaxter.Common.Int.{pos}
use mathlib.Core.Option.{some-injective}
use mathlib.Core.Path.{subst}
use yaxter.Common.Decimal.{Text}
use yaxter.Refresh
use yaxter.Refresh.{Table, issue_new_family}
use yaxter.Auth.Password.{Argon, verify_password}
use yaxter.Auth.Tokens.{Jwt, Issuer, issue, verify, verify-issue}
use yaxter.Auth.{
  Account, User, TokenPair, Db, Error, unavailable, Env, find_login, user_of, has_login, pair,
  with_access, with_refresh, and_user, checked, with_hash, with_account, login,
}

module _ (j : Jwt) (argon : Argon) (hash_token : ℕ → ℕ) (issuer : Issuer) (refresh_ttl : ℕ) where
  -- A session of the user: an access token, and a refresh token that starts a new family.
  abbrev pub Session : Env → ℕ → Db → TokenPair → Db → Type 0
  Session e user db p db' =
      (issue j issuer e.now user ≡ some p.access)
      × (issue_new_family hash_token refresh_ttl e.refresh user db.refresh_tokens
          ≡ (ok p.refresh, db'.refresh_tokens))
      × (p.expires_in ≡ issuer.ttl / 1000)
      × (db'.users ≡ db.users)

  with_refresh-inv :
      (access : ℕ) (db : Db) (x : Result Refresh.Error ℕ × Table) {p : TokenPair} {db' : Db}
      → with_refresh j argon hash_token issuer refresh_ttl access db x ≡ (ok p, db')
      → (access ≡ p.access)
        × (x ≡ (ok p.refresh, db'.refresh_tokens))
        × (p.expires_in ≡ issuer.ttl / 1000)
        × (db'.users ≡ db.users)
  unfolding with_refresh
  with_refresh-inv access db (err x, t) h = absurd (ground (arith, ap (λ y. y.0) h))
  with_refresh-inv access db (ok token, t) {p} {db'} h =
      let made = ap (λ y. y.0) h in
      let left = ap (λ y. y.1) h in
      (ground (arith, made), ground (arith, made, left), ground (arith, made), ground (arith, left))

  pub pair-Session :
      (e : Env) (user : ℕ) (db : Db) {p : TokenPair} {db' : Db}
      → pair j argon hash_token issuer refresh_ttl e user db ≡ (ok p, db')
      → Session e user db p db'
  unfolding pair with_access
  pair-Session e user db {p} {db'} h = by_access (issue j issuer e.now user) h
    where
      by_access :
          (o : Option ℕ)
          → with_access j argon hash_token issuer refresh_ttl e.refresh user o db ≡ (ok p, db')
          → (o ≡ some p.access)
            × (issue_new_family hash_token refresh_ttl e.refresh user db.refresh_tokens
                ≡ (ok p.refresh, db'.refresh_tokens))
            × (p.expires_in ≡ issuer.ttl / 1000)
            × (db'.users ≡ db.users)
      by_access none k = absurd (ground (arith, ap (λ y. y.0) k))
      by_access (some access) k =
          let (same, row, life, users) =
            with_refresh-inv access db
              (issue_new_family hash_token refresh_ttl e.refresh user db.refresh_tokens) {p = p}
              {db' = db'} k in
          (ap some same, row, life, users)

  pub and_user-inv :
      (u : User) (x : Result Error TokenPair × Db) {v : User} {p : TokenPair} {db' : Db}
      → and_user j argon hash_token issuer refresh_ttl u x ≡ (ok (v, p), db')
      → (u ≡ v) × (x ≡ (ok p, db'))
  unfolding and_user
  and_user-inv u (ok p', db) h =
      let made = ap (λ y. y.0) h in
      let left = ap (λ y. y.1) h in (ground (arith, made), ground (arith, made, left))
  and_user-inv u (err x, db) h = absurd (ground (arith, ap (λ y. y.0) h))

  -- The account that the login names, with a password hash that accepts the password.
  abbrev pub Accepts : ℕ → Text → Db → Account → Type 0
  Accepts l password db a =
      (find_login l db.users ≡ some a)
      × ((hash : Text) × (a.pass_hash ≡ some hash)
          × (verify_password argon password hash ≡ some (ok true)))

  checked-inv :
      (e : Env) (a : Account) (r : Option (Result (Unit {0}) Bool)) (db : Db) {u : User}
      {p : TokenPair} {db' : Db}
      → checked j argon hash_token issuer refresh_ttl e a r db ≡ some (ok (u, p), db')
      → (r ≡ some (ok true))
        × (user_of a false ≡ u)
        × (pair j argon hash_token issuer refresh_ttl e a.id db ≡ (ok p, db'))
  unfolding checked
  checked-inv e a none db h = absurd (ground arith)
  checked-inv e a (some (ok true)) db {u} {p} {db'} h =
      let (same, made) =
        and_user-inv (user_of a false) (pair j argon hash_token issuer refresh_ttl e a.id db)
          {v = u} {p = p} {db' = db'} (some-injective _ _ h) in
      (refl, same, made)
  checked-inv e a (some (ok false)) db h =
      absurd (ground (arith, ap (λ y. y.0) (some-injective _ _ h)))
  checked-inv e a (some (err x)) db h =
      absurd (ground (arith, ap (λ y. y.0) (some-injective _ _ h)))

  with_account-inv :
      (e : Env) (password : Text) (o : Option Account) (db : Db) {u : User} {p : TokenPair}
      {db' : Db}
      → with_account j argon hash_token issuer refresh_ttl e password o db ≡ some (ok (u, p), db')
      → (a : Account) × (o ≡ some a)
        × ((hash : Text) × (a.pass_hash ≡ some hash)
            × (verify_password argon password hash ≡ some (ok true)))
        × (user_of a false ≡ u)
        × (pair j argon hash_token issuer refresh_ttl e a.id db ≡ (ok p, db'))
  unfolding with_account with_hash
  with_account-inv e password none db h =
      absurd (ground (arith, ap (λ y. y.0) (some-injective _ _ h)))
  with_account-inv e password (some a) db {u} {p} {db'} h = by_hash a.pass_hash refl h
    where
      by_hash :
          (o : Option Text)
          → a.pass_hash ≡ o
          → with_hash j argon hash_token issuer refresh_ttl e a password o db
            ≡ some (ok (u, p), db')
          → (b : Account) × (some a ≡ some b)
            × ((hash : Text) × (b.pass_hash ≡ some hash)
                × (verify_password argon password hash ≡ some (ok true)))
            × (user_of b false ≡ u)
            × (pair j argon hash_token issuer refresh_ttl e b.id db ≡ (ok p, db'))
      by_hash none same k = absurd (ground (arith, ap (λ y. y.0) (some-injective _ _ k)))
      by_hash (some hash) same k =
          let (good, who, made) =
            checked-inv e a (verify_password argon password hash) db {u = u} {p = p} {db' = db'}
              k in
          (a, refl, (hash, same, good), who, made)

  find_login-All :
      (P : Account → Type 0) (l : ℕ) (rows : List Account) {a : Account}
      → All P rows
      → find_login l rows ≡ some a
      → P a
  unfolding find_login
  find_login-All P l [] h found = absurd (ground arith)
  find_login-All P l (b ∷ rows) h found = elim (Bool-cases (has_login l b)) [
    | inl this ↦ let same : b ≡ _ = ground arith in subst P same h.0
    | inr other ↦ find_login-All P l rows h.1 (ground arith)
  ]

  -- A login that succeeds names an account that has a password hash, which accepts the password. It gives that
  -- account's user with a session of the account: an access token that verifies as the account's id until
  -- the whole second of its end and then no more, and a refresh token of a new family; the accounts
  -- have not changed.
  pub login-Session :
      (e : Env) (l : ℕ) (password : Text) (db : Db) {u : User} {p : TokenPair} {db' : Db}
      (later : ℕ)
      → All (λ a. a.id < 2 ^ 63) db.users
      → login j argon hash_token issuer refresh_ttl e l password db ≡ some (ok (u, p), db')
      → (a : Account) × Accepts l password db a
        × (u ≡ user_of a false)
        × Session e a.id db p db'
        × (verify j issuer later p.access
            ≡ (if ltb later ((e.now + issuer.ttl) / 1000 * 1000) then ok (pos a.id) else err tt))
  unfolding login
  login-Session e l password db {u} {p} {db'} later fits h = elim (Bool-cases e.fails) [
    | inl broken ↦ absurd (
        ground (
          arith,
          ap (λ y. y.0)
              (some-injective (err unavailable, db) (ok (u, p), db') (sym (rw broken refl) ∙ h)),
        ))
    | inr works ↦
        let (a, found, accepts, who, made) =
          with_account-inv e password (find_login l db.users) db {u = u} {p = p} {db' = db'}
            (sym (rw works refl) ∙ h) in
        let session = pair-Session e a.id db {p = p} {db' = db'} made in
        (
          a,
          (found, accepts),
          sym who,
          session,
          verify-issue j issuer e.now later a.id {t = p.access}
              (find_login-All (λ x. x.id < 2 ^ 63) l db.users fits found) session.0,
        )
  ]

  -- The way through a login.
  pub login-accepted :
      (e : Env) (l : ℕ) (password : Text) (db : Db) (a : Account) (hash : Text) {p : TokenPair}
      {db' : Db}
      → e.fails ≡ false
      → find_login l db.users ≡ some a
      → a.pass_hash ≡ some hash
      → verify_password argon password hash ≡ some (ok true)
      → pair j argon hash_token issuer refresh_ttl e a.id db ≡ (ok p, db')
      → login j argon hash_token issuer refresh_ttl e l password db
        ≡ some (ok (user_of a false, p), db')
  unfolding login with_account with_hash checked and_user
  login-accepted e l password db a hash works found set good made =
      ap
        (λ b.
          if b
          then some (err unavailable, db)
          else with_account j argon hash_token issuer refresh_ttl e password (find_login l db.users)
              db)
        works
      ∙ ap (λ o. with_account j argon hash_token issuer refresh_ttl e password o db) found
      ∙ ap (λ o. with_hash j argon hash_token issuer refresh_ttl e a password o db) set
      ∙ ap (λ r. checked j argon hash_token issuer refresh_ttl e a r db) good
      ∙ ap (λ x. some (and_user j argon hash_token issuer refresh_ttl (user_of a false) x)) made
