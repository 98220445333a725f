-- ===== src/Auth/Register.antt =====
-- A registration that succeeds can log in.
use yaxter.Common.{
  ℕ, ◌≡◌, refl, sym, ap, ◌∙◌, ◌==◌, true, false, ◌||◌, some, List, [], ◌∷◌, ◌++◌, Result, ok, err,
  any, All, arith, Bool-cases, inl, inr, ◌⊎◌,
}
use yaxter.Common.Decimal.{Text}
use yaxter.Auth.Base64.{IsByte}
use yaxter.Auth.Password.{Argon, hash_password}
use yaxter.Auth.Password.Verify.{verify-hash}
use yaxter.Auth.Tokens.{Jwt, Issuer, issue}
use yaxter.Auth.{
  Account, User, TokenPair, Db, Env, find_login, has_login, user_of, pair, new_account, insert,
  register, login,
}
use yaxter.Auth.Login.{Session, pair-Session, and_user-inv, login-accepted}

module _ (j : Jwt) (argon : Argon) (hash_token : ℕ → ℕ) (issuer : Issuer) (refresh_ttl : ℕ) where
  find_login-append :
      (l : ℕ) (rows : List Account) (a : Account)
      → any (has_login l) rows ≡ false
      → has_login l a ≡ true
      → find_login l (rows ++ a ∷ []) ≡ some a
  unfolding find_login
  find_login-append l [] a h k = rw k refl
  find_login-append l (b ∷ rows) a h k = ground (arith, find_login-append l rows a)

  insert-inv :
      (e : Env) (username email : ℕ) (r : Result (Unit {0}) Text) (db : Db) {u : User}
      {p : TokenPair} {db' : Db}
      → insert j argon hash_token issuer refresh_ttl e username email r db ≡ (ok (u, p), db')
      → (hash : Text) × (r ≡ ok hash)
        × (any (λ a. a.id == e.fresh_id || a.username == username || a.email == email) db.users
            ≡ false)
        × (u
            ≡ user_of
                (new_account j argon hash_token issuer refresh_ttl e username email hash)
                false)
        × (db'.users
            ≡ db.users
              ++ new_account j argon hash_token issuer refresh_ttl e username email hash ∷ [])
        × Session j argon hash_token issuer refresh_ttl e e.fresh_id
            (record db {
              users =
                  db.users
                  ++ new_account j argon hash_token issuer refresh_ttl e username email hash ∷ [];
            })
            p
            db'
  unfolding insert
  insert-inv e username email (err x) db h = absurd (ground (arith, ap (λ y. y.0) h))
  insert-inv e username email (ok hash) db {u} {p} {db'} h = elim (Bool-cases e.fails) [
    | inl broken ↦ absurd (ground (arith, ap (λ y. y.0) h))
    | inr works ↦
        elim (Bool-cases
          (any (λ a. a.id == e.fresh_id || a.username == username || a.email == email) db.users)) [
            | inl taken ↦ absurd (ground (arith, ap (λ y. y.0) h))
            | inr free ↦
                let a = new_account j argon hash_token issuer refresh_ttl e username email hash in
                let full : Db = record db { users = db.users ++ a ∷ [] } in
                let (who, made) =
                  and_user-inv j argon hash_token issuer refresh_ttl (user_of a false)
                    (pair j argon hash_token issuer refresh_ttl e e.fresh_id full) {v = u} {p = p}
                    {db' = db'} (ground (arith, h)) in
                let session =
                  pair-Session j argon hash_token issuer refresh_ttl e e.fresh_id full {p = p}
                    {db' = db'} made in
                (hash, refl, free, sym who, session.3, session)
          ]
  ]

  -- A registration that succeeds was of a username and an email that no account had, and adds one account at the
  -- end, without changing another, with a session of it. With the salt a list of bytes, a later login
  -- by its username or its email, if it is no login of the accounts before, with the password
  -- gives the account with the session that `pair` then issues.
  pub register-login :
      (e e' : Env) (username email l : ℕ) (password salt : Text) (db : Db) {u : User}
      {p p' : TokenPair} {db' db'' : Db}
      → e.salt ≡ some salt
      → All IsByte salt
      → register j argon hash_token issuer refresh_ttl e username email password db
        ≡ (ok (u, p), db')
      → (l ≡ username) ⊎ (l ≡ email)
      → any (has_login l) db.users ≡ false
      → e'.fails ≡ false
      → pair j argon hash_token issuer refresh_ttl e' e.fresh_id db' ≡ (ok p', db'')
      → (u.id ≡ e.fresh_id)
        × (any (λ a. a.id == e.fresh_id || a.username == username || a.email == email) db.users
            ≡ false)
        × ((a : Account) × (db'.users ≡ db.users ++ a ∷ []) × (u ≡ user_of a false))
        × (issue j issuer e.now e.fresh_id ≡ some p.access)
        × (login j argon hash_token issuer refresh_ttl e' l password db' ≡ some (ok (u, p'), db''))
  unfolding register new_account
  register-login e e' username email l password salt db {u} {p} {p'} {db'} {db''} salted bytes h
        names unknown works issued =
      let (hash, hashed, free, who, users, session) =
        insert-inv e username email (hash_password argon password e.salt) db {u = u} {p = p}
          {db' = db'} h in
      let a = new_account j argon hash_token issuer refresh_ttl e username email hash in
      let made : hash_password argon password (some salt) ≡ ok hash =
        ap (hash_password argon password) (sym salted) ∙ hashed in
      let good = (verify-hash argon password password salt {hash = hash} bytes made).1 in
      let named : has_login l a ≡ true = ground (arith, names) in
      let found : find_login l db'.users ≡ some a =
        ap (find_login l) users ∙ find_login-append l db.users a unknown named in
      (
        ap (λ x. x.id) who,
        free,
        (a, users, who),
        session.0,
        login-accepted j argon hash_token issuer refresh_ttl e' l password db' a hash {p = p'}
              {db' = db''} works found refl good issued
            ∙ ap (λ x. some (ok (x, p'), db'')) (sym who),
      )
