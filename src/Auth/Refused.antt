-- ===== src/Auth/Refused.antt =====
-- Logins that are refused.
use yaxter.Common.{
  ◌⊎◌, inl, inr, ℕ, ◌≡◌, ◌≢◌, refl, sym, ap, Bool, true, false, Option, none, some, if◌then◌else◌,
  Result, ok, err,
}
use mathlib.Core.Path.{subst}
use yaxter.Common.Decimal.{Text}
use yaxter.Auth.Password.{Argon, verify_password}
use yaxter.Auth.Tokens.{Jwt, Issuer}
use yaxter.Auth.{
  Account, Db, User, TokenPair, Error, invalid_credentials, unavailable, Env, find_login, checked,
  with_hash, with_account, login,
}
use yaxter.Auth.Login.{Accepts}

module _ (j : Jwt) (argon : Argon) (hash_token : ℕ → ℕ) (issuer : Issuer) (refresh_ttl : ℕ) where
  -- The account that the login names has a hash at which `VerifyPassword` panics.
  abbrev pub Panics : ℕ → Text → Db → Account → Type 0
  Panics l password db a =
      (find_login l db.users ≡ some a)
      × ((hash : Text) × (a.pass_hash ≡ some hash) × (verify_password argon password hash ≡ none))

  -- Whatever the reason, an unknown login, an account without a password, a wrong password or a hash
  -- that `VerifyPassword` cannot read: the answer of a database that works is
  -- `invalid_credentials`, and nothing has changed, unless the account's hash is one at which
  -- `VerifyPassword` panics, and then `Login` panics.
  pub login-refused :
      (e : Env) (l : ℕ) (password : Text) (db : Db)
      → e.fails ≡ false
      → ((a : Account) → Accepts j argon hash_token issuer refresh_ttl l password db a → ⊥)
      → (login j argon hash_token issuer refresh_ttl e l password db
          ≡ some (err invalid_credentials, db))
        ⊎ ((login j argon hash_token issuer refresh_ttl e l password db ≡ none)
            × ((a : Account) × Panics l password db a))
  unfolding login with_account
  login-refused e l password db works never =
      subst Ends
        (sym (
          ap
            (λ b.
              if b
              then some (err unavailable, db)
              else with_account j argon hash_token issuer refresh_ttl e password
                  (find_login l db.users) db)
            works))
        (by_account (find_login l db.users) refl)
    where
      Ends : Option (Result Error (User × TokenPair) × Db) → Type 0
      Ends r =
          (r ≡ some (err invalid_credentials, db))
          ⊎ ((r ≡ none) × ((a : Account) × Panics l password db a))

      by_result :
          (a : Account) (r : Option (Result (Unit {0}) Bool))
          → r ≢ some (ok true)
          → (r ≡ none → Panics l password db a)
          → Ends (checked j argon hash_token issuer refresh_ttl e a r db)
      by_result a none ne p = unfold checked in inr (refl, (a, p refl))
      by_result a (some (ok true)) ne p = absurd (ne refl)
      by_result a (some (ok false)) ne p = unfold checked in inl refl
      by_result a (some (err x)) ne p = unfold checked in inl refl

      by_hash :
          (a : Account) (o : Option Text)
          → find_login l db.users ≡ some a
          → a.pass_hash ≡ o
          → Ends (with_hash j argon hash_token issuer refresh_ttl e a password o db)
      by_hash a none found none_set = unfold with_hash in inl refl
      by_hash a (some hash) found set =
          unfold with_hash in
          by_result a (verify_password argon password hash)
            (λ good. never a (found, (hash, set, good))) (λ bad. (found, (hash, set, bad)))

      by_account :
          (o : Option Account)
          → find_login l db.users ≡ o
          → Ends (with_account j argon hash_token issuer refresh_ttl e password o db)
      by_account none found = inl refl
      by_account (some a) found = by_hash a a.pass_hash found refl
