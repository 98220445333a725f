-- ===== src/Auth/Tests.antt =====
-- The theorems on passwords and sessions, with a key function that fills the key by the first byte of
-- the password, and a signer of one claim.
use yaxter.Common.{
  ◌⊎◌, Option, ℕ, zero, suc, ◌+◌, ◌*◌, ◌/◌, ◌%◌, ◌<◌, ◌≡◌, refl, ap, ◌==◌, true, false, ◌||◌, none,
  some, [], ◌∷◌, ◌++◌, if◌then◌else◌, Result, ok, err, any, All, arith, inr, ltb, length,
}
use yaxter.Common.Int.{pos}
use yaxter.Common.Decimal.{Text, decimal}
use yaxter.Events.{codes}
use yaxter.Refresh
use yaxter.Refresh.{issue_new_family, insert}
use yaxter.Auth.Base64.{encode, decode, sextets, char_of, values, value_of, bytes, IsByte}
use yaxter.Auth.Password.{
  Argon, hash_password, verify_password, same_text, key_of, phc, split, scan_params, expect, digits,
}
use yaxter.Auth.Password.Verify.{verify-hash}
use yaxter.Auth.Tokens.{issue, verify, verify-issue}
use yaxter.Auth
use yaxter.Auth.Sample.{jwt, issuer}
use yaxter.Auth.{
  Account, User, TokenPair, Db, invalid_credentials, Env, find_login, user_of, pair, register,
  login,
}
use yaxter.Auth.Login.{Accepts, Session, login-Session}
use yaxter.Auth.Refused.{Panics, login-refused}
use yaxter.Auth.Register.{register-login}

abbrev fill : ℕ → ℕ → Text
fill zero b = []
fill (suc n) b = b ∷ fill n b

abbrev first : Text → ℕ
first [] = 0
first (c ∷ cs) = c % 256

fill-bytes : (n b : ℕ) → b < 256 → All IsByte (fill n b)
fill-bytes zero b h = tt
fill-bytes (suc n) b h = (h, fill-bytes n b h)

length-fill : (n b : ℕ) → length (fill n b) ≡ n
length-fill zero b = refl
length-fill (suc n) b = ap suc (length-fill n b)

first-byte : (p : Text) → first p < 256
first-byte [] = omega arith
first-byte (c ∷ cs) = omega arith

abbrev argon : Argon
argon = record {
  id_key = λ p salt t m n len. fill len (first p);
  id_key-bytes = λ p salt t m n len. fill-bytes len (first p) (first-byte p);
  length-id_key = λ p salt t m n len. length-fill len (first p);
}

abbrev hash_token : ℕ → ℕ
hash_token t = t + 1000

abbrev secret : Text
secret = 115 ∷ 51 ∷ []

abbrev salt : Text
salt = 1 ∷ 2 ∷ 3 ∷ 4 ∷ []

abbrev stored : Result (Unit {0}) Text → Text
stored (ok t) = t
stored (err e) = []

abbrev secret_hash : Text
secret_hash = stored (hash_password argon secret (some salt))

verify-hash_example :
    (verify_password argon (codes "other") secret_hash
      ≡ some (ok (same_text (key_of argon (codes "other") salt) (key_of argon secret salt))))
    × (verify_password argon secret secret_hash ≡ some (ok true))
unfolding hash_password
verify-hash_example =
    verify-hash argon secret (codes "other") salt
      (omega arith, (omega arith, (omega arith, (omega arith, tt)))) refl

verify-issue_example : verify jwt issuer 906999 5 ≡ ok (pos 4)
unfolding issue decimal same_text
verify-issue_example = verify-issue jwt issuer 7000 906999 4 (omega arith) refl

abbrev refresh_env : Refresh.Env
refresh_env = record { fails = false; go_now = 7; pg_now = 7; fresh_id = 90; random = some 600 }

abbrev env : Env
env = record {
  fails = false;
  now = 7000;
  pg_now = 7;
  fresh_id = 4;
  salt = some salt;
  refresh = refresh_env;
}

abbrev db : Db
db = record {
  users =
      record { id = 1; username = 11; email = 12; bio = []; created_at = 3; pass_hash = none } ∷ [];
  identities = (1, 10) ∷ [];
  refresh_tokens = [];
}

abbrev later_env : Env
later_env = record env { refresh = record refresh_env { fresh_id = 91; random = some 601 } }

abbrev db' : Db
db' = (register jwt argon hash_token issuer 100 env 21 22 secret db).1

abbrev ann : User
ann = record { id = 4; username = 21; email = 22; bio = []; created_at = 7; has_password = false }

abbrev pair_of : ℕ → TokenPair
pair_of t = record { access = 5; refresh = t; expires_in = 900 }

register-ann :
    register jwt argon hash_token issuer 100 env 21 22 secret db ≡ (ok (ann, pair_of 600), db')
unfolding register pair issue decimal same_text issue_new_family insert hash_password
register-ann = refl

register-login_example :
    (◌≡◌ {A = ℕ} 4 4)
    × (any (λ a. a.id == 4 || a.username == 21 || a.email == 22) db.users ≡ false)
    × ((a : Account) × (db'.users ≡ db.users ++ a ∷ []) × (ann ≡ user_of a false))
    × (issue jwt issuer 7000 4 ≡ some 5)
    × (login jwt argon hash_token issuer 100 later_env 22 secret db'
        ≡ some (ok (ann, pair_of 601), (pair jwt argon hash_token issuer 100 later_env 4 db').1))
unfolding pair issue decimal same_text issue_new_family insert register hash_password
register-login_example =
    register-login jwt argon hash_token issuer 100 env later_env 21 22 22 secret salt db refl
      (omega arith, (omega arith, (omega arith, (omega arith, tt)))) register-ann (inr refl) refl
      refl refl

login-refused_example :
    (login jwt argon hash_token issuer 100 env 11 secret db ≡ some (err invalid_credentials, db))
    ⊎ ((login jwt argon hash_token issuer 100 env 11 secret db ≡ none)
        × ((a : Account) × Panics jwt argon hash_token issuer 100 11 secret db a))
unfolding find_login
login-refused_example =
    login-refused jwt argon hash_token issuer 100 env 11 secret db refl
      (λ a acc. ground (arith, acc.0, acc.1.1))

-- A hash without a key is read, and then `IDKey` panics.
verify-keyless : verify_password argon secret (codes "$argon2id$v=19$m=65536,t=1,p=4$AQ$") ≡ none
unfolding verify_password split scan_params expect digits decode values value_of bytes same_text
verify-keyless = refl

abbrev db_of : Option (Result Auth.Error (User × TokenPair) × Db) → Db
db_of none = db
db_of (some (r, d)) = d

abbrev later_db : Db
later_db = db_of (login jwt argon hash_token issuer 100 later_env 22 secret db')

login-ann :
    login jwt argon hash_token issuer 100 later_env 22 secret db'
    ≡ some (ok (ann, pair_of 601), later_db)
unfolding register login find_login verify_password split scan_params expect digits decode values
    value_of bytes pair issue decimal same_text issue_new_family insert hash_password phc encode
    sextets char_of
login-ann = refl

login-Session_example :
    (a : Account) × Accepts jwt argon hash_token issuer 100 22 secret db' a
    × (ann ≡ user_of a false)
    × Session jwt argon hash_token issuer 100 later_env a.id db' (pair_of 601) later_db
    × (verify jwt issuer 906999 5
        ≡ (if ltb 906999 ((7000 + issuer.ttl) / 1000 * 1000) then ok (pos a.id) else err tt))
unfolding register pair issue decimal same_text issue_new_family insert hash_password
login-Session_example =
    login-Session jwt argon hash_token issuer 100 later_env 22 secret db' 906999
      (omega arith, (omega arith, tt)) login-ann
