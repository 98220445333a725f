-- ===== src/OAuth/Tests.antt =====
-- The theorems on social sign-in at concrete accounts, providers and states.
use yaxter.Common.{
  ℕ, suc, ◌+◌, ◌≡◌, ◌≤◌, refl, Bool, true, false, Option, none, some, List, [], ◌∷◌, ◌==◌,
  if◌then◌else◌, any, arith, ok, err, Result, ◌⊎◌, map, length, All,
}
use yaxter.Common.Decimal.{Text, decimal}
use yaxter.Redis.{answered, lost}
use yaxter.OAuth.Accounts.{
  Identity, Account, Link, Db, Error, Env, find_global, find_user, same_slot, global_row,
  insert_identity, link_tx, link_found, link, identity_count, check_account, unlink_check,
  unlink_tx, unlink, invalid_state,
}
use yaxter.OAuth.Create.{
  create_user, create_named, create_searched, free_name, base_of, clip, sanitize, candidate,
  is_taken, text_eq, is_word,
}
use yaxter.OAuth.Valid.{IsValid, kept}
use yaxter.OAuth.Unlink.{unlink-IsValid, unlink-race}
use yaxter.OAuth.Linking.{Linked, link-IsValid}
use yaxter.OAuth.Names.{IsSome, largest, create_user-returns, base_of-bounds}
use yaxter.OAuth.{
  StateData, Provider, States, login_mode, link_mode, start, sign_in, callback, consume, ask,
  resolve,
}
use yaxter.OAuth.SingleUse.{Event, starts, calls_back, events, callback-replayed}
use yaxter.OAuth.Resolve.{Resolved, sign_in-Resolved, sign_in-again}

abbrev ann : Account
ann = record { id = 1; username = b'a' ∷ b'n' ∷ b'n' ∷ []; email = 5; has_password = true }

abbrev bob : Account
bob = record { id = 2; username = b'b' ∷ b'o' ∷ b'b' ∷ []; email = 6; has_password = false }

abbrev bob_links : List Link
bob_links =
    record { user_id = 2; provider = 10; provider_user_id = 100; email = 6 }
    ∷ record { user_id = 2; provider = 11; provider_user_id = 101; email = 6 }
    ∷ []

abbrev db : Db
db = record {
  users = ann ∷ bob ∷ [];
  identities = bob_links;
  global_identities = map global_row bob_links;
  audit_log = [];
  notifications = [];
}

db-IsValid : IsValid db
db-IsValid = record {
  ids = (refl, (refl, tt));
  slots = (refl, (refl, tt));
  subjects = (refl, (refl, tt));
  mirror = refl;
  entered = (refl, (refl, tt));
}

abbrev env : Env
env = record { fails = λ n. false; fresh = λ n. 50 + n }

abbrev env' : Env
env' = record { fails = λ n. false; fresh = λ n. 60 + n }

abbrev unlinked : Result Error Db → Db
unlinked (ok x) = x
unlinked (err e) = db

unlink-IsValid_example :
    IsValid (unlinked (unlink env 2 10 db))
    × (any (same_slot 2 10) db.identities ≡ true)
    × (any (same_slot 2 10) (unlinked (unlink env 2 10 db)).identities ≡ false)
    × ((unlinked (unlink env 2 10 db)).identities ≡ kept 2 10 db.identities)
    × ((unlinked (unlink env 2 10 db)).users ≡ db.users)
unfolding unlink unlink_check check_account unlink_tx
unlink-IsValid_example = unlink-IsValid env 2 10 db db-IsValid refl

abbrev db_one : Db
db_one = unlinked (unlink_tx env 2 10 db)

abbrev db_none : Db
db_none = unlinked (unlink_tx env' 2 11 db_one)

unlink-race_example :
    (unlink_check env 2 db ≡ ok tt)
    × (unlink_check env' 2 db ≡ ok tt)
    × (identity_count 2 db_none.identities ≡ 0)
    × (find_user 2 db_none.users ≡ some bob)
unfolding unlink_tx
unlink-race_example =
    unlink-race env env' 2 10 11 db db_one db_none bob db-IsValid refl refl
      (λ e. absurd (omega arith)) refl refl refl refl refl refl refl

-- Ann's email, verified, with an identity that nobody has.
abbrev ann_google : Identity
ann_google = record {
  provider_user_id = 200;
  email = 5;
  email_verified = true;
  login = b'A' ∷ b'n' ∷ b'n' ∷ [];
}

abbrev linked : Option (Result Error (ℕ × Db)) → Db
linked (some (ok x)) = x.1
linked (some (err e)) = db
linked none = db

abbrev no_fails : ℕ → Bool
no_fails n = false

link-IsValid_example :
    IsValid (unlinked (link env 1 10 ann_google db))
    × (((find_global 10 200 db.global_identities ≡ some 1)
          × (unlinked (link env 1 10 ann_google db) ≡ db))
        ⊎ ((find_global 10 200 db.global_identities ≡ none)
            × (any (same_slot 1 10) db.identities ≡ false)
            × Linked env 1 10 ann_google db (unlinked (link env 1 10 ann_google db))))
unfolding link link_found link_tx insert_identity
link-IsValid_example = link-IsValid env 1 10 ann_google db db-IsValid refl

sign_in-Resolved_example :
    IsValid (linked (sign_in 3 env no_fails 10 ann_google db))
    × Resolved env 10 ann_google db 1 (linked (sign_in 3 env no_fails 10 ann_google db))
unfolding sign_in link link_found link_tx insert_identity
sign_in-Resolved_example = sign_in-Resolved 3 env no_fails 10 ann_google db db-IsValid refl

-- A login that sanitizes to a name that is taken, also in another case.
abbrev new_bob : Identity
new_bob = record {
  provider_user_id = 300;
  email = 9;
  email_verified = false;
  login = b'B' ∷ b'O' ∷ b'B' ∷ [];
}

sign_in-again_example :
    sign_in 1 env' no_fails 10
      (record new_bob { email = 77 })
      (linked (sign_in 3 env no_fails 10 new_bob db))
    ≡ some (ok (52, linked (sign_in 3 env no_fails 10 new_bob db)))
unfolding sign_in create_user create_searched create_named free_name base_of clip sanitize candidate
    is_taken text_eq decimal insert_identity
sign_in-again_example =
    sign_in-again 3 1 env env' no_fails no_fails 10 new_bob (record new_bob { email = 77 }) db
      db-IsValid refl refl refl

create_user-returns_example :
    IsSome (
      create_user (suc (suc (largest (base_of new_bob.login) db.users))) env no_fails 10 new_bob db)
create_user-returns_example = create_user-returns env no_fails 10 new_bob db

base_of-bounds_example :
    (3 ≤ length (base_of (233 ∷ [])))
    × (length (base_of (233 ∷ [])) ≤ 24)
    × All (λ c. is_word c ≡ true) (base_of (233 ∷ []))
base_of-bounds_example = base_of-bounds (233 ∷ [])

-- States as a function, and one provider for every name.
abbrev Store : Type 0
Store = ℕ → Option (Option StateData)

abbrev store : States Store
store = record {
  find = λ i s. s i;
  set = λ j d s i. if i == j then some (some d) else s i;
  del = λ j s i. if i == j then none else s i;
  find_set = λ i j d s. refl;
  find_del = λ i j s. refl;
}

abbrev google : Provider
google = record {
  auth_code_url = λ state c uri. uri;
  exchange = λ code verifier uri. some code;
  identity = λ t. some ann_google;
}

abbrev google_only : ℕ → Option Provider
google_only n = if n == 10 then some google else none

abbrev uri : ℕ → Text
uri n = []

abbrev started : Store
started =
    (start store google_only uri (λ v. v)
      (record { state = some 7; verifier = some 8; stored = answered }) 10 [] login_mode 0
      (λ i. none)).1

callback-started :
    (callback store google_only uri (λ v. v) 3 env no_fails answered 10 4 7 started db).0
    ≡ some (ok (1, linked (sign_in 3 env no_fails 10 ann_google db)))
unfolding callback consume start ask resolve sign_in link link_tx insert_identity
callback-started = refl

abbrev between : List Event
between =
    starts (record { state = some 9; verifier = some 8; stored = lost }) 10 [] link_mode 2
    ∷ calls_back 3 env no_fails answered 10 4 7 db
    ∷ []

callback-replayed_example :
    (callback store google_only uri
      (λ v. v)
      3
      env'
      no_fails
      answered
      10
      5
      7
      (events store google_only uri
        (λ v. v)
        between
        (callback store google_only uri (λ v. v) 3 env no_fails answered 10 4 7 started db).1)
      db).0
    ≡ some (err invalid_state)
callback-replayed_example =
    callback-replayed store google_only uri (λ v. v) 3 env no_fails answered 10 4 7 started db
      between 3 env' no_fails 10 5 db google google refl refl (λ e. cc)
      ((λ e. absurd (ground arith)), (tt, tt))
