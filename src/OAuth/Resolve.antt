-- ===== src/OAuth/Resolve.antt =====
-- The linking rules: whom a sign-in gives, and what it changes.
use yaxter.Common.{
  ℕ, ◌≡◌, refl, sym, ap, ◌∙◌, Bool, true, false, ◌⊎◌, Option, none, some, Result, ok, err, arith,
  Bool-cases, Option-cases, inl, inr,
}
use mathlib.Core.Path.{subst}
use yaxter.Common.Decimal.{Text}
use yaxter.OAuth.Accounts.{Identity, Db, Error, Env, find_global, find_email, link}
use yaxter.OAuth.Create.{base_of, candidate, is_taken}
use yaxter.OAuth.Valid.{IsValid}
use yaxter.OAuth.Linking.{Linked, link-IsValid, Created}
use yaxter.OAuth.Fresh.{create_user-Created}
use yaxter.OAuth.{with_user, by_email, by_identity, sign_in}

-- A new account for an email that no account has.
abbrev pub IsNew : Env → ℕ → Identity → Db → ℕ → Db → Type 0
IsNew e p ident db user db' =
    (find_email ident.email db.users ≡ none)
    × ((name : Text) × Created e p ident name db user db'
        × (is_taken name db.users ≡ false)
        × ((name ≡ base_of ident.login) ⊎ ((i : ℕ) × (name ≡ candidate (base_of ident.login) i))))

-- The account of a verified email, to which the identity is linked.
abbrev pub IsVerified : Env → ℕ → Identity → Db → ℕ → Db → Type 0
IsVerified e p ident db user db' =
    (find_email ident.email db.users ≡ some user)
    × (ident.email_verified ≡ true)
    × Linked e user p ident db db'

abbrev pub Resolved : Env → ℕ → Identity → Db → ℕ → Db → Type 0
Resolved e p ident db user db' =
    ((find_global p ident.provider_user_id db.global_identities ≡ some user) × (db' ≡ db))
    ⊎ ((find_global p ident.provider_user_id db.global_identities ≡ none)
        × (IsVerified e p ident db user db' ⊎ IsNew e p ident db user db'))

with_user-ok :
    (user : ℕ) (m : Result Error Db) {id : ℕ} {db' : Db}
    → with_user user m ≡ ok (id, db')
    → (m ≡ ok db') × (user ≡ id)
unfolding with_user
with_user-ok user (ok db) h = (ground arith, ground arith)
with_user-ok user (err x) h = absurd (ground arith)

verified-link :
    (e : Env) (p : ℕ) (ident : Identity) (db : Db) (user : ℕ) {db' : Db}
    → IsValid db
    → find_global p ident.provider_user_id db.global_identities ≡ none
    → link e user p ident db ≡ ok db'
    → IsValid db' × Linked e user p ident db db'
verified-link e p ident db user {db'} v absent h =
    let (v', how) = link-IsValid e user p ident db {db' = db'} v h in
    (v', elim how [ inl known ↦ absurd (ground (arith, known.0)) | inr (_, _, linked) ↦ linked ])

by_email-Resolved :
    (fuel : ℕ) (e : Env) (lookups : ℕ → Bool) (p : ℕ) (ident : Identity) (o : Option ℕ) (db : Db)
    {user : ℕ} {db' : Db}
    → IsValid db
    → find_global p ident.provider_user_id db.global_identities ≡ none
    → find_email ident.email db.users ≡ o
    → by_email fuel e lookups p ident o db ≡ some (ok (user, db'))
    → IsValid db' × (IsVerified e p ident db user db' ⊎ IsNew e p ident db user db')
unfolding by_email
by_email-Resolved fuel e lookups p ident none db {user} {db'} v absent found h =
    let (v', email, new) =
      create_user-Created fuel e lookups p ident db {id = user} {db' = db'} v h in
    (v', inr (email, new))
by_email-Resolved fuel e lookups p ident (some u) db {user} {db'} v absent found h =
    elim (Bool-cases ident.email_verified) [
      | inr unverified ↦ absurd (ground arith)
      | inl verified ↦
          let (linked, same) =
            with_user-ok u (link e u p ident db) {id = user} {db' = db'} (ground arith) in
          let (v', rows) = verified-link e p ident db u {db' = db'} v absent linked in
          (
            v',
            inl (found ∙ ap some same, verified, subst (λ x. Linked e x p ident db db') same rows),
          )
    ]

-- A sign-in that succeeds on valid accounts leaves them valid, and gives one of three users: the one
-- who has the identity, and then nothing has changed; or, if nobody has it, the account with the
-- provider's email, but only if the provider asserts that the email is verified, and then the
-- identity, an audit row and a notification are added to that account; or, if no account has
-- the email either, a new account with this identity and a username that was free.
pub sign_in-Resolved :
    (fuel : ℕ) (e : Env) (lookups : ℕ → Bool) (p : ℕ) (ident : Identity) (db : Db) {user : ℕ}
    {db' : Db}
    → IsValid db
    → sign_in fuel e lookups p ident db ≡ some (ok (user, db'))
    → IsValid db' × Resolved e p ident db user db'
unfolding sign_in by_identity
sign_in-Resolved fuel e lookups p ident db {user} {db'} v h =
    elim (Option-cases (find_global p ident.provider_user_id db.global_identities)) [
      | inl absent ↦
          let (v', how) =
            by_email-Resolved fuel e lookups p ident (find_email ident.email db.users) db
              {user = user} {db' = db'} v absent refl (ground arith) in
          (v', inr (absent, how))
      | inr (u, known) ↦
          let same : db ≡ db' = ground arith in (subst IsValid same v, inl (ground arith, sym same))
    ]

abbrev HasIdentity : ℕ → Identity → ℕ → Db → Type 0
HasIdentity p ident user db = find_global p ident.provider_user_id db.global_identities ≡ some user

-- After a sign-in that succeeded, a sign-in with the same identity gives the same user
-- and changes nothing, whatever email and login the provider then reports, if the database
-- answers.
pub sign_in-again :
    (fuel fuel' : ℕ) (e e' : Env) (lookups lookups' : ℕ → Bool) (p : ℕ) (ident ident' : Identity)
    (db : Db) {user : ℕ} {db' : Db}
    → IsValid db
    → sign_in fuel e lookups p ident db ≡ some (ok (user, db'))
    → ident'.provider_user_id ≡ ident.provider_user_id
    → e'.fails 0 ≡ false
    → sign_in fuel' e' lookups' p ident' db' ≡ some (ok (user, db'))
unfolding sign_in by_identity
sign_in-again fuel fuel' e e' lookups lookups' p ident ident' db {user} {db'} v h same works =
    let has =
      linked ((sign_in-Resolved fuel e lookups p ident db {user = user} {db' = db'} v h).1) in
    ground (arith, has)
  where
    linked :
        Resolved e p ident db user db'
        → find_global p ident.provider_user_id db'.global_identities ≡ some user
    linked (inl (known, same')) = rw same' known
    linked (inr (absent, inl (_, _, rows))) = rw rows.2 (ground arith)
    linked (inr (absent, inr (_, (name, (made, how), free, form)))) = rw how (ground arith)
