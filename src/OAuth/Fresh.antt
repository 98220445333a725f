-- ===== src/OAuth/Fresh.antt =====
-- `createUser` adds one account and its identity, and keeps the invariant.
use yaxter.Common.{
  ℕ, ◌≡◌, refl, sym, Bool, false, ◌||◌, ◌⊎◌, none, some, ok, err, ◌==◌, any, arith, Option-cases,
  inl, inr,
}
use mathlib.Core.Path.{subst}
use yaxter.Common.Decimal.{Text}
use yaxter.OAuth.Accounts.{Identity, Db, Env, same_slot, same_subject, link_row, find_email}
use yaxter.OAuth.Create.{
  create_user, create_named, create_searched, free_name, base_of, candidate, is_taken, text_eq,
}
use yaxter.OAuth.Valid.{IsValid}
use yaxter.OAuth.Linking.{Created, create_named-Created, absent-has_key, CanEnter-more}
use yaxter.OAuth.Names.{IsFresh, free_name-IsFresh}

Created-IsValid :
    (e : Env) (p : ℕ) (ident : Identity) (name : Text) (db : Db) (id : ℕ) (db' : Db)
    → IsValid db
    → Created e p ident name db id db'
    → any (λ u. u.id == e.fresh 2 || u.email == ident.email || text_eq u.username name) db.users
      ≡ false
    → any (same_slot (e.fresh 2) p) db.identities ≡ false
    → any (same_subject p ident.provider_user_id) db.identities ≡ false
    → IsValid db'
Created-IsValid e p ident name db id db' v (_, made) absent slot subject =
    subst IsValid (sym made) (record {
      ids = ((absent-has_key (e.fresh 2) ident.email name db.users absent).0, v.ids);
      slots = (slot, v.slots);
      subjects = (subject, v.subjects);
      mirror = rw v.mirror refl;
      entered = (
        ground arith,
        CanEnter-more (link_row (e.fresh 2) p ident) db.identities db.users v.entered,
      );
    })

-- A `createUser` that succeeds on valid accounts leaves them valid. It adds exactly one account with the
-- provider's email, without a password and with one identity, and returns its id. No account
-- had the email before, and the username, which no account had either, is the
-- base or the base with a number.
pub create_user-Created :
    (fuel : ℕ) (e : Env) (lookups : ℕ → Bool) (p : ℕ) (ident : Identity) (db : Db) {id : ℕ}
    {db' : Db}
    → IsValid db
    → create_user fuel e lookups p ident db ≡ some (ok (id, db'))
    → IsValid db'
      × (find_email ident.email db.users ≡ none)
      × ((name : Text) × Created e p ident name db id db'
          × (is_taken name db.users ≡ false)
          × ((name ≡ base_of ident.login) ⊎ ((i : ℕ) × (name ≡ candidate (base_of ident.login) i))))
unfolding create_user create_searched create_named
create_user-Created fuel e lookups p ident db {id} {db'} v h =
    let base = base_of ident.login in
    let fresh = free_name-IsFresh lookups base db.users fuel 1 base in
    elim (Option-cases (free_name fuel lookups base 1 base db.users)) [
      | inl q ↦ absurd (ground arith)
      | inr (err x, q) ↦ absurd (ground arith)
      | inr (ok name, q) ↦
          let (made, absent, slot, subject) =
            create_named-Created e p ident name db {id = id} {db' = db'} (ground arith) in
          let (free, form) = subst (IsFresh lookups base db.users base) q fresh in
          (
            Created-IsValid e p ident name db id db' v made absent slot subject,
            (absent-has_key (e.fresh 2) ident.email name db.users absent).1,
            (name, made, free, form),
          )
    ]
