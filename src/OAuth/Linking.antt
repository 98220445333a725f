-- ===== src/OAuth/Linking.antt =====
-- `link` and `createUser` keep the invariant of the accounts.
use yaxter.Common.{
  ℕ, ◌≡◌, ◌≢◌, refl, sym, ◌∙◌, false, ◌||◌, none, some, List, [], ◌∷◌, ok, err, ◌==◌, any, arith,
  Option-cases, inl, inr, Result-cases, is_ok, is_err,
}
use mathlib.Core.Path.{subst}
use mathlib.Core.Logic.{◌⊎◌}
use yaxter.Common.Decimal.{Text}
use yaxter.Common.Sort.{has_key}
use yaxter.OAuth.Accounts.{
  Identity, Account, Link, Db, Env, find_global, same_slot, same_subject, refuses_link, link_row,
  global_row, insert_identity, link_tx, link_found, link, oauth_link, identity_taken, find_email,
}
use yaxter.OAuth.Create.{create_named, insert_user, text_eq}
use yaxter.OAuth.Valid.{CanEnter, IsValid}

-- What the two INSERTs of `insertIdentity` add.
insert_identity-adds :
    (e : Env) (n user p : ℕ) (ident : Identity) (db : Db) {db' : Db}
    → insert_identity e n user p ident db ≡ ok db'
    → (db' ≡ record db {
      identities = link_row user p ident ∷ db.identities;
      global_identities = global_row (link_row user p ident) ∷ db.global_identities;
    })
      × (refuses_link user p ident.provider_user_id db ≡ false)
unfolding insert_identity
insert_identity-adds e n user p ident db h = (ground arith, ground arith)

-- The rows that a successful `link` writes.
abbrev pub Linked : Env → ℕ → ℕ → Identity → Db → Db → Type 0
Linked e user p ident db db' =
    (db'.users ≡ db.users)
    × (db'.identities ≡ link_row user p ident ∷ db.identities)
    × (db'.global_identities ≡ global_row (link_row user p ident) ∷ db.global_identities)
    × (db'.audit_log
        ≡ record {
          id = e.fresh 0;
          user_id = user;
          action = oauth_link;
          provider = p;
          subject = some ident.provider_user_id;
        }
          ∷ db.audit_log)
    × (db'.notifications
        ≡ record { id = e.fresh 1; user_id = user; actor_id = user } ∷ db.notifications)

link_tx-Linked :
    (e : Env) (user p : ℕ) (ident : Identity) (db : Db) {db' : Db}
    → link_tx e user p ident db ≡ ok db'
    → Linked e user p ident db db' × (refuses_link user p ident.provider_user_id db ≡ false)
unfolding link_tx
link_tx-Linked e user p ident db {db'} h =
    elim (Result-cases (insert_identity e 12 user p ident db)) [
      | is_err x q ↦ absurd (ground arith)
      | is_ok db₁ q ↦
          let (added, free) = insert_identity-adds e 12 user p ident db q in
          ((ground arith, ground arith, ground arith, ground arith, ground arith), free)
    ]

pub CanEnter-more :
    (l : Link) (ls : List Link) (us : List Account) → CanEnter ls us → CanEnter (l ∷ ls) us
CanEnter-more l ls [] h = tt
CanEnter-more l ls (u ∷ us) h = (ground arith, CanEnter-more l ls us h.1)

added-IsValid :
    (l : Link) (db db' : Db)
    → IsValid db
    → any (same_slot l.user_id l.provider) db.identities ≡ false
    → any (same_subject l.provider l.provider_user_id) db.identities ≡ false
    → db'.users ≡ db.users
    → db'.identities ≡ l ∷ db.identities
    → db'.global_identities ≡ global_row l ∷ db.global_identities
    → IsValid db'
added-IsValid l db db' v slot subject users links globals = record {
  ids = rw users v.ids;
  slots = rw links (slot, v.slots);
  subjects = rw links (subject, v.subjects);
  mirror = globals ∙ rw (v.mirror, links) refl;
  entered = rw (links, users) (CanEnter-more l db.identities db.users v.entered);
}

-- A `link` that succeeds on valid accounts leaves them valid. If the identity was linked to the user
-- already, nothing has changed; otherwise nobody had it, the user had no identity
-- of the provider, and the rows of the identity, of the audit log and of the notification are
-- added together. If another user has the identity, `link` fails with `identity_taken`.
pub link-IsValid :
    (e : Env) (user p : ℕ) (ident : Identity) (db : Db) {db' : Db}
    → IsValid db
    → link e user p ident db ≡ ok db'
    → IsValid db'
      × (((find_global p ident.provider_user_id db.global_identities ≡ some user) × (db' ≡ db))
          ⊎ ((find_global p ident.provider_user_id db.global_identities ≡ none)
              × (any (same_slot user p) db.identities ≡ false)
              × Linked e user p ident db db'))
unfolding link link_found
link-IsValid e user p ident db {db'} v h =
    elim (Option-cases (find_global p ident.provider_user_id db.global_identities)) [
      | inl q ↦
          let (linked, free) = link_tx-Linked e user p ident db {db' = db'} (ground arith) in
          (
            added-IsValid (link_row user p ident) db db' v (ground arith) (ground arith) linked.0
                linked.1 linked.2,
            inr (q, (ground arith), linked),
          )
      | inr (existing, q) ↦
          let same : db ≡ db' = ground arith in (subst IsValid same v, inl (ground arith, sym same))
    ]

pub link-taken :
    (e : Env) (user other p : ℕ) (ident : Identity) (db : Db)
    → e.fails 10 ≡ false
    → find_global p ident.provider_user_id db.global_identities ≡ some other
    → other ≢ user
    → link e user p ident db ≡ err identity_taken
unfolding link link_found
link-taken e user other p ident db works found ne = ground arith

abbrev pub new_account : Env → Text → Identity → Account
new_account e name ident = record {
  id = e.fresh 2;
  username = name;
  email = ident.email;
  has_password = false;
}

-- The account and its identity, that a successful `createUser` adds together.
abbrev pub Created : Env → ℕ → Identity → Text → Db → ℕ → Db → Type 0
Created e p ident name db id db' =
    (id ≡ e.fresh 2)
    × (db' ≡ record db {
      users = new_account e name ident ∷ db.users;
      identities = link_row (e.fresh 2) p ident ∷ db.identities;
      global_identities = global_row (link_row (e.fresh 2) p ident) ∷ db.global_identities;
    })

pub absent-has_key :
    (id em : ℕ) (name : Text) (us : List Account)
    → any (λ u. u.id == id || u.email == em || text_eq u.username name) us ≡ false
    → (has_key (λ u. u.id) id us ≡ false) × (find_email em us ≡ none)
absent-has_key id em name [] h = (refl, refl)
absent-has_key id em name (u ∷ us) h =
    let rest = absent-has_key id em name us (ground arith) in (ground arith, ground arith)

pub create_named-Created :
    (e : Env) (p : ℕ) (ident : Identity) (name : Text) (db : Db) {id : ℕ} {db' : Db}
    → create_named e p ident (ok name) db ≡ ok (id, db')
    → Created e p ident name db id db'
      × (any (λ u. u.id == e.fresh 2 || u.email == ident.email || text_eq u.username name) db.users
          ≡ false)
      × (any (same_slot (e.fresh 2) p) db.identities ≡ false)
      × (any (same_subject p ident.provider_user_id) db.identities ≡ false)
unfolding create_named
create_named-Created e p ident name db {id} {db'} h =
    elim (Result-cases (insert_user (e.fails 21) (new_account e name ident) db)) [
      | is_err x q ↦ absurd (ground arith)
      | is_ok db₁ q ↦ elim (Result-cases (insert_identity e 22 (e.fresh 2) p ident db₁)) [
        | is_err x r ↦ absurd (ground arith)
        | is_ok db₂ r ↦
            let (added, free) = insert_identity-adds e 22 (e.fresh 2) p ident db₁ r in
            let users : db₁ ≡ record db { users = new_account e name ident ∷ db.users } =
              ground arith in
            ((ground arith, ground arith), ground arith, ground arith, ground arith)
      ]
    ]
