-- ===== src/OAuth/Unlink.antt =====
-- `Unlink` keeps the invariant, and what two of them at a time can do.
use yaxter.Common.{
  ℕ, ◌≤◌, ◌<◌, ◌≡◌, ◌≢◌, refl, ap, ◌∙◌, true, false, not, ◌&&◌, some, List, [], ◌∷◌, ok, err, ◌==◌,
  any, filter, arith, Bool-cases, inl, inr, Result-cases, is_ok, is_err,
}
use mathlib.Core.Path.{subst}
use yaxter.Common.Sort.{DistinctKeys, has_key}
use yaxter.OAuth.Accounts.{
  Account, Link, Db, Env, find_user, same_slot, identity_count, check_account, unlink_check,
  unlink_tx, unlink, last_credential,
}
use yaxter.OAuth.Valid.{
  DistinctSlots, CanEnter, IsValid, kept, count-kept_other, count-kept, kept-mirror,
  kept-DistinctSlots, kept-DistinctSubjects,
}

module _ (user p : ℕ) (ls : List Link) where
  CanEnter-kept_others :
      (us : List Account)
      → has_key (λ u. u.id) user us ≡ false
      → CanEnter ls us
      → CanEnter (kept user p ls) us
  CanEnter-kept_others [] h c = tt
  CanEnter-kept_others (u ∷ us) h c = (
    ground (arith, c.0, count-kept_other user p u.id ls),
    CanEnter-kept_others us (ground arith) c.1,
  )

  CanEnter-kept :
      (us : List Account)
      → DistinctKeys (λ u. u.id) us
      → DistinctSlots ls
      → check_account (find_user user us) ls ≡ ok tt
      → CanEnter ls us
      → CanEnter (kept user p ls) us
  unfolding check_account
  CanEnter-kept [] d s h c = tt
  CanEnter-kept (u ∷ us) d s h c = elim (Bool-cases (u.id == user)) [
    | inl this ↦
        let same : u.id ≡ user = ground arith in
        (
          ground (arith, count-kept user p ls s),
          CanEnter-kept_others us (subst (λ k. has_key (λ v. v.id) k us ≡ false) same d.0) c.1,
        )
    | inr other ↦ (
      ground (arith, c.0, count-kept_other user p u.id ls),
      CanEnter-kept us d.1 s (ground arith) c.1,
    )
  ]

-- What the transaction of a successful `Unlink` leaves.
abbrev pub Unlinked : ℕ → ℕ → Db → Db → Type 0
Unlinked user p db db' =
    (any (same_slot user p) db.identities ≡ true)
    × (db'.identities ≡ kept user p db.identities)
    × (db'.global_identities
        ≡ filter (λ g. not (g.provider == p && g.user_id == user)) db.global_identities)
    × (db'.users ≡ db.users)

unlink_tx-Unlinked :
    (e : Env) (user p : ℕ) (db : Db) {db' : Db}
    → unlink_tx e user p db ≡ ok db'
    → Unlinked user p db db'
unfolding unlink_tx
unlink_tx-Unlinked e user p db h = (ground arith, ground arith, ground arith, ground arith)

kept-none : (user p : ℕ) (ls : List Link) → any (same_slot user p) (kept user p ls) ≡ false
kept-none user p [] = refl
kept-none user p (l ∷ ls) = ground (arith, kept-none user p ls)

-- On accounts where ids and identities are unique, the global table mirrors the identities and every
-- account has a password or an identity: all this still holds after an `Unlink` that
-- succeeds, so that nobody is locked out. The user, who had an identity of the provider, has none,
-- and no other identity and no account has changed.
pub unlink-IsValid :
    (e : Env) (user p : ℕ) (db : Db) {db' : Db}
    → IsValid db
    → unlink e user p db ≡ ok db'
    → IsValid db'
      × (any (same_slot user p) db.identities ≡ true)
      × (any (same_slot user p) db'.identities ≡ false)
      × (db'.identities ≡ kept user p db.identities)
      × (db'.users ≡ db.users)
unfolding unlink unlink_check
unlink-IsValid e user p db {db'} v h = elim (Result-cases (unlink_check e user db)) [
  | is_err x q ↦ absurd (ground arith)
  | is_ok t q ↦
      let checked : check_account (find_user user db.users) db.identities ≡ ok tt = ground arith in
      let (had, links, globals, users) =
        unlink_tx-Unlinked e user p db {db' = db'} (ground arith) in
      (
        record {
          ids = rw users v.ids;
          slots = rw links (kept-DistinctSlots user p db.identities v.slots);
          subjects = rw links (kept-DistinctSubjects user p db.identities v.subjects);
          mirror = globals ∙ rw (v.mirror, links) (kept-mirror user p db.identities);
          entered =
              rw (links, users)
                (CanEnter-kept user p db.identities db.users v.ids v.slots checked v.entered);
        },
        had,
        rw links (kept-none user p db.identities),
        links,
        users,
      )
]

-- `Unlink` of an account's only credential fails, and no statement of the transaction is run.
pub unlink-last :
    (e : Env) (user p : ℕ) (db : Db) (u : Account)
    → e.fails 0 ≡ false
    → find_user user db.users ≡ some u
    → u.has_password ≡ false
    → identity_count u.id db.identities ≤ 1
    → unlink e user p db ≡ err last_credential
unfolding unlink unlink_check check_account
unlink-last e user p db u works found plain few = ground arith

find_user-id :
    (user : ℕ) (us : List Account) (u : Account) → find_user user us ≡ some u → u.id ≡ user
find_user-id user [] u h = cc
find_user-id user (a ∷ us) u h = ground (arith, find_user-id user us u)

count-kept_le :
    (user p : ℕ) (ls : List Link) → identity_count user (kept user p ls) ≤ identity_count user ls
count-kept_le user p [] = omega arith
count-kept_le user p (l ∷ ls) = ground (arith, count-kept_le user p ls)

count-kept_less :
    (user p : ℕ) (ls : List Link)
    → any (same_slot user p) ls ≡ true
    → identity_count user (kept user p ls) < identity_count user ls
count-kept_less user p [] h = cc
count-kept_less user p (l ∷ ls) h =
    ground (arith, count-kept_less user p ls, count-kept_le user p ls)

slot-kept_other :
    (user p q : ℕ) (ls : List Link)
    → p ≢ q
    → any (same_slot user q) (kept user p ls) ≡ any (same_slot user q) ls
slot-kept_other user p q [] ne = refl
slot-kept_other user p q (l ∷ ls) ne = ground (arith, slot-kept_other user p q ls)

-- The check stands outside the transaction: two `Unlink` calls of an account without a password,
-- whose only two identities are of the two providers, that both check before either writes
-- can both succeed, and then the account has no way in.
pub unlink-race :
    (e f : Env) (user p q : ℕ) (db db₁ db₂ : Db) (u : Account)
    → IsValid db
    → find_user user db.users ≡ some u
    → u.has_password ≡ false
    → p ≢ q
    → identity_count user db.identities ≡ 2
    → any (same_slot user p) db.identities ≡ true
    → any (same_slot user q) db.identities ≡ true
    → e.fails 0 ≡ false
    → f.fails 0 ≡ false
    → unlink_tx e user p db ≡ ok db₁
    → unlink_tx f user q db₁ ≡ ok db₂
    → (unlink_check e user db ≡ ok tt)
      × (unlink_check f user db ≡ ok tt)
      × (identity_count user db₂.identities ≡ 0)
      × (find_user user db₂.users ≡ some u)
unfolding unlink_check check_account
unlink-race e f user p q db db₁ db₂ u v found plain ne two hp hq we wf ep eq =
    let same = find_user-id user db.users u found in
    let (_, links, _, users) = unlink_tx-Unlinked e user p db {db' = db₁} ep in
    let (_, links', _, users') = unlink_tx-Unlinked f user q db₁ {db' = db₂} eq in
    let once = count-kept_less user p db.identities hp in
    let twice =
      count-kept_less user q (kept user p db.identities)
        (rw (slot-kept_other user p q db.identities ne) hq) in
    (
      rw (we, found) (ground (arith, ap (λ n. identity_count n db.identities) same)),
      rw (wf, found) (ground (arith, ap (λ n. identity_count n db.identities) same)),
      rw (links', links) (omega arith),
      rw (users', users) found,
    )
