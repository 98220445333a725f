-- ===== src/OAuth/Valid.antt =====
-- The invariant of the accounts, and that `Unlink` keeps it.
use yaxter.Common.{
  ℕ, suc, ◌≤◌, ◌≡◌, ◌≢◌, refl, Bool, true, false, not, ◌&&◌, ◌||◌, List, [], ◌∷◌, map, ◌==◌, any,
  filter, All, arith, ltb,
}
use yaxter.Common.Sort.{DistinctKeys}
use yaxter.OAuth.Accounts.{Account, Link, Db, same_slot, same_subject, global_row, identity_count}

-- One identity of each provider for a user, and one user for each identity.
abbrev pub DistinctSlots : List Link → Type 0
DistinctSlots [] = Unit
DistinctSlots (l ∷ ls) = (any (same_slot l.user_id l.provider) ls ≡ false) × DistinctSlots ls

abbrev pub DistinctSubjects : List Link → Type 0
DistinctSubjects [] = Unit
DistinctSubjects (l ∷ ls) =
    (any (same_subject l.provider l.provider_user_id) ls ≡ false) × DistinctSubjects ls

-- The account can be entered: by a password or by an identity.
abbrev pub can_enter : List Link → Account → Bool
can_enter ls u = u.has_password || ltb 0 (identity_count u.id ls)

abbrev pub CanEnter : List Link → List Account → Type 0
CanEnter ls us = All (λ u. can_enter ls u ≡ true) us

-- User ids, slots and identities are unique, the global table is the identities' mirror, and every
-- account has a way in.
pub record IsValid (db : Db) : Type 0 where
  pub ids : DistinctKeys (λ u. u.id) db.users
  pub slots : DistinctSlots db.identities
  pub subjects : DistinctSubjects db.identities
  pub mirror : db.global_identities ≡ map global_row db.identities
  pub entered : CanEnter db.identities db.users

module _ (user p : ℕ) where
  abbrev pub kept : List Link → List Link
  kept = filter (λ l. not (same_slot user p l))

  slot_absent-kept :
      (u q : ℕ) (ls : List Link)
      → any (same_slot u q) ls ≡ false
      → any (same_slot u q) (kept ls) ≡ false
  slot_absent-kept u q [] h = refl
  slot_absent-kept u q (l ∷ ls) h = ground (arith, slot_absent-kept u q ls)

  subject_absent-kept :
      (q pid : ℕ) (ls : List Link)
      → any (same_subject q pid) ls ≡ false
      → any (same_subject q pid) (kept ls) ≡ false
  subject_absent-kept q pid [] h = refl
  subject_absent-kept q pid (l ∷ ls) h = ground (arith, subject_absent-kept q pid ls)

  pub kept-DistinctSlots : (ls : List Link) → DistinctSlots ls → DistinctSlots (kept ls)
  kept-DistinctSlots [] h = tt
  kept-DistinctSlots (l ∷ ls) h =
      ground (arith, slot_absent-kept l.user_id l.provider ls, kept-DistinctSlots ls h.1)

  pub kept-DistinctSubjects : (ls : List Link) → DistinctSubjects ls → DistinctSubjects (kept ls)
  kept-DistinctSubjects [] h = tt
  kept-DistinctSubjects (l ∷ ls) h =
      ground
        (arith, subject_absent-kept l.provider l.provider_user_id ls, kept-DistinctSubjects ls h.1)

  pub kept-mirror :
      (ls : List Link)
      → filter (λ g. not (g.provider == p && g.user_id == user)) (map global_row ls)
        ≡ map global_row (kept ls)
  kept-mirror [] = refl
  kept-mirror (l ∷ ls) = ground (arith, kept-mirror ls)

  -- The identities of the other users stay.
  pub count-kept_other :
      (u : ℕ) (ls : List Link) → u ≢ user → identity_count u (kept ls) ≡ identity_count u ls
  count-kept_other u [] ne = refl
  count-kept_other u (l ∷ ls) ne = ground (arith, count-kept_other u ls)

  count-kept_absent :
      (ls : List Link)
      → any (same_slot user p) ls ≡ false
      → identity_count user (kept ls) ≡ identity_count user ls
  count-kept_absent [] h = refl
  count-kept_absent (l ∷ ls) h = ground (arith, count-kept_absent ls)

  -- Of the user's own at most one goes.
  pub count-kept :
      (ls : List Link)
      → DistinctSlots ls
      → identity_count user ls ≤ suc (identity_count user (kept ls))
  count-kept [] h = omega arith
  count-kept (l ∷ ls) h = ground (arith, count-kept ls h.1, count-kept_absent ls)
