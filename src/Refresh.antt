-- ===== src/Refresh.antt =====
-- internal/auth/refresh.go: rotating refresh tokens. Every statement on the table is one step of
-- a call, so that calls of several clients interleave between their statements.
pub mod Rotate
pub mod Family
pub mod SingleUse
mod Tests
use yaxter.Common.{
  ℕ, zero, suc, ◌+◌, Bool, true, false, not, ◌&&◌, ◌||◌, Option, none, some, List, [], ◌∷◌, map,
  Result, ok, err, ltb, ◌==◌, if◌then◌else◌, any,
}

-- A row of `refresh_tokens` (migrations/000005). Times are seconds.
pub record Row : Type 0 where
  pub id : ℕ
  pub user_id : ℕ
  pub family_id : ℕ
  pub token_hash : ℕ
  pub expires_at : ℕ
  pub revoked_at : Option ℕ

abbrev pub Table : Type 0
Table = List Row

-- `ErrInvalidRefresh`, `ErrReused`; any other error of the database or of the random source.
pub data Error : Type 0 where
  invalid_refresh reused unavailable : Error

abbrev pub is_none {ℓ} : {A : Type ℓ} → Option A → Bool
is_none none = true
is_none (some a) = false

-- What the outside decides at one step: whether the database answers, the time of `time.Now` and
-- of the database's `now()`, the id of the generator, and the random token (`none`: `rand.Read`
-- fails).
pub record Env : Type 0 where
  pub fails : Bool
  pub go_now : ℕ
  pub pg_now : ℕ
  pub fresh_id : ℕ
  pub random : Option ℕ

-- `SELECT … WHERE token_hash = $1`
abbrev pub find_hash : ℕ → Table → Option Row
find_hash h [] = none
find_hash h (r ∷ t) = if r.token_hash == h then some r else find_hash h t

-- `SELECT EXISTS(… WHERE family_id = $1 AND id > $2)`
abbrev pub has_successor : Row → Table → Bool
has_successor r = any (λ s. s.family_id == r.family_id && ltb r.id s.id)

-- `SET revoked_at = now()` on one row, where it is NULL and the row is chosen.
abbrev pub revoke_if : Bool → ℕ → Row → Row
revoke_if chosen now r =
    if chosen && is_none r.revoked_at then record r { revoked_at = some now } else r

-- `UPDATE … WHERE id = $1 AND revoked_at IS NULL`
abbrev pub mark : ℕ → ℕ → Table → Table
mark id now [] = []
mark id now (r ∷ t) = revoke_if (r.id == id) now r ∷ mark id now t

-- `tag.RowsAffected() != 0` of that update.
abbrev pub marks : ℕ → Table → Bool
marks id = any (λ r. r.id == id && is_none r.revoked_at)

-- `revokeFamily`
abbrev pub revoke_family : ℕ → ℕ → Table → Table
revoke_family fam now [] = []
revoke_family fam now (r ∷ t) = revoke_if (r.family_id == fam) now r ∷ revoke_family fam now t

-- The primary key and the unique hash refuse an insert.
abbrev pub conflicts : ℕ → ℕ → Table → Bool
conflicts id h = any (λ r. r.id == id || r.token_hash == h)

-- Where a call of `Rotate` stands: before its SELECT, before the EXISTS, before `revokeFamily`,
-- before the UPDATE, before the INSERT, or at its end with the row that it rotated.
pub data Phase : Type 0 where
  selecting : ℕ → Phase
  checking revoking updating inserting : Row → Phase
  rotated : Row → ℕ → ℕ → Phase
  refused : Error → Phase

-- `hash_token` is `hashToken`, SHA-256 of the standard library.
module _ (hash_token : ℕ → ℕ) (ttl : ℕ) where
  -- After the SELECT.
  selected : Env → Option Row → Phase
  selected e none = refused invalid_refresh
  selected e (some r) =
      if not (is_none r.revoked_at)
      then checking r
      else if ltb r.expires_at e.go_now
      then refused invalid_refresh
      else updating r

  -- `insert`: the new token, its row, and the refusal of the random source or the table.
  unfoldable pub insert : Env → ℕ → ℕ → ℕ → Option ℕ → Table → Result Error ℕ × Table
  insert e id user fam none t = (err unavailable, t)
  insert e id user fam (some token) t =
      if e.fails || conflicts id (hash_token token) t then (err unavailable, t) else (
        ok token,
        record {
          id = id;
          user_id = user;
          family_id = fam;
          token_hash = hash_token token;
          expires_at = e.pg_now + ttl;
          revoked_at = none;
        }
            ∷ t,
      )

  inserted : Row → Result Error ℕ → Phase
  inserted r (ok token) = rotated r r.user_id token
  inserted r (err x) = refused x

  -- One statement of `Rotate` on the table.
  unfoldable pub step : Env → Phase → Table → Phase × Table
  unfolding selected inserted
  step e (selecting token) t =
      (if e.fails then refused unavailable else selected e (find_hash (hash_token token) t), t)
  step e (checking r) t = (
    if e.fails
        then refused unavailable
        else if has_successor r t
        then revoking r
        else refused invalid_refresh,
    t,
  )
  step e (revoking r) t =
      if e.fails
      then (refused unavailable, t)
      else (refused reused, revoke_family r.family_id e.pg_now t)
  step e (updating r) t =
      if e.fails
      then (refused unavailable, t)
      else (if marks r.id t then inserting r else refused invalid_refresh, mark r.id e.pg_now t)
  step e (inserting r) t =
      let (next, t') = insert e e.fresh_id r.user_id r.family_id e.random t in (inserted r next, t')
  step e (rotated r user next) t = (rotated r user next, t)
  step e (refused x) t = (refused x, t)

  -- A call that no other interrupts is three statements at most.
  unfoldable pub rotate : Env → Env → Env → ℕ → Table → Phase × Table
  rotate e₁ e₂ e₃ token t =
      let (p₁, t₁) = step e₁ (selecting token) t in let (p₂, t₂) = step e₂ p₁ t₁ in step e₃ p₂ t₂

  -- `IssueNewFamily`
  unfoldable pub issue_new_family : Env → ℕ → Table → Result Error ℕ × Table
  issue_new_family e user t = insert e e.fresh_id user e.fresh_id e.random t

  -- The second statement of `RevokeFamilyByToken`.
  revoke_of : Env → Env → Option Row → Table → Result Error (Unit {0}) × Table
  revoke_of e₁ e₂ none t = (ok tt, t)
  revoke_of e₁ e₂ (some r) t =
      if e₂.fails then (err unavailable, t) else (ok tt, revoke_family r.family_id e₂.pg_now t)

  -- `RevokeFamilyByToken`
  unfoldable pub revoke_family_by_token : Env → Env → ℕ → Table → Result Error (Unit {0}) × Table
  unfolding revoke_of
  revoke_family_by_token e₁ e₂ token t =
      if e₁.fails then (err unavailable, t) else revoke_of e₁ e₂ (find_hash (hash_token token) t) t
