-- ===== src/Refresh/Rotate.antt =====
-- A call of `Rotate` that no other call interrupts: what success means, and what a replay does.
use yaxter.Common.{
  ℕ, ◌+◌, ◌≤◌, ◌<◌, ◌≡◌, ◌≢◌, refl, true, false, ◌&&◌, none, some, [], ◌∷◌, ◌==◌, if◌then◌else◌,
  arith, Option-cases, inl, inr,
}
use yaxter.Refresh.{
  Row, Table, Env, is_none, find_hash, has_successor, revoke_if, mark, revoke_family, conflicts,
  rotated, refused, selected, insert, inserted, step, rotate, reused,
}

-- The rows of a family that are not revoked.
abbrev pub family_live : ℕ → Table → ℕ
family_live fam [] = 0
family_live fam (r ∷ t) =
    (if r.family_id == fam && is_none r.revoked_at then 1 else 0) + family_live fam t

pub family_live-revoke_family :
    (fam now : ℕ) (t : Table) → family_live fam (revoke_family fam now t) ≡ 0
family_live-revoke_family fam now [] = refl
family_live-revoke_family fam now (r ∷ t) = ground (arith, family_live-revoke_family fam now t)

pub family_live-revoke_family_le :
    (f fam now : ℕ) (t : Table) → family_live f (revoke_family fam now t) ≤ family_live f t
family_live-revoke_family_le f fam now [] = omega arith
family_live-revoke_family_le f fam now (r ∷ t) =
    ground (arith, family_live-revoke_family_le f fam now t)

pub family_live-mark :
    (fam id now : ℕ) (t : Table) → family_live fam (mark id now t) ≤ family_live fam t
family_live-mark fam id now [] = omega arith
family_live-mark fam id now (r ∷ t) = ground (arith, family_live-mark fam id now t)

-- A row that is found by its hash and is not revoked counts as live in its family.
pub find_hash-live :
    (h : ℕ) (t : Table) (r : Row)
    → find_hash h t ≡ some r
    → r.revoked_at ≡ none
    → 1 ≤ family_live r.family_id t
find_hash-live h [] r f v = cc
find_hash-live h (s ∷ t) r f v = ground (arith, find_hash-live h t r)

find_hash-mark :
    (h now : ℕ) (t : Table) (r : Row)
    → find_hash h t ≡ some r
    → find_hash h (mark r.id now t) ≡ some (revoke_if true now r)
find_hash-mark h now [] r f = cc
find_hash-mark h now (s ∷ t) r f = ground (arith, find_hash-mark h now t r)

module _ (hash_token : ℕ → ℕ) (ttl : ℕ) where
  -- The row that a rotation puts in place.
  abbrev pub successor : Env → Row → ℕ → Row
  successor e r next = record {
    id = e.fresh_id;
    user_id = r.user_id;
    family_id = r.family_id;
    token_hash = hash_token next;
    expires_at = e.pg_now + ttl;
    revoked_at = none;
  }

  -- What a call that ends `rotated` has done.
  pub record Rotates (e₁ e₂ e₃ : Env) (token : ℕ) (t : Table) (r : Row) (user next : ℕ) (t' : Table)
      : Type 0 where
    pub found : find_hash (hash_token token) t ≡ some r
    pub unrevoked : r.revoked_at ≡ none
    pub unexpired : e₁.go_now ≤ r.expires_at
    pub owner : user ≡ r.user_id
    pub table : t' ≡ successor e₃ r next ∷ mark r.id e₂.pg_now t
    pub fresh : conflicts e₃.fresh_id (hash_token next) (mark r.id e₂.pg_now t) ≡ false

  -- If `Rotate` succeeds, its token was known, neither revoked nor expired, the user is the token's,
  -- and the table has changed in two ways only: the token's row is revoked, and one new row of the
  -- same user and family, not revoked, holds the hash of the token that is returned.
  pub rotate-Rotates :
      (e₁ e₂ e₃ : Env) (token : ℕ) (t : Table) (r : Row) (user next : ℕ) (t' : Table)
      → rotate hash_token ttl e₁ e₂ e₃ token t ≡ (rotated r user next, t')
      → Rotates e₁ e₂ e₃ token t r user next t'
  unfolding rotate step selected inserted insert
  rotate-Rotates e₁ e₂ e₃ token t r user next t' h = ground arith

  find_hash-other :
      (h id : ℕ) (n : ℕ) (t : Table) → conflicts id n t ≡ false → find_hash h t ≢ none → n ≢ h
  find_hash-other h id n [] c f = λ e. f refl
  find_hash-other h id n (r ∷ t) c f = ground (arith, find_hash-other h id n t)

  -- Replaying a token after its rotation, with the database at hand and ids that grow, ends in the
  -- reuse error, and leaves no token of the family that is not revoked: neither the one that was
  -- replayed nor its successor.
  pub rotate-replay :
      (e₁ e₂ e₃ e₄ e₅ e₆ : Env) (token : ℕ) (t : Table) (r : Row) (user next : ℕ) (t' : Table)
      → rotate hash_token ttl e₁ e₂ e₃ token t ≡ (rotated r user next, t')
      → r.id < e₃.fresh_id
      → e₄.fails ≡ false
      → e₅.fails ≡ false
      → e₆.fails ≡ false
      → let (p, t'') = rotate hash_token ttl e₄ e₅ e₆ token t' in
        (p ≡ refused reused) × (family_live r.family_id t'' ≡ 0)
  unfolding rotate step selected
  rotate-replay e₁ e₂ e₃ e₄ e₅ e₆ token t r user next t' h lt f₄ f₅ f₆ =
      let first = rotate-Rotates e₁ e₂ e₃ token t r user next t' h in
      let marked = find_hash-mark (hash_token token) e₂.pg_now t r first.found in
      let other =
        find_hash-other (hash_token token) e₃.fresh_id (hash_token next) (mark r.id e₂.pg_now t)
          first.fresh (λ q. cc) in
      let again : find_hash (hash_token token) t' ≡ some (revoke_if true e₂.pg_now r) =
        rw first.table (ground (arith, marked, other)) in
      let since : has_successor (revoke_if true e₂.pg_now r) t' ≡ true =
        rw first.table (ground (arith, first.unrevoked)) in
      let whole : rotate hash_token ttl e₄ e₅ e₆ token t'
          ≡ (refused reused, revoke_family r.family_id e₆.pg_now t') =
        ground arith in
      rw whole (refl, family_live-revoke_family r.family_id e₆.pg_now t')

  -- Once all tokens of a family are revoked, no call of `Rotate` that runs by itself puts a live
  -- token into it again, whichever token it is given and however it ends; a token of the family is
  -- then refused.
  pub rotate-family_dead :
      (e₁ e₂ e₃ : Env) (token fam : ℕ) (t : Table)
      → family_live fam t ≡ 0
      → let (p, t') = rotate hash_token ttl e₁ e₂ e₃ token t in
        (family_live fam t' ≡ 0)
        × ((r : Row) (user next : ℕ) → p ≡ rotated r user next → r.family_id ≢ fam)
  unfolding rotate step selected inserted insert
  rotate-family_dead e₁ e₂ e₃ token fam t h = (
    stays,
    λ r user next e same.
        let done =
          rotate-Rotates e₁ e₂ e₃ token t r user next (rotate hash_token ttl e₁ e₂ e₃ token t).1
            (λ i. (e i, (rotate hash_token ttl e₁ e₂ e₃ token t).1)) in
        let live = find_hash-live (hash_token token) t r done.found done.unrevoked in
        omega (arith, rw same at live),
  )
    where
      stays : family_live fam (rotate hash_token ttl e₁ e₂ e₃ token t).1 ≡ 0
      stays = elim (Option-cases (find_hash (hash_token token) t)) [
        | inl unknown ↦ ground arith
        | inr (r, known) ↦ ground (
          arith,
          find_hash-live (hash_token token) t r,
          family_live-mark fam r.id e₂.pg_now t,
          family_live-revoke_family_le fam r.family_id e₃.pg_now t,
        )
      ]
