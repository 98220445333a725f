-- ===== src/Refresh/Family.antt =====
-- Logging out: `RevokeFamilyByToken`.
use yaxter.Common.{
  ℕ, ◌≡◌, ◌≢◌, refl, Option, none, some, [], ◌∷◌, Result, ok, err, arith, Option-cases, Bool-cases,
  inl, inr,
}
use yaxter.Refresh.{
  Row, Table, Error, Env, find_hash, revoke_family, revoke_of, revoke_family_by_token,
}
use yaxter.Refresh.Rotate.{family_live, family_live-revoke_family}

family_live-revoke_family_ne :
    (f fam now : ℕ) (t : Table)
    → f ≢ fam
    → family_live f (revoke_family fam now t) ≡ family_live f t
family_live-revoke_family_ne f fam now [] h = refl
family_live-revoke_family_ne f fam now (r ∷ t) h =
    ground (arith, family_live-revoke_family_ne f fam now t h)

-- What a logout leaves: of the family of a known token no live token, and of other families all.
abbrev pub LoggedOut : Option Row → Table → Table → Type 0
LoggedOut none t t' = t' ≡ t
LoggedOut (some r) t t' =
    (family_live r.family_id t' ≡ 0)
    × ((f : ℕ) → f ≢ r.family_id → family_live f t' ≡ family_live f t)

abbrev pub Ends : Option Row → Table → Result Error (Unit {0}) × Table → Type 0
Ends found t (ok done, t') = LoggedOut found t t'
Ends found t (err e, t') = t' ≡ t

-- A logout that returns no error has revoked the whole family of a token that the table knows, and
-- touched no other family; with an unknown token it changes nothing. One that returns an error has
-- changed nothing.
pub revoke_family_by_token-Ends :
    (hash_token : ℕ → ℕ) (ttl : ℕ) (e₁ e₂ : Env) (token : ℕ) (t : Table)
    → Ends (find_hash (hash_token token) t) t (revoke_family_by_token hash_token ttl e₁ e₂ token t)
unfolding revoke_family_by_token
revoke_family_by_token-Ends hash_token ttl e₁ e₂ token t = elim (Bool-cases e₁.fails) [
  | inl down ↦ rw down refl
  | inr up ↦ elim (Option-cases (find_hash (hash_token token) t)) [
    | inl unknown ↦ rw (up, unknown, revoke_of) refl
    | inr (r, known) ↦ elim (Bool-cases e₂.fails) [
      | inl down ↦ rw (up, known, revoke_of, down) refl
      | inr still ↦
          rw (up, known, revoke_of, still)
            (
              family_live-revoke_family r.family_id e₂.pg_now t,
              λ f ne. family_live-revoke_family_ne f r.family_id e₂.pg_now t ne,
            )
    ]
  ]
]
