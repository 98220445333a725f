-- ===== src/Api/Access.antt =====
-- Who gets through to the handlers, and where a sign-in may redirect to.
use yaxter.Common.{
  ℕ, ◌+◌, ◌*◌, ◌/◌, ◌^◌, ◌<◌, ◌≡◌, ◌≢◌, refl, ap, ◌∙◌, Option, some, [], ◌∷◌, ltb, if◌then◌else◌,
  Result, ok, err, arith, inl, inr, Bool-cases,
}
use yaxter.Common.Int.{ℤ, pos}
use yaxter.Common.Decimal.{Text}
use yaxter.Events.{codes}
use yaxter.Auth.Tokens.{Jwt, Issuer, issue, verify, verify-issue}
use yaxter.Api.{Reply, failure, bearer_auth, bearer}
use yaxter.Api.Sessions.{safe_redirect}

pub bearer_auth-verified :
    {B S T U : Type 0} (check : T → Result (Unit {0}) U) (t : T) (s : S)
    (next : Option U → S → Reply B × S)
    → {r : Result (Unit {0}) U} → check t ≡ r
    → bearer_auth check (bearer t) s next
      ≡ elim r [ ok u ↦ next (some u) s | err e ↦ (failure 401 (codes "invalid_token"), s) ]
unfolding bearer_auth
bearer_auth-verified check t s next {r = ok u} h = rw h refl
bearer_auth-verified check t s next {r = err e} h = rw h refl

-- A request with a token that `Issue` has signed for a user reaches the handler as that user until
-- the whole second in which the token ends; after it, the request is refused with 401 and the
-- handler is not run.
pub bearer_auth-issue :
    {B S : Type 0} (j : Jwt) (i : Issuer) (now later user : ℕ) {t : ℕ} (s : S)
    (next : Option ℤ → S → Reply B × S)
    → user < 2 ^ 63
    → issue j i now user ≡ some t
    → bearer_auth (verify j i later) (bearer t) s next ≡ (
        if ltb later ((now + i.ttl) / 1000 * 1000)
        then next (some (pos user)) s
        else (failure 401 (codes "invalid_token"), s))
bearer_auth-issue j i now later user {t} s next fits made =
    let v = verify-issue j i now later user fits made in
    elim (Bool-cases (ltb later ((now + i.ttl) / 1000 * 1000))) [
      | inl early ↦ rw early (
          bearer_auth-verified (verify j i later) t s next
            (v ∙ ap (λ b. if b then ok (pos user) else err tt) early))
      | inr late ↦ rw late (
          bearer_auth-verified (verify j i later) t s next
            (v ∙ ap (λ b. if b then ok (pos user) else err tt) late))
    ]

-- A path of this site: it starts with one slash.
abbrev pub Local : Text → Type 0
Local [] = ⊥
Local (c ∷ []) = c ≡ b'/'
Local (c ∷ d ∷ rest) = (c ≡ b'/') × (d ≢ b'/')

-- Whatever the query says, a sign-in redirects to a path that starts with one slash, and a path
-- that the check has passed on passes it again unchanged.
pub safe_redirect-Local :
    (raw : Text)
    → Local (safe_redirect raw) × (safe_redirect (safe_redirect raw) ≡ safe_redirect raw)
unfolding safe_redirect
safe_redirect-Local [] = (refl, refl)
safe_redirect-Local (c ∷ []) = ground arith
safe_redirect-Local (c ∷ d ∷ rest) = ground arith
