-- ===== src/Auth/Tokens.antt =====
-- internal/auth/jwt.go: access tokens. The JWT library, with Ed25519, is a parameter; tokens and keys
-- are numbers, times are milliseconds.
use yaxter.Common.{
  ℕ, ◌+◌, ◌*◌, ◌/◌, ◌^◌, ◌<◌, ◌≡◌, refl, ap, ◌∙◌, Bool, true, false, Option, none, some, [], ◌∷◌,
  ◌==◌, ltb, if◌then◌else◌, Result, ok, err, arith, Bool-cases, inl, inr,
}
use yaxter.Common.Int.{ℤ, pos}
use yaxter.Common.Decimal.{Text, decimal, decimal-ne-nil}
use yaxter.Common.Strconv.{parse_int, parse_int-decimal}

-- `jwt.RegisteredClaims`; its numeric dates are whole seconds.
pub record Claims : Type 0 where
  pub subject : Text
  pub issued_at : ℕ
  pub expires_at : ℕ

-- `parse keys now t` is `ParseWithClaims` with a key function and a clock: it accepts a token that was
-- signed by a key that the function gives for its key id, until it expires.
pub record Jwt : Type 0 where
  pub public : ℕ → ℕ
  pub sign : ℕ → ℕ → Claims → Option ℕ
  pub parse : (ℕ → Option ℕ) → ℕ → ℕ → Option Claims
  pub parse_sign :
      (keys : ℕ → Option ℕ) (kid key now : ℕ) (c : Claims) {t : ℕ}
      → sign kid key c ≡ some t
      → keys kid ≡ some (public key)
      → parse keys now t ≡ (if ltb now (c.expires_at * 1000) then some c else none)

-- `TokenIssuer`, with one key.
pub record Issuer : Type 0 where
  pub kid : ℕ
  pub key : ℕ
  pub ttl : ℕ

module _ (j : Jwt) where
  -- `pubs`
  abbrev pub pubs : Issuer → ℕ → Option ℕ
  pubs i kid = if kid == i.kid then some (j.public i.key) else none

  -- `Issue`
  unfoldable pub issue : Issuer → ℕ → ℕ → Option ℕ
  issue i now user =
      j.sign i.kid i.key (record {
        subject = decimal user;
        issued_at = now / 1000;
        expires_at = (now + i.ttl) / 1000;
      })

  subject_of : ℤ × Bool → Result (Unit {0}) ℤ
  subject_of (n, true) = ok n
  subject_of (n, false) = err tt

  parse_subject : Text → Result (Unit {0}) ℤ
  parse_subject [] = err tt
  parse_subject (x ∷ xs) = subject_of (parse_int (x ∷ xs))

  claims_of : Option Claims → Result (Unit {0}) ℤ
  claims_of none = err tt
  claims_of (some c) = parse_subject c.subject

  -- `Verify`
  unfoldable pub verify : Issuer → ℕ → ℕ → Result (Unit {0}) ℤ
  unfolding claims_of parse_subject subject_of
  verify i now t = claims_of (j.parse (pubs i) now t)

  parse_subject-read :
      (s : Text) {n : ℕ} → (s ≡ [] → ⊥) → parse_int s ≡ (pos n, true) → parse_subject s ≡ ok (pos n)
  unfolding parse_subject subject_of
  parse_subject-read [] ne h = absurd (ne refl)
  parse_subject-read (x ∷ xs) ne h = rw h refl

  -- A token that `Issue` has signed is good for the user it was issued to until the whole second of its end, and
  -- for nobody after it.
  pub verify-issue :
      (i : Issuer) (now later user : ℕ) {t : ℕ}
      → user < 2 ^ 63
      → issue i now user ≡ some t
      → verify i later t
        ≡ (if ltb later ((now + i.ttl) / 1000 * 1000) then ok (pos user) else err tt)
  unfolding issue verify claims_of
  verify-issue i now later user {t} h made =
      let c : Claims = record {
        subject = decimal user;
        issued_at = now / 1000;
        expires_at = (now + i.ttl) / 1000;
      } in
      let known : pubs i i.kid ≡ some (j.public i.key) = ground arith in
      let parsed = j.parse_sign (pubs i) i.kid i.key later c made known in
      let read =
        parse_subject-read (decimal user) (decimal-ne-nil user) (parse_int-decimal user h) in
      elim (Bool-cases (ltb later ((now + i.ttl) / 1000 * 1000))) [
        | inl early ↦
            let good : j.parse (pubs i) later t ≡ some c = ground (arith, parsed, early) in
            rw early (ap claims_of good ∙ read)
        | inr late ↦
            let bad : j.parse (pubs i) later t ≡ none = ground (arith, parsed, late) in
            rw late (ap claims_of bad)
      ]
