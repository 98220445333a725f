-- ===== src/Auth/Sample.antt =====
-- A signer of one claim, on which the tests of access tokens run.
use yaxter.Common.{
  ℕ, ◌*◌, ◌≡◌, sym, ap, ◌∙◌, ◌==◌, Bool, false, ◌&&◌, Option, none, some, [], ◌∷◌, if◌then◌else◌,
  arith, ltb,
}
use yaxter.Auth.Password.{same_text}
use yaxter.Auth.Password.Verify.{same_text-eq}
use yaxter.Auth.Tokens.{Claims, Jwt, Issuer}

-- The claims of user 4 at 7000 milliseconds.
abbrev claims : Claims
claims = record { subject = b'4' ∷ []; issued_at = 7; expires_at = 907 }

abbrev same_claims : Claims → Bool
same_claims c = same_text c.subject claims.subject && c.issued_at == 7 && c.expires_at == 907

abbrev sign_one : ℕ → ℕ → Claims → Option ℕ
sign_one kid key c = if kid == 1 && key == 2 && same_claims c then some 5 else none

abbrev is_key : Option ℕ → Bool
is_key none = false
is_key (some k) = k == 2

abbrev parse_one : (ℕ → Option ℕ) → ℕ → ℕ → Option Claims
parse_one keys now t = if t == 5 && is_key (keys 1) && ltb now 907000 then some claims else none

pub parse-sign :
    (keys : ℕ → Option ℕ) (kid key now : ℕ) (c : Claims) {t : ℕ}
    → sign_one kid key c ≡ some t
    → keys kid ≡ some key
    → parse_one keys now t ≡ (if ltb now (c.expires_at * 1000) then some c else none)
parse-sign keys kid key now c {t} signed known =
    let one : kid ≡ 1 = ground arith in
    let two : key ≡ 2 = ground arith in
    let five : t ≡ 5 = ground arith in
    let text = same_text-eq c.subject (b'4' ∷ []) (ground arith) in
    let issued : c.issued_at ≡ 7 = ground arith in
    let ends : c.expires_at ≡ 907 = ground arith in
    let whole : c ≡ claims = ground (arith, text) in
    let good : keys 1 ≡ some 2 = ap keys (sym one) ∙ known ∙ ap some two in
    rw (five, good, whole) (ground arith)

abbrev pub jwt : Jwt
jwt = record { public = λ k. k; sign = sign_one; parse = parse_one; parse_sign = parse-sign }

abbrev pub issuer : Issuer
issuer = record { kid = 1; key = 2; ttl = 900500 }
