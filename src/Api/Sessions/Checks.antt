-- ===== src/Api/Sessions/Checks.antt =====
-- Which registrations reach the service.
use yaxter.Common.{
  ◌≤◌, ◌≡◌, ◌≢◌, refl, Bool, true, ◌||◌, ◌&&◌, ltb, leb, length, some, Result, ok, err, arith, ◌⊎◌,
  inl, inr, Bool-cases,
}
use yaxter.Common.Decimal.{Text}
use yaxter.Events.{codes}
use yaxter.Auth
use yaxter.Auth.{invalid_credentials, conflict, unavailable, refresh_failed}
use yaxter.Api.{failure, status}
use yaxter.Api.Sessions.{
  RegisterRequest, is_username, register, register_reply, register_valid, all_words, kept,
}

-- What a registration that is let through to the service has asked for.
abbrev pub Admitted : (Text → Bool) → RegisterRequest → Type 0
Admitted is_address q =
    (3 ≤ length q.username)
    × (length q.username ≤ 30)
    × (all_words q.username ≡ true)
    × (is_address q.email ≡ true)
    × (8 ≤ length q.password)
    × (length q.password ≤ 128)

module _ {U P T B S : Type 0} (body : U → P → B) (refresh_of : P → T) where
  register_reply-status :
      (r : Result Auth.Error (U × P) × S) → status (register_reply body refresh_of r).0 ≢ 400
  unfolding register_reply
  register_reply-status (ok (u, p), s) = ground arith
  register_reply-status (err invalid_credentials, s) = ground arith
  register_reply-status (err conflict, s) = ground arith
  register_reply-status (err unavailable, s) = ground arith
  register_reply-status (err (refresh_failed x), s) = ground arith

  -- A registration is answered in one of two ways. Its username has 3 to 30 ASCII letters, digits
  -- and underscores, its email is an address and its password has 8 to 128 bytes, and it is
  -- answered with 201, 409 or 500; or it is answered with 400, the service is not called and no
  -- cookie is set.
  pub register-Admitted :
      (is_address : Text → Bool) (svc : Text → Text → Text → S → Result Auth.Error (U × P) × S)
      (q : RegisterRequest) (s : S)
      → (Admitted is_address q
          × (status (register body refresh_of is_address svc (some q) s).0 ≢ 400))
        ⊎ (register body refresh_of is_address svc (some q) s
            ≡ (failure 400 (codes "validation_failed"), kept, s))
  unfolding register register_valid is_username
  register-Admitted is_address svc q s =
      let n = length q.username in
      let m = length q.password in
      let reply = register_reply-status (svc q.username q.email q.password s) in
      elim (Bool-cases (leb 3 n && leb n 30 && all_words q.username)) [
        | inr bad ↦ inr (rw bad refl)
        | inl name ↦ elim (Bool-cases (is_address q.email)) [
          | inr bad ↦ inr (rw (name, bad) refl)
          | inl address ↦ elim (Bool-cases (ltb m 8 || ltb 128 m)) [
            | inl bad ↦ inr (rw (name, address, bad) refl)
            | inr size ↦ inl (
              (ground arith, ground arith, ground arith, address, ground arith, ground arith),
              rw (name, address, size) reply,
            )
          ]
        ]
      ]
