-- ===== src/Api/Sessions.antt =====
-- internal/httpapi/auth_handlers.go, with `safeRedirect` and `idemSkip`. The operations of the services are arguments:
-- they take the state and give it back with their result, and one that panics gives no reply.
pub mod Checks
use yaxter.Common.{
  ℕ, ◌+◌, ◌≡◌, Bool, true, false, not, ◌||◌, ◌&&◌, Option, none, some, List, [], ◌∷◌, ltb, leb,
  ◌==◌, if◌then◌else◌, Result, ok, err, map, length,
}
use yaxter.Common.Decimal.{Text}
use yaxter.Events.{codes}
use yaxter.Auth
use yaxter.Auth.{invalid_credentials, conflict, unavailable, refresh_failed}
use yaxter.OAuth.Create.{is_word}
use yaxter.Api.{Reply, json, failure, empty, as_user}

-- What a reply does with the cookie of the refresh token.
pub data Cookie (T : Type 0) : Type 0 where
  kept cleared : Cookie T
  set : T → Cookie T

-- `RegisterRequest`
pub record RegisterRequest : Type 0 where
  pub username : Text
  pub email : Text
  pub password : Text

abbrev pub all_words : Text → Bool
all_words [] = true
all_words (c ∷ cs) = is_word c && all_words cs

-- `usernameRe`
unfoldable pub is_username : Text → Bool
is_username s = leb 3 (length s) && leb (length s) 30 && all_words s

-- `safeRedirect`
unfoldable pub safe_redirect : Text → Text
safe_redirect [] = b'/' ∷ []
safe_redirect (c ∷ []) = if c == b'/' then c ∷ [] else b'/' ∷ []
safe_redirect (c ∷ d ∷ rest) =
    if not (c == b'/') || (c == b'/' && d == b'/') then b'/' ∷ [] else c ∷ d ∷ rest

-- `idemSkip`, on the path.
unfoldable pub starts_with : Text → Text → Bool
starts_with [] s = true
starts_with (c ∷ cs) [] = false
starts_with (c ∷ cs) (d ∷ ds) = c == d && starts_with cs ds

abbrev pub same : Text → Text → Bool
same [] [] = true
same [] (d ∷ ds) = false
same (c ∷ cs) [] = false
same (c ∷ cs) (d ∷ ds) = c == d && same cs ds

unfoldable pub idem_skip : Text → Bool
unfolding starts_with
idem_skip path =
    same path (codes "/v1/auth/login")
    || same path (codes "/v1/auth/refresh")
    || same path (codes "/v1/auth/logout")
    || starts_with (codes "/v1/auth/oauth/") path

-- `refreshTokenFrom`: the token of the body, or else that of the cookie; an empty text is none.
unfoldable pub refresh_token_from : {T : Type 0} → Option T → Option T → Option T
refresh_token_from (some t) cookie = some t
refresh_token_from none cookie = cookie

-- `body` renders the user and the tokens, `refresh_of` is the refresh token of a pair.
module _ {U P T B S : Type 0} (body : U → P → B) (refresh_of : P → T) where
  register_reply : Result Auth.Error (U × P) × S → Reply B × Cookie T × S
  register_reply (ok (u, p), s) = (json 201 (body u p), set (refresh_of p), s)
  register_reply (err conflict, s) = (failure 409 (codes "already_exists"), kept, s)
  register_reply (err e, s) = (failure 500 (codes "internal"), kept, s)

  register_valid :
      (Text → Bool)
      → (Text → Text → Text → S → Result Auth.Error (U × P) × S)
      → RegisterRequest
      → S
      → Reply B × Cookie T × S
  register_valid is_address register q s =
      if not (is_username q.username)
      then (failure 400 (codes "validation_failed"), kept, s)
      else if not (is_address q.email)
      then (failure 400 (codes "validation_failed"), kept, s)
      else if ltb (length q.password) 8 || ltb 128 (length q.password)
      then (failure 400 (codes "validation_failed"), kept, s)
      else register_reply (register q.username q.email q.password s)

  -- `Register`; `is_address` is `mail.ParseAddress`.
  unfoldable pub register :
      (Text → Bool)
      → (Text → Text → Text → S → Result Auth.Error (U × P) × S)
      → Option RegisterRequest
      → S
      → Reply B × Cookie T × S
  unfolding register_valid register_reply
  register is_address svc none s = (failure 400 (codes "malformed_body"), kept, s)
  register is_address svc (some q) s = register_valid is_address svc q s

  login_reply : Result Auth.Error (U × P) × S → Reply B × Cookie T × S
  login_reply (ok (u, p), s) = (json 200 (body u p), set (refresh_of p), s)
  login_reply (err e, s) = (failure 401 (codes "invalid_credentials"), kept, s)

  -- `Login`; the body is the login and the password.
  unfoldable pub login :
      {N : Type 0}
      → (N → Text → S → Result Auth.Error (U × P) × S)
      → Option (N × Text)
      → S
      → Reply B × Cookie T × S
  unfolding login_reply
  login svc none s = (failure 400 (codes "malformed_body"), kept, s)
  login svc (some (name, password)) s = login_reply (svc name password s)

-- The refresh and the logout; `body` renders the tokens.
module _ {P T B S : Type 0} (body : P → B) (refresh_of : P → T) where
  refreshed : Result Auth.Error P × S → Reply B × Cookie T × S
  refreshed (ok p, s) = (json 200 (body p), set (refresh_of p), s)
  refreshed (err e, s) = (failure 401 (codes "invalid_refresh"), kept, s)

  refresh_with : (T → S → Result Auth.Error P × S) → Option T → S → Reply B × Cookie T × S
  refresh_with svc none s = (failure 401 (codes "invalid_refresh"), kept, s)
  refresh_with svc (some t) s = refreshed (svc t s)

  -- `Refresh`
  unfoldable pub refresh :
      (T → S → Result Auth.Error P × S) → Option T → Option T → S → Reply B × Cookie T × S
  unfolding refresh_with refreshed
  refresh svc in_body cookie s = refresh_with svc (refresh_token_from in_body cookie) s

  logged_out : (T → S → S) → Option T → S → S
  logged_out svc none s = s
  logged_out svc (some t) s = svc t s

  -- `Logout`; an error of the service is not looked at.
  unfoldable pub logout : (T → S → S) → Option T → S → Reply B × Cookie T × S
  unfolding logged_out
  logout svc cookie s = (empty 204, cleared, logged_out svc (refresh_token_from none cookie) s)
