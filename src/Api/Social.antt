-- ===== src/Api/Social.antt =====
-- internal/httpapi/oauth_handlers.go. The operations of the services are arguments: they take the state and
-- give it back with their result.
use yaxter.Common.{ℕ, Option, Result, ok, err}
use yaxter.Common.Decimal.{Text}
use yaxter.Events.{codes}
use yaxter.OAuth.Accounts.{Error, unknown_provider, invalid_state, link_required, last_credential}
use yaxter.Api.{Reply, json, failure, empty, as_user}
use yaxter.Api.Sessions.{Cookie, kept, set, safe_redirect}

module _ {S : Type 0} where
  start_reply : ℕ → Result Error Text × S → Reply Text × S
  start_reply good (ok url, s) = (json good url, s)
  start_reply good (err unknown_provider, s) = (failure 404 (codes "not_found"), s)
  start_reply good (err e, s) = (failure 500 (codes "internal"), s)

  -- `Start`, in the mode `login`, with the redirection of the query; the reply redirects to the provider.
  unfoldable pub start : (Text → S → Result Error Text × S) → Text → S → Reply Text × S
  unfolding start_reply
  start svc redirect_to s = start_reply 302 (svc (safe_redirect redirect_to) s)

  -- `Link`, in the mode `link` for the user.
  unfoldable pub link : (ℕ → Text → S → Result Error Text × S) → Option ℕ → S → Reply Text × S
  unfolding start_reply
  link svc user s = as_user user s (λ uid. start_reply 200 (svc uid (codes "/settings") s))

  abbrev pub unlinked : Result Error (Unit {0}) × S → Reply (Unit {0}) × S
  unlinked (ok t, s) = (empty 204, s)
  unlinked (err last_credential, s) = (failure 409 (codes "last_credential"), s)
  unlinked (err e, s) = (failure 404 (codes "not_found"), s)

  -- `Unlink`
  unfoldable pub unlink :
      (ℕ → S → Result Error (Unit {0}) × S) → Option ℕ → S → Reply (Unit {0}) × S
  unlink svc user s = as_user user s (λ uid. unlinked (svc uid s))

-- `body` renders the profile and the tokens, `refresh_of` is the refresh token of a pair.
module _ {E I P T B S : Type 0} (body : I → P → B) (refresh_of : P → T) where
  callback_info : P → Result E I → S → Reply B × Cookie T × S
  callback_info p (err x) s = (failure 500 (codes "internal"), kept, s)
  callback_info p (ok info) s = (json 200 (body info p), set (refresh_of p), s)

  callback_pair : (S → Result E I) → Result E P × S → Reply B × Cookie T × S
  callback_pair user_info (err x, s) = (failure 500 (codes "internal"), kept, s)
  callback_pair user_info (ok p, s) = callback_info p (user_info s) s

  callback_user :
      (ℕ → S → Result E P × S) → (ℕ → S → Result E I) → Result Error ℕ × S → Reply B × Cookie T × S
  callback_user pair_for user_info (err unknown_provider, s) =
      (failure 404 (codes "not_found"), kept, s)
  callback_user pair_for user_info (err invalid_state, s) =
      (failure 400 (codes "invalid_state"), kept, s)
  callback_user pair_for user_info (err link_required, s) =
      (failure 400 (codes "link_required"), kept, s)
  callback_user pair_for user_info (err e, s) = (failure 400 (codes "oauth_failed"), kept, s)
  callback_user pair_for user_info (ok uid, s) = callback_pair (user_info uid) (pair_for uid s)

  -- `Callback`, with `TokenPairFor` and `UserInfo` of the sessions' service.
  unfoldable pub callback :
      (S → Result Error ℕ × S)
      → (ℕ → S → Result E P × S)
      → (ℕ → S → Result E I)
      → S
      → Reply B × Cookie T × S
  unfolding callback_user callback_pair callback_info
  callback svc pair_for user_info s = callback_user pair_for user_info (svc s)
