-- ===== src/Api/Tests.antt =====
-- The handlers on small requests.
use yaxter.Common.{
  ℕ, ◌+◌, ◌%◌, ◌≤◌, ◌≡◌, ◌≢◌, refl, true, false, none, some, [], ◌∷◌, ◌++◌, Result, ok, arith, ◌⊎◌,
}
use yaxter.Common.Int.{pos, negsuc}
use yaxter.Common.Decimal.{Text, decimal}
use yaxter.Events.{codes}
use yaxter.Auth
use yaxter.Auth.Password.{same_text}
use yaxter.Auth.Sample.{jwt, issuer}
use yaxter.Auth.Tokens.{verify, issue}
use yaxter.Users.{Db, Env, User, find_username}
use yaxter.Api.{json, failure, status, bearer_auth, bearer, parse_page, cursor_of}
use yaxter.Api.Urls.{media_url, variant_key, tweet_media_url, tweet_media_url-wrong}
use yaxter.Api.Pages.{parse_page-limit, parse_page-cursor_of}
use yaxter.Api.Follows.{Answered, edge_request, edge_request-Answered, edge_request_self}
use yaxter.Api.Access.{Local, bearer_auth-issue, safe_redirect-Local}
use yaxter.Api.Sessions.{RegisterRequest, safe_redirect, kept, register}
use yaxter.Api.Sessions.Checks.{Admitted, register-Admitted}

bearer_auth-issue_example :
    bearer_auth (verify jwt issuer 906999) (bearer 5) 0 (λ u s. (json 200 u, s + 1))
    ≡ (json 200 (some (pos 4)), 1)
unfolding issue decimal same_text
bearer_auth-issue_example =
    bearer_auth-issue jwt issuer 7000 906999 4 0 (λ u s. (json 200 u, s + 1)) (omega arith) refl

safe_redirect-Local_example :
    Local (safe_redirect (codes "//a.b"))
    × (safe_redirect (safe_redirect (codes "//a.b")) ≡ safe_redirect (codes "//a.b"))
safe_redirect-Local_example = safe_redirect-Local (codes "//a.b")

abbrev ann : User
ann = record {
  id = 1;
  username = 7;
  bio = [];
  avatar_key = none;
  followers_count = pos 0;
  following_count = pos 0;
  has_password = true;
}

abbrev only_ann : Db
only_ann = record { users = ann ∷ []; follows = []; followers = []; outbox = [] }

abbrev calm : Env
calm = record { fails = λ n. false; fresh_id = 50 }

abbrev bob : User
bob = record ann { id = 2; username = 8 }

abbrev two_users : Db
two_users = record only_ann { users = ann ∷ bob ∷ [] }

edge_request-Answered_example :
    Answered 1000 calm 1 true two_users
      (find_username 8 two_users.users)
      (edge_request 1000 calm two_users 1 8 true two_users)
edge_request-Answered_example = edge_request-Answered 1000 calm two_users 1 8 true two_users

-- The request is answered with 204.
edge_request-done : status (edge_request 1000 calm two_users 1 8 true two_users).0 ≡ 204
unfolding edge_request yaxter.Api.Users.follow_user yaxter.Users.set_follow
    yaxter.Users.get_by_username yaxter.Users.apply_change yaxter.Events.emit
    yaxter.Common.Decimal.decimal
edge_request-done = refl

edge_request_self_example :
    (edge_request 1000 calm only_ann 1 7 true only_ann
      ≡ (failure 422 (codes "self_follow"), only_ann))
    × (edge_request 1000 calm only_ann 1 7 false only_ann
        ≡ (failure 500 (codes "internal_error"), only_ann))
edge_request_self_example = edge_request_self 1000 calm only_ann 7 only_ann ann refl refl

tweet_media_url-wrong_example :
    (media_url (codes "m") (codes "feed") 3
      ≡ codes "m" ++ (codes "/" ++ variant_key (codes "feed") 3))
    × (tweet_media_url (codes "m") (codes "feed") 3
        ≢ codes "m" ++ (codes "/" ++ variant_key (codes "feed") 3))
tweet_media_url-wrong_example = tweet_media_url-wrong (codes "m") (codes "feed") 3

parse_page-cursor_of_example : (parse_page (cursor_of (some 40)) none).0 ≡ pos 40
parse_page-cursor_of_example = parse_page-cursor_of 40 none (omega arith)

abbrev ask : RegisterRequest
ask = record { username = codes "ann_1"; email = codes "a@b"; password = codes "12345678" }

abbrev taken : Text → Text → Text → ℕ → Result Auth.Error (ℕ × ℕ) × ℕ
taken name email password s = (ok (4, 5), s + 1)

register-Admitted_example :
    (Admitted (λ t. true) ask
      × (status (register (λ u p. u) (λ p. p) (λ t. true) taken (some ask) 0).0 ≢ 400))
    ⊎ (register (λ u p. u) (λ p. p) (λ t. true) taken (some ask) 0
        ≡ (failure 400 (codes "validation_failed"), kept, 0))
register-Admitted_example = register-Admitted (λ u p. u) (λ p. p) (λ t. true) taken ask 0

parse_page-limit_example :
    (1 ≤ (parse_page none (some (pos 1000))).1)
    × ((parse_page none (some (pos 1000))).1 ≤ 100)
    × ((parse_page none (some (pos (99 % 100 + 1)))).1 ≡ 99 % 100 + 1)
    × ((parse_page none (some (pos (99 + 101)))).1 ≡ 20)
    × ((parse_page none (some (negsuc 99))).1 ≡ 20)
    × ((parse_page none (some (pos 0))).1 ≡ 20)
    × ((parse_page none none).1 ≡ 20)
parse_page-limit_example = parse_page-limit none (some (pos 1000)) 99
