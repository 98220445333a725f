-- ===== src/Api/Inbox.antt =====
-- internal/httpapi/notifications_handlers.go and timeline_handlers.go. The operations of the services are
-- arguments; `render` is the API's form of an item.
use yaxter.Common.{ℕ, Option, none, some, List, Result, ok, err, map}
use yaxter.Common.Int.{ℤ}
use yaxter.Common.Decimal.{Text}
use yaxter.Events.{codes}
use yaxter.Timeline.{Error, user_not_found}
use yaxter.Api.{Reply, json, failure, empty, as_user, with_id, parse_page, Page, cursor_of}

module _ {U B : Type 0} (render : U → B) where
  -- `writePage`
  abbrev pub page_of : List U × Option ℕ → Page B
  page_of (items, next) = record { items = map render items; next_cursor = cursor_of next }

  listed : Result (Unit {0}) (List U × Option ℕ) → Reply (Page B)
  listed (ok p) = json 200 (page_of p)
  listed (err e) = failure 500 (codes "internal")

  -- `NotificationsHandlers.List`
  unfoldable pub list_notifications :
      {S : Type 0}
      → (ℕ → ℤ → ℕ → Result (Unit {0}) (List U × Option ℕ))
      → Option ℕ
      → Option Text
      → Option ℤ
      → S
      → Reply (Page B) × S
  unfolding listed
  list_notifications list user cursor limit s =
      as_user user s (λ uid. let (c, n) = parse_page cursor limit in (listed (list uid c n), s))

  home_error : Error → Reply (Page B)
  home_error e = failure 500 (codes "internal")

  profile_error : Error → Reply (Page B)
  profile_error user_not_found = failure 404 (codes "not_found")
  profile_error e = failure 500 (codes "internal")

  home_reply : {S : Type 0} → Result Error (List U × Option ℕ) × S → Reply (Page B) × S
  home_reply (ok p, s) = (json 200 (page_of p), s)
  home_reply (err e, s) = (home_error e, s)

  -- `TimelineHandlers.Home`
  unfoldable pub home :
      {S : Type 0}
      → (ℕ → ℤ → ℕ → S → Result Error (List U × Option ℕ) × S)
      → Option ℕ
      → Option Text
      → Option ℤ
      → S
      → Reply (Page B) × S
  unfolding home_reply home_error
  home svc user cursor limit s =
      as_user user s (λ uid. let (c, n) = parse_page cursor limit in home_reply (svc uid c n s))

  profile_reply : Result Error (List U × Option ℕ) → Reply (Page B)
  profile_reply (ok p) = json 200 (page_of p)
  profile_reply (err e) = profile_error e

  -- `TimelineHandlers.UserTweets`
  unfoldable pub user_tweets :
      {N : Type 0}
      → (N → ℤ → ℕ → Result Error (List U × Option ℕ))
      → N
      → Option Text
      → Option ℤ
      → Reply (Page B)
  unfolding profile_reply profile_error
  user_tweets profile name cursor limit =
      let (c, n) = parse_page cursor limit in profile_reply (profile name c n)

counted : Result (Unit {0}) ℕ → Reply ℕ
counted (ok n) = json 200 n
counted (err e) = failure 500 (codes "internal")

module _ {S : Type 0} where
  -- `UnreadCount`
  unfoldable pub unread_count : (ℕ → Result (Unit {0}) ℕ) → Option ℕ → S → Reply ℕ × S
  unfolding counted
  unread_count count user s = as_user user s (λ uid. (counted (count uid), s))

  marked : Result (Unit {0}) (Unit {0}) × S → Reply ℕ × S
  marked (ok t, s) = (empty 204, s)
  marked (err e, s) = (failure 500 (codes "internal"), s)

  mark_body : (ℕ → ℤ → S → Result (Unit {0}) (Unit {0}) × S) → ℕ → Option Text → S → Reply ℕ × S
  mark_body mark uid none s = (failure 400 (codes "malformed_body"), s)
  mark_body mark uid (some up_to) s =
      with_id up_to (failure 400 (codes "validation_failed")) s (λ n. marked (mark uid n s))

  -- `MarkRead`; the body is none if it is no JSON of its type.
  unfoldable pub mark_read :
      (ℕ → ℤ → S → Result (Unit {0}) (Unit {0}) × S) → Option ℕ → Option Text → S → Reply ℕ × S
  unfolding mark_body marked
  mark_read mark user body s = as_user user s (λ uid. mark_body mark uid body s)
