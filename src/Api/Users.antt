-- ===== src/Api/Users.antt =====
-- internal/httpapi/users_handlers.go. The operations of the service are arguments: they take the state
-- and give it back with their result.
use yaxter.Common.{ℕ, Bool, true, false, Option, none, some, List, [], ◌∷◌, Result, ok, err, map}
use yaxter.Common.Int.{ℤ, pos}
use yaxter.Common.Decimal.{Text}
use yaxter.Common.Strconv.{parse_int}
use yaxter.Events.{codes}
use yaxter.Users.{Error, not_found, self_follow, media_not_ready}
use yaxter.Api.{Reply, json, failure, empty, as_user, with_id, page_limit, Page, cursor_of}

module _ {B : Type 0} where
  -- The errors of `GetMe`, `GetUser` and the edge lists.
  abbrev pub read_error : Error → Reply B
  read_error not_found = failure 404 (codes "not_found")
  read_error e = failure 500 (codes "internal_error")

  abbrev pub update_error : Error → Reply B
  update_error media_not_ready = failure 422 (codes "media_not_ready")
  update_error e = failure 500 (codes "internal_error")

  abbrev pub follow_error : Error → Reply B
  follow_error self_follow = failure 422 (codes "self_follow")
  follow_error not_found = failure 404 (codes "not_found")
  follow_error e = failure 500 (codes "internal_error")

  abbrev pub unfollow_error : Error → Reply B
  unfollow_error not_found = failure 404 (codes "not_found")
  unfollow_error e = failure 500 (codes "internal_error")

  abbrev pub read_reply : Result Error B → Reply B
  read_reply (ok u) = json 200 u
  read_reply (err e) = read_error e

module _ {B S : Type 0} where
  -- `GetMe`
  unfoldable pub get_me : (ℕ → Result Error B) → Option ℕ → S → Reply B × S
  get_me get_by_id user s = as_user user s (λ uid. (read_reply (get_by_id uid), s))

  -- `GetUser`
  unfoldable pub get_user : {N : Type 0} → (N → Result Error B) → N → S → Reply B × S
  get_user get_by_username name s = (read_reply (get_by_username name), s)

  abbrev pub updated : Result Error B × S → Reply B × S
  updated (ok u, s) = (json 200 u, s)
  updated (err e, s) = (update_error e, s)

  -- The profile that the body asks for: the bio, and the text of the avatar's media id.
  avatar_id : Option Text → S → (Option ℤ → Reply B × S) → Reply B × S
  avatar_id none s k = k none
  avatar_id (some text) s k =
      with_id text (failure 400 (codes "invalid_media_id")) s (λ id. k (some id))

  update_body :
      (ℕ → Option Text → Option ℤ → S → Result Error B × S)
      → ℕ
      → Option (Option Text × Option Text)
      → S
      → Reply B × S
  update_body update uid none s = (failure 400 (codes "invalid_body"), s)
  update_body update uid (some (bio, avatar)) s =
      avatar_id avatar s (λ id. updated (update uid bio id s))

  -- `UpdateMe`; the body is none if it is no JSON of its type.
  unfoldable pub update_me :
      (ℕ → Option Text → Option ℤ → S → Result Error B × S)
      → Option ℕ
      → Option (Option Text × Option Text)
      → S
      → Reply B × S
  unfolding update_body avatar_id
  update_me update user body s = as_user user s (λ uid. update_body update uid body s)

  abbrev pub followed : Result Error (Unit {0}) × S → Reply B × S
  followed (ok t, s) = (empty 204, s)
  followed (err e, s) = (follow_error e, s)

  -- `FollowUser`
  unfoldable pub follow_user :
      {N : Type 0} → (ℕ → N → S → Result Error (Unit {0}) × S) → Option ℕ → N → S → Reply B × S
  follow_user follow user name s = as_user user s (λ uid. followed (follow uid name s))

  abbrev pub unfollowed : Result Error (Unit {0}) × S → Reply B × S
  unfollowed (ok t, s) = (empty 204, s)
  unfollowed (err e, s) = (unfollow_error e, s)

  -- `UnfollowUser`
  unfoldable pub unfollow_user :
      {N : Type 0} → (ℕ → N → S → Result Error (Unit {0}) × S) → Option ℕ → N → S → Reply B × S
  unfollow_user unfollow user name s = as_user user s (λ uid. unfollowed (unfollow uid name s))

-- The page of summaries, rendered by `toUserSummary`.
module _ {U B : Type 0} (render : U → B) where
  edge_page : Result Error (List U × Option ℕ) → Reply (Page B)
  edge_page (err e) = read_error e
  edge_page (ok (items, next)) =
      json 200 (record { items = map render items; next_cursor = cursor_of next })

  edge_cursor :
      {N : Type 0}
      → (N → ℤ → ℕ → Result Error (List U × Option ℕ))
      → N
      → ℕ
      → ℤ × Bool
      → Reply (Page B)
  edge_cursor page name limit (c, true) = edge_page (page name c limit)
  edge_cursor page name limit (c, false) = failure 400 (codes "invalid_cursor")

  edge_text :
      {N : Type 0}
      → (N → ℤ → ℕ → Result Error (List U × Option ℕ))
      → N
      → ℕ
      → Option Text
      → Reply (Page B)
  edge_text page name limit none = edge_page (page name (pos 0) limit)
  edge_text page name limit (some []) = edge_page (page name (pos 0) limit)
  edge_text page name limit (some (c ∷ cs)) = edge_cursor page name limit (parse_int (c ∷ cs))

  -- `listEdge`, which `ListFollowers` and `ListFollowing` call with their page.
  unfoldable pub list_edge :
      {N : Type 0}
      → (N → ℤ → ℕ → Result Error (List U × Option ℕ))
      → N
      → Option Text
      → Option ℤ
      → Reply (Page B)
  unfolding edge_text edge_cursor edge_page
  list_edge page name cursor limit = edge_text page name (page_limit limit) cursor
