-- ===== src/Api.antt =====
-- internal/httpapi: what the handlers answer. A reply is its status with a body, or with the code
-- of an error; the messages of errors and the JSON of bodies are left out. The state `S` is what
-- the services keep; a read gives its result only, and the caches that it fills are left out.
pub mod Urls
pub mod Users
pub mod Render
pub mod Tweets
pub mod Media
pub mod Inbox
pub mod Sessions
pub mod Social
pub mod Pages
pub mod Follows
pub mod Access
pub mod Chain
pub mod SharedKeys
mod StackTests
mod Tests
use yaxter.Common.{
  ℕ, ◌+◌, ◌≡◌, Bool, true, false, not, ◌||◌, ◌&&◌, Option, none, some, List, [], ◌∷◌, ◌++◌, ltb,
  leb, ◌==◌, if◌then◌else◌, Result, ok, err, map,
}
use yaxter.Common.Int.{ℤ, pos, negsuc}
use yaxter.Common.Decimal.{Text, decimal}
use yaxter.Common.Strconv.{parse_int}
use yaxter.Events.{codes}

pub data Reply (B : Type 0) : Type 0 where
  json : ℕ → B → Reply B
  failure : ℕ → Text → Reply B
  empty : ℕ → Reply B

abbrev pub status : {B : Type 0} → Reply B → ℕ
status (json n b) = n
status (failure n code) = n
status (empty n) = n

-- `requireUser`, and the same test written out in the handlers.
abbrev pub as_user : {B S : Type 0} → Option ℕ → S → (ℕ → Reply B × S) → Reply B × S
as_user none s k = (failure 401 (codes "unauthorized"), s)
as_user (some uid) s k = k uid

-- An id of a path or a body, with the reply to one that `strconv.ParseInt` refuses.
abbrev pub parsed : {B S : Type 0} → ℤ × Bool → Reply B → S → (ℤ → Reply B × S) → Reply B × S
parsed (n, true) bad s k = k n
parsed (n, false) bad s k = (bad, s)

abbrev pub with_id : {B S : Type 0} → Text → Reply B → S → (ℤ → Reply B × S) → Reply B × S
with_id text bad s k = parsed (parse_int text) bad s k

-- The limit: 20 unless the query has one from 1 to 100.
unfoldable pub page_limit : Option ℤ → ℕ
page_limit none = 20
page_limit (some (negsuc n)) = 20
page_limit (some (pos n)) = if ltb 0 n && leb n 100 then n else 20

unfoldable pub page_cursor : Option Text → ℤ
page_cursor none = pos 0
page_cursor (some []) = pos 0
page_cursor (some (c ∷ cs)) = (parse_int (c ∷ cs)).0

-- `parsePage`
unfoldable pub parse_page : Option Text → Option ℤ → ℤ × ℕ
unfolding page_limit page_cursor
parse_page cursor limit = (page_cursor cursor, page_limit limit)

-- `formatID` and `strconv.FormatInt`, of ids that are not negative.
unfoldable pub format_id : ℕ → Text
format_id id = decimal id

-- A page with its `next_cursor`.
pub record Page (B : Type 0) : Type 0 where
  pub items : List B
  pub next_cursor : Option Text

abbrev pub cursor_of : Option ℕ → Option Text
cursor_of none = none
cursor_of (some n) = some (format_id n)

-- The header `Authorization`: none, one that does not start with `Bearer `, or a token.
pub data Authorization (T : Type 0) : Type 0 where
  absent malformed : Authorization T
  bearer : T → Authorization T

module _ {B S : Type 0} where
  verified : {U : Type 0} → Result (Unit {0}) U → S → (Option U → S → Reply B × S) → Reply B × S
  verified (err e) s next = (failure 401 (codes "invalid_token"), s)
  verified (ok uid) s next = next (some uid) s

  -- `BearerAuth`: `next` gets the user, if the request has one.
  unfoldable pub bearer_auth :
      {T U : Type 0}
      → (T → Result (Unit {0}) U)
      → Authorization T
      → S
      → (Option U → S → Reply B × S)
      → Reply B × S
  unfolding verified
  bearer_auth verify absent s next = next none s
  bearer_auth verify malformed s next = (failure 401 (codes "invalid_token"), s)
  bearer_auth verify (bearer t) s next = verified (verify t) s next

  limited : Result (Unit {0}) Bool → S → (S → Reply B × S) → Reply B × S
  limited (err e) s next = next s
  limited (ok true) s next = next s
  limited (ok false) s next = (failure 429 (codes "rate_limited"), s)

  -- `AuthRateLimit`: whether the path is one of `/v1/auth/`, and what `Allow` says.
  unfoldable pub auth_rate_limit :
      Bool → Result (Unit {0}) Bool → S → (S → Reply B × S) → Reply B × S
  unfolding limited
  auth_rate_limit auth_route allowed s next = if auth_route then limited allowed s next else next s
