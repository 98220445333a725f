-- ===== src/Fanout.antt =====
-- internal/fanout/fanout.go: the worker that writes the ids of new tweets into the home timelines
-- `tl:<id>` of the author's followers, page by page. The metrics are left out.
pub mod Pages
pub mod Commands
pub mod Timelines
mod Tests
use yaxter.Common.{
  ℕ, zero, suc, ◌+◌, Bool, true, false, not, ◌||◌, Option, none, some, List, [], ◌∷◌, ◌++◌, ltb,
  leb, ◌==◌, if◌then◌else◌, length, Result, ok, err,
}
use yaxter.Common.Int.{ℤ, pos, ltb_ℤ}
use yaxter.Events.{
  Payload, Event, created, deleted, follow_changed, liked, unliked, retweeted, unretweeted,
  uploaded,
}
use yaxter.Paging.{query, last_key}
use yaxter.Redis.{
  Outcome, Dedupe, once, Lists, Command, lpush_command, ltrim_command, lrem_command, Pipe, exec,
}
use yaxter.Users.{Edge, User, find_id}

-- The parts of Redis that are used here: the dedupe keys and the lists.
pub record State (D L : Type 0) : Type 0 where
  pub dedupe : D
  pub lists : L

-- The tables, and the answers of the calls: by the number of the page, whether its query fails and
-- what its pipeline does.
pub record Env : Type 0 where
  pub users : List User
  pub followers : List Edge
  pub once : Outcome
  pub author_fails : Bool
  pub page_fails : ℕ → Bool
  pub pipe : ℕ → Pipe

abbrev pub tl_cap : ℕ
tl_cap = 800

abbrev pub follower_page : ℕ
follower_page = 1000

-- `WHERE followee_id = $1`
abbrev pub followers_of : ℕ → List Edge → List ℕ
followers_of author [] = []
followers_of author ((a, b) ∷ es) =
    if a == author then b ∷ followers_of author es else followers_of author es

abbrev pub key : ℕ → ℕ
key id = id

-- A loop that has not come to its end is `none`.
abbrev pub Ended : Type 0 → Type 0
Ended L = Option (Result (Unit {0}) (Unit {0}) × L)

module _ {L : Type 0} (fn : ℕ → List ℕ → L → Result (Unit {0}) (Unit {0}) × L) where
  after_page : ℕ → List ℕ → (L → Ended L) → Result (Unit {0}) (Unit {0}) × L → Ended L
  after_page size page again (err e, l) = some (err e, l)
  after_page size page again (ok done, l) =
      if ltb (length page) size then some (ok tt, l) else again l

  on_page : ℕ → List ℕ → (L → Ended L) → ℕ → L → Ended L
  unfolding after_page
  on_page n [] again size l = some (ok tt, l)
  on_page n (x ∷ xs) again size l = after_page size (x ∷ xs) again (fn n (x ∷ xs) l)

  -- `eachFollowerPage`, from page number `n` on; `fn` is also told the number of the page.
  unfoldable pub each_follower_page : ℕ → (ℕ → Bool) → ℕ → ℕ → ℕ → List ℕ → L → Ended L
  unfolding on_page
  each_follower_page zero fails n size cursor rows l = none
  each_follower_page (suc fuel) fails n size cursor rows l =
      let page = query key cursor size rows in
      let again = each_follower_page fuel fails (n + 1) size (last_key key page) rows in
      if fails n then some (err tt, l) else on_page n page again size l

unfoldable pub push_commands : ℕ → List ℕ → List Command
push_commands tweet [] = []
push_commands tweet (f ∷ fs) =
    lpush_command f tweet ∷ ltrim_command f tl_cap ∷ push_commands tweet fs

unfoldable pub remove_commands : ℕ → List ℕ → List Command
remove_commands tweet [] = []
remove_commands tweet (f ∷ fs) = lrem_command f tweet ∷ remove_commands tweet fs

module _ {L : Type 0} (r : Lists L) where
  -- `fanoutCreate`
  unfoldable pub fanout_create : ℕ → Env → ℕ → ℕ → ℕ → ℕ → L → Ended L
  fanout_create fuel e threshold tweet author followers_count l =
      if leb threshold followers_count
      then some (ok tt, l)
      else each_follower_page (λ n page. exec r (e.pipe n) (push_commands tweet page)) fuel
          e.page_fails 0 follower_page 0 (followers_of author e.followers) l

  delete_of : ℕ → Env → ℕ → ℕ → ℕ → Option User → L → Ended L
  delete_of fuel e threshold tweet author none l = some (err tt, l)
  delete_of fuel e threshold tweet author (some u) l =
      if not (ltb_ℤ u.followers_count (pos threshold))
      then some (ok tt, l)
      else each_follower_page (λ n page. exec r (e.pipe n) (remove_commands tweet page)) fuel
          e.page_fails 0 follower_page 0 (followers_of author e.followers) l

  -- `fanoutDelete`
  unfoldable pub fanout_delete : ℕ → Env → ℕ → ℕ → ℕ → L → Ended L
  unfolding delete_of
  fanout_delete fuel e threshold tweet author l =
      if e.author_fails
      then some (err tt, l)
      else delete_of fuel e threshold tweet author (find_id author e.users) l

  -- The `switch` over the payload.
  unfoldable pub dispatch : ℕ → Env → ℕ → Payload → L → Ended L
  dispatch fuel e threshold (created tweet author text c media count) l =
      fanout_create fuel e threshold tweet author count l
  dispatch fuel e threshold (deleted tweet author) l = fanout_delete fuel e threshold tweet author l
  dispatch fuel e threshold (follow_changed a b following) l = some (ok tt, l)
  dispatch fuel e threshold (liked a b c) l = some (ok tt, l)
  dispatch fuel e threshold (unliked a b c) l = some (ok tt, l)
  dispatch fuel e threshold (retweeted a b c d) l = some (ok tt, l)
  dispatch fuel e threshold (unretweeted a b c) l = some (ok tt, l)
  dispatch fuel e threshold (uploaded a b type size) l = some (ok tt, l)

module _ {D L : Type 0} (k : Dedupe D) (r : Lists L) where
  with_dedupe : D → Ended L → Ended (State D L)
  with_dedupe d none = none
  with_dedupe d (some (result, l)) = some (result, record { dedupe = d; lists = l })

  on_first : ℕ → Env → ℕ → Payload → State D L → Result (Unit {0}) Bool × D → Ended (State D L)
  on_first fuel e threshold p s (err x, d) = some (err tt, record s { dedupe = d })
  on_first fuel e threshold p s (ok false, d) = some (ok tt, record s { dedupe = d })
  on_first fuel e threshold p s (ok true, d) = with_dedupe d (dispatch r fuel e threshold p s.lists)

  -- `HandleEvent`
  unfoldable pub handle_event : ℕ → Env → ℕ → Event → State D L → Ended (State D L)
  unfolding on_first with_dedupe
  handle_event fuel e threshold ev s =
      on_first fuel e threshold ev.payload s (once k e.once ev.event_id s.dedupe)
