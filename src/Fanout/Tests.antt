-- ===== src/Fanout/Tests.antt =====
-- The worker on a small graph, with Redis kept as functions.
use yaxter.Common.{
  ℕ, ◌≡◌, refl, ap, Bool, true, false, not, ◌&&◌, ◌||◌, none, some, List, [], ◌∷◌, ◌++◌, leb, ◌==◌,
  if◌then◌else◌, take, filter, contains, arith, Result, ok, err,
}
use yaxter.Common.Int.{pos, ltb_ℤ}
use yaxter.Common.Sort.{sort_desc, insert_desc}
use yaxter.Events.{Event, created}
use yaxter.Paging.{query}
use yaxter.Redis.{
  answered, Dedupe, once, Lists, Item, number, is_item, Pipe, ran, cut_off, exec, run_commands,
}
use yaxter.Users.{User}
use yaxter.Fanout.{
  Ended, State, Env, tl_cap, each_follower_page, fanout_create, fanout_delete, dispatch,
  handle_event, push_commands,
}
use yaxter.Fanout.Pages.{Acts, each_follower_page-run}
use yaxter.Fanout.Timelines.{Calm, Fanned, fanout_create-Fanned, fanout_delete-Fanned}

abbrev Store : Type 0
Store = ℕ → List Item

abbrev lists : Lists Store
lists = record {
  lrange = λ i l. l i;
  lpush = λ j x l i. if i == j then number x ∷ l j else l i;
  rpush = λ j xs l i. if i == j then l j ++ xs else l i;
  ltrim = λ j n l i. if i == j then take n (l j) else l i;
  lrem = λ j x l i. if i == j then filter (λ y. not (is_item x y)) (l j) else l i;
  lrange_lpush = λ i j x l. refl;
  lrange_rpush = λ i j xs l. refl;
  lrange_ltrim = λ i j n l. refl;
  lrange_lrem = λ i j x l. refl;
}

abbrev keys : Dedupe (ℕ → Bool)
keys = record { seen = λ i d. d i; mark = λ j d i. i == j || d i; seen_mark = λ i j d. refl }

abbrev author : User
author = record {
  id = 1;
  username = 1;
  bio = [];
  avatar_key = none;
  followers_count = pos 2;
  following_count = pos 0;
  has_password = true;
}

-- 2 and 3 follow 1, and 1 follows 2.
abbrev env : Pipe → Env
env p = record {
  users = author ∷ [];
  followers = (1, 2) ∷ (2, 1) ∷ (1, 3) ∷ [];
  once = answered;
  author_fails = false;
  page_fails = λ n. false;
  pipe = λ n. p;
}

abbrev store : Store
store i = if i == 3 then number 8 ∷ [] else []

env-Calm : Calm lists (env ran) 1
env-Calm = record {
  pages = λ n. refl;
  pipes = λ n. refl;
  distinct = (refl, (refl, tt));
  positive = (omega arith, (omega arith, tt));
}

fanout_create-Fanned_example :
    Fanned lists
      (λ i old.
        if not (leb 1000 2) && contains i (2 ∷ 3 ∷ []) then take tl_cap (number 9 ∷ old) else old)
      store
      (fanout_create lists 3 (env ran) 1000 9 1 2 store)
fanout_create-Fanned_example =
    fanout_create-Fanned lists 3 (env ran) 1000 9 1 2 store env-Calm (omega arith)

fanout_delete-Fanned_example :
    Fanned lists
      (λ i old.
        if ltb_ℤ (pos 2) (pos 1000) && contains i (2 ∷ 3 ∷ [])
        then filter (λ y. not (is_item 8 y)) old
        else old)
      store
      (fanout_delete lists 3 (env ran) 1000 8 1 store)
fanout_delete-Fanned_example =
    fanout_delete-Fanned lists 3 (env ran) 1000 8 1 author store env-Calm refl refl (omega arith)

-- The record of visits, as a callback.
abbrev visit : ℕ → List ℕ → List ℕ → Result (Unit {0}) (Unit {0}) × List ℕ
visit n page l = (ok tt, l ++ page)

append_assoc : (xs ys zs : List ℕ) → xs ++ (ys ++ zs) ≡ (xs ++ ys) ++ zs
append_assoc [] ys zs = refl
append_assoc (x ∷ xs) ys zs = ap (λ r. x ∷ r) (append_assoc xs ys zs)

append-nil : (xs : List ℕ) → xs ++ [] ≡ xs
append-nil [] = refl
append-nil (x ∷ xs) = ap (λ r. x ∷ r) (append-nil xs)

visit-Acts : Acts visit (λ page l. l ++ page)
visit-Acts = record {
  succeeds = λ n page l. refl;
  run_nil = append-nil;
  run_append = λ xs ys l. append_assoc l xs ys;
}

each_follower_page-run_example :
    each_follower_page visit 4 (λ k. false) 0 2 0 (5 ∷ 9 ∷ 7 ∷ []) [] ≡ some (ok tt, 9 ∷ 7 ∷ 5 ∷ [])
unfolding sort_desc insert_desc
each_follower_page-run_example =
    each_follower_page-run visit (λ page l. l ++ page) 4 2 (5 ∷ 9 ∷ 7 ∷ []) [] visit-Acts
      (omega arith) (refl, (refl, (refl, tt))) (omega arith, (omega arith, (omega arith, tt)))
      (omega arith)

abbrev tweeted : Event
tweeted = record { event_id = 50; payload = created 9 1 [] 0 [] 2 }

-- The state after an event, and whether it was handled.
abbrev Fallen : Ended (State (ℕ → Bool) Store) → Type 0
Fallen none = ⊥
Fallen (some (result, s)) =
    (result ≡ err tt)
    × (handle_event keys lists 3 (env ran) 1000 tweeted s ≡ some (ok tt, s))
    × (s.lists 2 ≡ [])

-- When the pipeline breaks down, the event's key is set already: its redelivery is passed over, and
-- the tweet does not reach the timeline of 2.
handle_event-broken : Fallen (
    handle_event keys lists 3
      (env (cut_off 2))
      1000
      tweeted
      (record { dedupe = λ i. false; lists = store }))
unfolding handle_event once dispatch fanout_create each_follower_page query sort_desc insert_desc
    exec run_commands push_commands
handle_event-broken = (refl, refl, refl)
