-- ===== src/Timeline/Tests.antt =====
-- Timelines over small stores, kept as functions.
use yaxter.Common.{
  ℕ, zero, suc, ◌≡◌, refl, true, false, not, none, List, [], ◌∷◌, ◌++◌, ◌==◌, if◌then◌else◌, length,
  take, filter, contains, inl, inr, Bool-cases, arith, ok,
}
use yaxter.Common.Int.{pos}
use yaxter.Common.Sort.{sort_desc, insert_desc, Descending}
use yaxter.Paging.Client.{collect}
use yaxter.Redis.{answered, Lists, Item, number, other, is_item, ran}
use yaxter.Users.{User}
use yaxter.Timeline.{
  Db, Env, State, Sets, id_key, merge_desc, home_ids, followed_celebrities, streams,
}
use yaxter.Timeline.Merge.{merge_desc-Descending}
use yaxter.Timeline.Hydrate.{Got, got, missing, hydrate_page, profile}
use yaxter.Timeline.Visible.{visible, Answer}
use yaxter.Timeline.Scroll.{hydrate_page-collect}
use yaxter.Timeline.Profile.{profile-collect}
use yaxter.Timeline.Home.{Answered, home_ids-Answered}

abbrev Store : Type 0
Store = ℕ → List Item

abbrev lists : Lists Store
lists = record {
  lrange = λ i l. l i;
  lpush = λ j x l i. if i == j then number x ∷ l j else l i;
  rpush = λ j xs l i. if i == j then l j ++ xs else l i;
  ltrim = λ j n l i. if i == j then take n (l j) else l i;
  lrem = λ j x l i. if i == j then filter (λ y. not (is_item x y)) (l j) else l i;
  lrange_lpush = λ i j x l. refl;
  lrange_rpush = λ i j xs l. refl;
  lrange_ltrim = λ i j n l. refl;
  lrange_lrem = λ i j x l. refl;
}

abbrev sets : Sets Store
sets = record { members = λ i s. s i; add = λ j xs s i. if i == j then xs ++ s j else s i }

merge_desc-Descending_example :
    Descending id_key (merge_desc (5 ∷ 9 ∷ 5 ∷ 7 ∷ []))
    × ((i : ℕ) → contains i (merge_desc (5 ∷ 9 ∷ 5 ∷ 7 ∷ [])) ≡ contains i (5 ∷ 9 ∷ 5 ∷ 7 ∷ []))
merge_desc-Descending_example = merge_desc-Descending (5 ∷ 9 ∷ 5 ∷ 7 ∷ [])

-- Every id but 7 has a tweet, which is its id here.
abbrev get : ℕ → Got ℕ
get zero = missing
get (suc n) = if n == 6 then missing else got (suc n)

answers : (id : ℕ) → Answer id_key get id (get id)
answers zero = tt
answers (suc n) = elim (Bool-cases (n == 6)) [
  | inl gone ↦ rw gone tt
  | inr there ↦ rw there (refl, omega arith)
]

-- Pages of one tweet, over a deleted one.
hydrate_page-collect_example :
    collect
      (suc (length (visible id_key get (9 ∷ 7 ∷ 5 ∷ []))))
      0
      (λ c. hydrate_page id_key get 1 c (9 ∷ 7 ∷ 5 ∷ []))
    ≡ ok (9 ∷ 5 ∷ [])
hydrate_page-collect_example =
    hydrate_page-collect id_key get 1 (9 ∷ 7 ∷ 5 ∷ []) answers (omega arith)
      ((omega arith, (omega arith, tt)), ((omega arith, tt), (tt, tt)))

abbrev user : ℕ → ℕ → User
user n followers = record {
  id = n;
  username = n;
  bio = [];
  avatar_key = none;
  followers_count = pos followers;
  following_count = pos 0;
  has_password = true;
}

-- 1 follows 2, and 3, who is a celebrity.
abbrev db : Db
db = record {
  users = user 1 0 ∷ user 2 1 ∷ user 3 2000 ∷ [];
  follows = (1, 2) ∷ (1, 3) ∷ [];
  tweets =
      record { id = 5; author_id = 2 }
      ∷ record { id = 9; author_id = 2 }
      ∷ record { id = 7; author_id = 2 }
      ∷ record { id = 8; author_id = 3 }
      ∷ [];
}

profile-collect_example :
    collect 4 0 (λ c. profile id_key get false false 2 c 1 db) ≡ ok (9 ∷ 5 ∷ [])
unfolding sort_desc insert_desc
profile-collect_example =
    profile-collect id_key get 2 1 db (user 2 1) refl answers (omega arith)
      (refl, (refl, (refl, tt))) (omega arith, (omega arith, (omega arith, tt)))

abbrev env : Env
env = record {
  tl_fails = false;
  rebuild_fails = false;
  warm = ran;
  members_fails = false;
  celebs_fails = false;
  remember = answered;
  utl_fails = λ n. false;
}

-- A warm list, and the stream of 3.
abbrev start : State Store Store
start = record {
  tl = λ i. if i == 1 then number 9 ∷ number 5 ∷ [] else [];
  utl = λ i. if i == 3 then number 8 ∷ [] else [];
  celebs = λ i. if i == 1 then other ∷ number 3 ∷ [] else [];
}

home_ids-warm : home_ids lists sets env 1000 1 db start ≡ (ok (9 ∷ 8 ∷ 5 ∷ []), start)
unfolding home_ids followed_celebrities streams merge_desc sort_desc insert_desc
home_ids-warm = refl

home_ids-Answered_example : Answered lists sets 1000 env 1 db start (9 ∷ 8 ∷ 5 ∷ []) start
home_ids-Answered_example =
    home_ids-Answered lists sets env 1000 1 db start start (9 ∷ 8 ∷ 5 ∷ []) home_ids-warm
