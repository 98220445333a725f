-- ===== src/Users/Tests.antt =====
-- The follow graph on small tables.
use yaxter.Common.{
  ℕ, suc, ◌≡◌, ◌≢◌, refl, Bool, true, false, Option, none, some, List, [], ◌∷◌, Result, ok, err,
  arith, length, ◌==◌, ◌<◌,
}
use yaxter.Common.Int.{ℤ, pos, negsuc}
use yaxter.Common.Sort.{sort_desc}
use yaxter.Common.Decimal.{Text}
use yaxter.Events.{emit}
use yaxter.Paging.Client.{collect}
use yaxter.Users.{
  User, Db, Env, self_follow, not_found, usr, find_id, get_by_id, get_by_username, follow, unfollow,
  set_follow, apply_change, add_edge, add_followers, add_following,
}
use yaxter.Users.Graph.{IsValid}
use yaxter.Users.Follow.{set_follow-IsValid, set_follow-Effect, event_of, Effect}
use yaxter.Users.Lists.{Summary, edge_rows, followers_page, followers_page-collect}
use yaxter.Users.Profile.{
  MediaRow, is_ready, check_avatar, update_user, update_profile, update_profile-Updated, Updated,
  Owned,
}

abbrev user : ℕ → ℤ → ℤ → User
user n followers following = record {
  id = n;
  username = n;
  bio = [];
  avatar_key = none;
  followers_count = followers;
  following_count = following;
  has_password = true;
}

-- 2 and 3 follow 1.
abbrev three_users : Db
three_users = record {
  users = user 1 (pos 2) (pos 0) ∷ user 2 (pos 0) (pos 1) ∷ user 3 (pos 0) (pos 1) ∷ [];
  follows = (2, 1) ∷ (3, 1) ∷ [];
  followers = (1, 2) ∷ (1, 3) ∷ [];
  outbox = [];
}

abbrev calm : Env
calm = record { fails = λ n. false; fresh_id = 50 }

-- 1 follows 2.
abbrev after_follow : Db
after_follow = record {
  users = user 1 (pos 2) (pos 1) ∷ user 2 (pos 1) (pos 1) ∷ user 3 (pos 0) (pos 1) ∷ [];
  follows = (1, 2) ∷ (2, 1) ∷ (3, 1) ∷ [];
  followers = (2, 1) ∷ (1, 2) ∷ (1, 3) ∷ [];
  outbox = event_of calm 1 2 true ∷ [];
}

set_follow-true : set_follow 1000 calm 1 2 true three_users ≡ ok (after_follow, usr 2 ∷ usr 1 ∷ [])
unfolding set_follow get_by_username apply_change add_edge add_followers add_following emit
    yaxter.Common.Decimal.decimal yaxter.Common.Int.◌+ℤ◌
set_follow-true = refl

three_users-IsValid : IsValid three_users
three_users-IsValid = record {
  counted = ((refl, refl), ((refl, refl), ((refl, refl), tt)));
  mirrored = λ a b. ground arith;
  distinct = (refl, (refl, tt));
  distinct_back = (refl, (refl, tt));
  irreflexive = λ a. ground arith;
}

set_follow-IsValid_example : IsValid after_follow
set_follow-IsValid_example =
    set_follow-IsValid 1000 calm 1 2 true three_users after_follow (usr 2 ∷ usr 1 ∷ [])
      set_follow-true three_users-IsValid

set_follow-Effect_example :
    Effect 1000 calm 1 true three_users after_follow
      (usr 2 ∷ usr 1 ∷ [])
      (some (user 2 (pos 0) (pos 1)))
set_follow-Effect_example =
    set_follow-Effect 1000 calm 1 2 true three_users after_follow (usr 2 ∷ usr 1 ∷ [])
      set_follow-true

-- Nobody can follow oneself, and a name that is not there is reported.
self_follow-refused : follow 1000 calm 1 1 three_users ≡ err self_follow
unfolding follow set_follow get_by_username
self_follow-refused = refl

name-missing : unfollow 1000 calm 1 9 three_users ≡ err not_found
unfolding unfollow set_follow get_by_username
name-missing = refl

-- A second `Follow` changes nothing.
follow-twice : follow 1000 calm 2 1 three_users ≡ ok (three_users, [])
unfolding follow set_follow get_by_username
follow-twice = refl

-- A page of one row at a time.
followers_page-collect_example :
    collect
      (suc (length (edge_rows 1 three_users.users three_users.followers)))
      0
      (λ c. followers_page (λ n. false) 1 c 1 three_users)
    ≡ ok (sort_desc Summary.id (edge_rows 1 three_users.users three_users.followers))
unfolding get_by_username
followers_page-collect_example =
    (followers_page-collect 1 1 three_users (user 1 (pos 2) (pos 0)) refl (omega arith)
      three_users-IsValid ((user 2 (pos 0) (pos 1), refl), ((user 3 (pos 0) (pos 1), refl), tt))
      (omega arith, (omega arith, (omega arith, tt)))).0

abbrev avatar : List MediaRow
avatar = record { id = 7; owner_id = 2; ready = true } ∷ []

abbrev with_avatar : User
with_avatar = record {
  id = 2;
  username = 2;
  bio = 104 ∷ 105 ∷ [];
  avatar_key = some 7;
  followers_count = pos 0;
  following_count = pos 1;
  has_password = true;
}

abbrev after_update : Db
after_update = record {
  users = user 1 (pos 2) (pos 0) ∷ with_avatar ∷ user 3 (pos 0) (pos 1) ∷ [];
  follows = (2, 1) ∷ (3, 1) ∷ [];
  followers = (1, 2) ∷ (1, 3) ∷ [];
  outbox = [];
}

update_profile-Updated_example :
    Owned (some 7) 2 avatar
    × Updated (some (104 ∷ 105 ∷ [])) (some 7) (some (user 2 (pos 0) (pos 1))) with_avatar
    × (find_id 2 after_update.users ≡ some with_avatar)
    × ((k : ℕ) → k ≢ 2 → find_id k after_update.users ≡ find_id k three_users.users)
unfolding update_profile check_avatar is_ready update_user get_by_id
update_profile-Updated_example =
    update_profile-Updated (λ n. false) 2 (some (104 ∷ 105 ∷ [])) (some 7) avatar three_users
      after_update with_avatar (usr 2 ∷ []) refl
