-- ===== src/Notifications/Tests.antt =====
-- Notifications on a small table.
use yaxter.Common.{
  ℕ, ◌≡◌, refl, Bool, true, false, ◌||◌, Option, none, some, List, [], ◌∷◌, ◌==◌, ok, arith,
}
use yaxter.Common.Int.{pos}
use yaxter.Common.Sort.{sort_desc, insert_desc}
use yaxter.Events.{Event, liked}
use yaxter.Paging.Client.{collect}
use yaxter.Redis.{Dedupe}
use yaxter.Users.{User}
use yaxter.Notifications.{
  kind_like, Row, engagements, handle_record, list, rows_of, unread_count, mark_read,
}
use yaxter.Notifications.Worker.{calm, handle_record-notice}
use yaxter.Notifications.Reads.{unread_count-mark_read, list-collect}

abbrev keys : Dedupe (ℕ → Bool)
keys = record { seen = λ i d. d i; mark = λ j d i. i == j || d i; seen_mark = λ i j d. refl }

abbrev row : ℕ → ℕ → Option ℕ → Row
row n user at = record {
  id = n;
  user_id = user;
  kind = kind_like;
  actor_id = 8;
  subject_id = some 70;
  read_at = at;
}

abbrev nobody : ℕ → Bool
nobody i = false

-- 8 likes tweet 70 of 1.
abbrev like : Event
like = record { event_id = 30; payload = liked 70 8 1 }

handle_record-notice_example :
    handle_record keys (calm 90) (record { topic = engagements; event = some like }) nobody []
    ≡ (ok tt, keys.mark 30 nobody, row 90 1 none ∷ [])
handle_record-notice_example = handle_record-notice keys engagements 90 like nobody [] refl

abbrev table : List Row
table = row 3 1 none ∷ row 5 1 none ∷ row 4 2 none ∷ row 2 1 (some 6) ∷ []

unread_count-mark_read_example : unread_count 1 (mark_read 9 1 3 table) ≡ 1
unfolding unread_count
unread_count-mark_read_example = unread_count-mark_read 9 1 3 1 table

abbrev users : List User
users =
    record {
      id = 8;
      username = 8;
      bio = [];
      avatar_key = none;
      followers_count = pos 0;
      following_count = pos 0;
      has_password = true;
    }
    ∷ []

list-collect_example :
    collect 4 0 (λ c. list false 1 c 2 users table)
    ≡ ok (row 5 1 none ∷ row 3 1 none ∷ row 2 1 (some 6) ∷ [])
unfolding rows_of sort_desc insert_desc
list-collect_example =
    list-collect 1 2 users table (omega arith) (refl, (refl, (refl, tt)))
      (omega arith, (omega arith, (omega arith, tt)))
