-- ===== src/Notifications/Reads.antt =====
-- The read side: what `MarkRead` does to the count of unread notifications.
use yaxter.Common.{ℕ, suc, ◌≡◌, refl, false, List, [], ◌∷◌, ltb, ◌==◌, if◌then◌else◌, filter, arith}
use yaxter.Common.{◌<◌, All, length, ok}
use yaxter.Common.Sort.{sort_desc, DistinctKeys}
use yaxter.Paging.Client.{collect, collect-sort_desc}
use yaxter.Users.{User}
use yaxter.Notifications.{Row, list, rows_of, unread_count, mark_read}

-- After `MarkRead` a user's unread notifications are those that were unread past the given id, and
-- every other user has as many as before.
pub unread_count-mark_read :
    (now user up_to other : ℕ) (rows : List Row)
    → unread_count other (mark_read now user up_to rows) ≡ (
        if other == user
        then unread_count user (filter (λ r. ltb up_to r.id) rows)
        else unread_count other rows)
unfolding mark_read unread_count
unread_count-mark_read now user up_to other [] = ground arith
unread_count-mark_read now user up_to other (r ∷ rs) =
    ground (arith, unread_count-mark_read now user up_to other rs)

-- Following the cursors of `List` gives every notification of the user whose actor exists, each once
-- and newest first, whatever the page size is: the queries are answered, and ids are distinct and
-- positive, as is the page size.
pub list-collect :
    (user limit : ℕ) (us : List User) (rows : List Row)
    → 0 < limit
    → DistinctKeys Row.id (rows_of user us rows)
    → All (λ r. 0 < r.id) (rows_of user us rows)
    → collect (suc (length (rows_of user us rows))) 0 (λ c. list false user c limit us rows)
      ≡ ok (sort_desc Row.id (rows_of user us rows))
unfolding list
list-collect user limit us rows l d p =
    collect-sort_desc Row.id limit (rows_of user us rows) (λ c. list false user c limit us rows)
      (λ c. refl) l d p
