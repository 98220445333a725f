-- ===== src/Tweets/Likes.antt =====
-- What a successful `Like` or `Unlike` leaves behind.
use yaxter.Common.{
  ℕ, ◌≡◌, refl, Bool, true, false, Option, none, some, List, ◌∷◌, if◌then◌else◌, ok, arith,
  Bool-cases, Result-cases, is_ok, is_err, inl, inr,
}
use yaxter.Events.{codes, emit, event_key}
use yaxter.Users.{Edge, edge_eq, has_edge}
use yaxter.Users.Graph.{has_edge-add_edge, has_edge-remove_edge}
use yaxter.Tweets.{
  Tweet, Db, Env, not_found, find_tweet, row, lift, like_changes, write_like, like_event,
  apply_like, set_like,
}
use yaxter.Tweets.Create.{message, lift-ok, row-some}

write_like-has_edge :
    (like : Bool) (a b c d : ℕ) (es : List Edge)
    → has_edge c d (write_like like a b es) ≡ (if edge_eq c d (a, b) then like else has_edge c d es)
write_like-has_edge true a b c d es = ground (arith, has_edge-add_edge a b c d es)
write_like-has_edge false a b c d es = ground (arith, has_edge-remove_edge a b c d es)

kept-has_edge :
    (like : Bool) (a b c d : ℕ) (es : List Edge)
    → like_changes like a b es ≡ false
    → has_edge c d es ≡ (if edge_eq c d (a, b) then like else has_edge c d es)
kept-has_edge true a b c d es h = ground arith
kept-has_edge false a b c d es h = ground arith

apply_like-ok :
    (e : Env) (user tweet author : ℕ) (like : Bool) (db db' : Db)
    → apply_like e user tweet author like db ≡ ok db'
    → db' ≡ record db {
      likes = write_like like user tweet db.likes;
      outbox =
          message (e.fresh 0) (codes "engagements.v1") tweet (like_event like tweet user author)
          ∷ db.outbox;
    }
unfolding apply_like
apply_like-ok e user tweet author like db db' h =
    let p = like_event like tweet user author in
    elim (Result-cases (
      lift (
        emit (e.fails 3) (e.fails 4) (e.fresh 0) (codes "engagements.v1") (event_key tweet) p
          db.outbox))) [
            | is_err x q ↦ absurd (ground arith)
            | is_ok o q ↦
                let one =
                  lift-ok (e.fails 3) (e.fails 4) (e.fresh 0) (codes "engagements.v1") tweet p
                    db.outbox o q in
                ground arith
          ]

abbrev pub Liked : Env → ℕ → ℕ → Bool → Db → Db → Option Tweet → Type 0
Liked e user tweet like db db' none = ⊥
Liked e user tweet like db db' (some t) =
    ((a b : ℕ)
      → has_edge a b db'.likes
        ≡ (if edge_eq a b (user, tweet) then like else has_edge a b db.likes))
    × (db'.outbox ≡ (
        if like_changes like user tweet db.likes
        then message (e.fresh 0) (codes "engagements.v1") tweet
            (like_event like tweet user t.author_id)
          ∷ db.outbox
        else db.outbox))
    × (db'.tweets ≡ db.tweets)

-- When `Like` or `Unlike` succeeds, the tweet exists; the user's like of it is there after `Like` and
-- gone after `Unlike`, every other like is as before, and so are the tweets with their counters; and
-- exactly one event is added to the outbox when this changed something, none otherwise.
pub set_like-Liked :
    (e : Env) (user tweet : ℕ) (like : Bool) (db db' : Db)
    → set_like e user tweet like db ≡ ok db'
    → Liked e user tweet like db db' (find_tweet tweet db.tweets)
unfolding set_like
set_like-Liked e user tweet like db db' h =
    elim (Result-cases (row (e.fails 0) not_found (find_tweet tweet db.tweets))) [
      | is_err x q ↦ absurd (ground arith)
      | is_ok t q ↦
          let found = row-some (e.fails 0) not_found (find_tweet tweet db.tweets) t q in
          elim (Bool-cases (like_changes like user tweet db.likes)) [
            | inl c ↦
                let d = apply_like-ok e user tweet t.author_id like db db' (ground arith) in
                rw (found, c, d)
                  (λ a b. write_like-has_edge like user tweet a b db.likes, refl, refl)
            | inr c ↦
                let d : db' ≡ db = ground arith in
                rw (found, c, d) (λ a b. kept-has_edge like user tweet a b db.likes c, refl, refl)
          ]
    ]
