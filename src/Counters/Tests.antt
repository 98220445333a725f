-- ===== src/Counters/Tests.antt =====
-- The counters on small inputs, with Redis kept as functions.
use yaxter.Common.{
  ℕ, suc, ◌+◌, ◌≤◌, ◌<◌, ◌≡◌, ◌≢◌, refl, Bool, true, false, not, ◌||◌, Option, none, some, List, [],
  ◌∷◌, ◌==◌, if◌then◌else◌, arith, Result, ok, err,
}
use yaxter.Common.Int.{ℤ, pos, negsuc, ◌+ℤ◌}
use yaxter.Events.{Event, liked}
use yaxter.Redis.{answered, refused, Dedupe, once}
use yaxter.Counters.{Delta, ◌⊕◌, or_zero, Hashes, Row, State, flush, accumulate, handle_event}
use yaxter.Counters.Sums.{stored}
use yaxter.Counters.Total.{calm}
use yaxter.Counters.Run.{run, run-flush, effects}
use yaxter.Counters.Read.{
  read, Answers, columns, read-Answers, reconcile_rows, reconcile_rows-columns,
}

abbrev Seen : Type 0
Seen = ℕ → Bool

abbrev keys : Dedupe Seen
keys = record { seen = λ i d. d i; mark = λ j d i. i == j || d i; seen_mark = λ i j d. refl }

abbrev hashes : Hashes (ℕ → Option Delta)
hashes = record {
  counts = λ i h. h i;
  incr_by = λ j d h i. if i == j then some (or_zero (h j) ⊕ d) else h i;
  set_both = λ j d h i. if i == j then some d else h i;
  set_likes = λ j n h i.
      if i == j then some (record { likes = n; retweets = (or_zero (h j)).retweets }) else h i;
  counts_incr_by = λ i j d h. refl;
  counts_set_both = λ i j d h. refl;
  counts_set_likes = λ i j n h. refl;
}

abbrev like : ℕ → Event
like n = record { event_id = n; payload = liked 7 1 2 }

abbrev row : ℕ → ℕ → Row
row likes retweets = record {
  id = 7;
  counted = record { likes = pos likes; retweets = pos retweets };
}

abbrev start : State Seen (ℕ → Option Delta)
start = record {
  dedupe = λ i. false;
  hashes = λ i. none;
  deltas = [];
  pending = 0;
  flushes = 0;
  tweets = row 40 9 ∷ [];
}

-- Two likes, one of them delivered twice.
abbrev twice : List Event
twice = like 1 ∷ like 2 ∷ like 1 ∷ []

run-flush_example :
    let (result, s') = flush answered (run keys hashes 2 twice start) in
    (result ≡ ok tt)
    × (stored 7 s'.tweets ≡ stored 7 start.tweets ⊕ effects 7 [] twice)
    × (s'.deltas ≡ [])
run-flush_example = run-flush keys hashes 2 7 twice start (omega arith) refl refl refl (λ i. refl)

effects-twice : effects 7 [] twice ≡ record { likes = pos 2; retweets = pos 0 }
unfolding effects ◌⊕◌ yaxter.Common.Int.◌+ℤ◌
effects-twice = refl

-- A flush that PostgreSQL refuses has emptied the buffer: the likes are lost.
flush-refused :
    let s = (handle_event keys hashes 5 calm (like 1) start).1 in
    let (result, s') = flush refused s in
    (result ≡ err tt)
    × (s'.deltas ≡ [])
    × (stored 7 s'.tweets ≡ record { likes = pos 40; retweets = pos 9 })
unfolding handle_event flush accumulate once
flush-refused = (refl, refl, refl)

-- An event on a hash that is not there, or that has expired, starts the hash at 0: a tweet with 40
-- likes and 9 retweets is read as one with 1 like and no retweet.
cold_hash-read :
    let s = (handle_event keys hashes 5 calm (like 1) start).1 in
    (read hashes
      (record { hash = answered; query_fails = false; warm = answered })
      7
      s.tweets
      s.hashes).0
    ≡ ok (record { likes = pos 1; retweets = pos 0 })
unfolding handle_event accumulate once read ◌⊕◌ yaxter.Common.Int.◌+ℤ◌
cold_hash-read = refl

read-Answers_example :
    Answers none
      (some (record { likes = pos 40; retweets = pos 9 }))
      (read hashes
        (record { hash = answered; query_fails = false; warm = answered })
        7
        start.tweets
        start.hashes).0
    × ((j : ℕ)
        → j ≢ 7
        → (read hashes
              (record { hash = answered; query_fails = false; warm = answered })
              7
              start.tweets
              start.hashes).1
            j
          ≡ none)
read-Answers_example =
    read-Answers hashes (record { hash = answered; query_fails = false; warm = answered }) 7
      start.tweets start.hashes

-- Reconciliation raises a count to the rows of `likes`, and does not see a tweet without likes.
reconcile-likes : reconcile_rows ((1, 7) ∷ (2, 7) ∷ []) (row 40 9 ∷ []) ≡ row 2 9 ∷ []
unfolding reconcile_rows
reconcile-likes = refl

reconcile-unliked : reconcile_rows [] (row 40 9 ∷ []) ≡ row 40 9 ∷ []
unfolding reconcile_rows
reconcile-unliked = refl

reconcile_rows-columns_example :
    columns 7 (reconcile_rows ((1, 7) ∷ (2, 7) ∷ []) (row 40 9 ∷ []))
    ≡ some (record { likes = pos 2; retweets = pos 9 })
reconcile_rows-columns_example =
    reconcile_rows-columns ((1, 7) ∷ (2, 7) ∷ []) (row 40 9 ∷ []) 7
      (record { likes = pos 40; retweets = pos 9 }) refl
