-- ===== src/Relay/Tests.antt =====
-- The relay on a small outbox.
use yaxter.Common.{
  ℕ, suc, ◌≡◌, refl, Bool, true, false, Option, none, some, List, [], ◌∷◌, ◌++◌, ◌+◌, inl, inr, map,
  Result, ok, err, arith, length, filter,
}
use yaxter.Common.Filtered.{sort_asc}
use yaxter.Common.Sort.{sort_desc}
use yaxter.Events.{Message, codes, follow_changed}
use yaxter.Redis.{answered, refused}
use yaxter.Relay.{Row, State, accepted, Round, Config, publish_batch, select_batch, mark, cycle}
use yaxter.Relay.Batch.{NoLoss, publish_batch-NoLoss}
use yaxter.Relay.Cycle.{calm, Drained, cycle-Drained}

abbrev message : ℕ → Message
message n = record {
  id = n;
  topic = codes "follows.v1";
  key = 49 ∷ [];
  payload = record { event_id = n; payload = follow_changed 1 2 true };
}

abbrev row : ℕ → Option ℕ → Row
row n at = record { id = n; message = message n; published_at = at }

-- Two rows are pending, and two are published.
abbrev four_rows : State
four_rows = record {
  outbox = row 7 none ∷ row 3 (some 10) ∷ row 5 none ∷ row 4 (some 90) ∷ [];
  broker = message 3 ∷ message 4 ∷ [];
}

abbrev small : Config
small = record { batch_size = 1; delete_grace = 60; delete_batch = 1000 }

four_rows-NoLoss : NoLoss four_rows
four_rows-NoLoss = record {
  distinct = (refl, (refl, (refl, (refl, tt))));
  delivered = (
    λ p. absurd (ground arith),
    (λ p. inl refl, (λ p. absurd (ground arith), (λ p. inr (inl refl), tt))),
  );
}

-- The commit is lost.
abbrev bad : Round
bad = record {
  begin_fails = false;
  select_fails = false;
  publish = accepted;
  update_fails = false;
  commit = refused;
  now = 100;
}

publish_batch-NoLoss_example : NoLoss (publish_batch bad 1 four_rows).1
publish_batch-NoLoss_example = publish_batch-NoLoss bad 1 four_rows four_rows-NoLoss

-- What was published, and not marked, is published again.
publish-twice :
    (publish_batch (calm 101) 1 (publish_batch bad 1 four_rows).1).1.broker
    ≡ message 3 ∷ message 4 ∷ message 5 ∷ message 5 ∷ []
unfolding publish_batch select_batch sort_asc sort_desc mark yaxter.Common.Sort.insert_desc
publish-twice = refl

cycle-Drained_example :
    Drained four_rows (cycle 3 (λ n. calm (100 + n)) answered 105 small four_rows)
unfolding sort_asc sort_desc yaxter.Common.Sort.insert_desc
cycle-Drained_example =
    cycle-Drained 3 (λ n. 100 + n) 105 small four_rows (omega arith)
      (refl, (refl, (refl, (refl, tt)))) (omega arith)
