-- ===== src/Relay/Cycle.antt =====
-- A cycle in which every call is answered drains the backlog.
use yaxter.Common.{
  ℕ, zero, suc, ◌+◌, ◌≤◌, ◌<◌, ◌≡◌, refl, sym, ap, ◌∙◌, false, Option, none, some, List, [], ◌∷◌,
  ◌++◌, map, ltb, ltb→lt, filter, take, drop, length, length-take, length-drop, take-append-drop,
  Result, ok, arith, Bool-cases, inl, inr,
}
use yaxter.Common.Sort.{DistinctKeys}
use yaxter.Common.Filtered.{
  sort_asc, sort_asc-Ascending, filter-sort_asc, filter-without-take, without, DistinctKeys-filter,
  length-sort_asc,
}
use yaxter.Redis.{answered}
use yaxter.Relay.{
  Row, State, accepted, Round, Config, is_pending, select_batch, mark, committed, published,
  publish_rows, publish_batch, delete_old, delete, next_round, cycle,
}
use yaxter.Relay.Batch.{mark-DistinctKeys}

-- The rows to be published, in the order of their ids.
abbrev pub backlog : List Row → List Row
backlog rows = sort_asc Row.id (filter is_pending rows)

-- A round in which every call is answered.
abbrev pub calm : ℕ → Round
calm now = record {
  begin_fails = false;
  select_fails = false;
  publish = accepted;
  update_fails = false;
  commit = answered;
  now = now;
}

filter-mark :
    (now : ℕ) (ids : List ℕ) (rows : List Row)
    → filter is_pending (mark now ids rows) ≡ filter (without Row.id ids) (filter is_pending rows)
unfolding mark
filter-mark now ids [] = refl
filter-mark now ids (r ∷ rs) = ground (arith, filter-mark now ids rs)

-- What a round leaves of the backlog.
backlog-mark :
    (now size : ℕ) (rows : List Row)
    → DistinctKeys Row.id rows
    → backlog (mark now (map Row.id (take size (backlog rows))) rows) ≡ drop size (backlog rows)
backlog-mark now size rows d =
    let ids = map Row.id (take size (backlog rows)) in
    let d' = DistinctKeys-filter Row.id is_pending rows d in
    ap (sort_asc Row.id) (filter-mark now ids rows)
    ∙ filter-sort_asc Row.id (without Row.id ids) (filter is_pending rows) d'
    ∙ filter-without-take Row.id size (backlog rows)
        (sort_asc-Ascending Row.id (filter is_pending rows) d')

-- The state after a round.
abbrev after : ℕ → ℕ → State → State
after now size s = record {
  outbox = mark now (map Row.id (take size (backlog s.outbox))) s.outbox;
  broker = s.broker ++ map Row.message (take size (backlog s.outbox));
}

mark-none : (now : ℕ) (rows : List Row) → mark now [] rows ≡ rows
unfolding mark
mark-none now [] = refl
mark-none now (r ∷ rs) = ap (λ x. r ∷ x) (mark-none now rs)

append-nil : {A : Type 0} (xs : List A) → xs ++ [] ≡ xs
append-nil [] = refl
append-nil (x ∷ xs) = ap (λ r. x ∷ r) (append-nil xs)

append_assoc : {A : Type 0} (xs ys zs : List A) → (xs ++ ys) ++ zs ≡ xs ++ (ys ++ zs)
append_assoc [] ys zs = refl
append_assoc (x ∷ xs) ys zs = ap (λ r. x ∷ r) (append_assoc xs ys zs)

map-append : {A B : Type 0} (f : A → B) (xs ys : List A) → map f xs ++ map f ys ≡ map f (xs ++ ys)
map-append f [] ys = refl
map-append f (x ∷ xs) ys = ap (λ r. f x ∷ r) (map-append f xs ys)

publish_rows-calm :
    (now : ℕ) (batch : List Row) (s : State)
    → publish_rows (calm now) batch s ≡ (
      ok (length batch),
      record {
        outbox = mark now (map Row.id batch) s.outbox;
        broker = s.broker ++ map Row.message batch;
      },
    )
unfolding publish_rows published committed
publish_rows-calm now [] s = λ i.
    (ok 0, record { outbox = sym (mark-none now s.outbox) i; broker = sym (append-nil s.broker) i })
publish_rows-calm now (r ∷ rs) s = refl

publish_batch-calm :
    (now size : ℕ) (s : State)
    → publish_batch (calm now) size s
      ≡ (ok (length (take size (backlog s.outbox))), after now size s)
unfolding publish_batch select_batch
publish_batch-calm now size s = publish_rows-calm now (take size (backlog s.outbox)) s

filter-delete_old :
    (now grace limit : ℕ) (rows : List Row)
    → filter is_pending (delete_old now grace limit rows) ≡ filter is_pending rows
unfolding delete_old
filter-delete_old now grace limit [] = refl
filter-delete_old now grace zero (r ∷ rs) = refl
filter-delete_old now grace (suc limit) (r ∷ rs) =
    ground (arith, filter-delete_old now grace limit rs, filter-delete_old now grace (suc limit) rs)

-- What a cycle leaves that has come to its end.
abbrev pub Drained : State → Option (Result (Unit {0}) (Unit {0}) × State) → Type 0
Drained s none = ⊥
Drained s (some (result, s')) =
    (result ≡ ok tt)
    × (s'.broker ≡ s.broker ++ map Row.message (backlog s.outbox))
    × (filter is_pending s'.outbox ≡ [])

nil-length : {A : Type 0} (xs : List A) → length xs ≡ 0 → xs ≡ []
nil-length [] h = refl
nil-length (x ∷ xs) h = absurd (omega arith)

pending-backlog : (rows : List Row) → backlog rows ≡ [] → filter is_pending rows ≡ []
pending-backlog rows h =
    nil-length (filter is_pending rows)
      (omega (arith, length-sort_asc Row.id (filter is_pending rows), ap length h))

Drained-step :
    (s s1 : State) (x : Option (Result (Unit {0}) (Unit {0}) × State))
    → s1.broker ++ map Row.message (backlog s1.outbox)
      ≡ s.broker ++ map Row.message (backlog s.outbox)
    → Drained s1 x
    → Drained s x
Drained-step s s1 none e d = d
Drained-step s s1 (some (result, s')) e d = (d.0, d.1 ∙ e, d.2)

after-broker :
    (now size : ℕ) (s : State)
    → DistinctKeys Row.id s.outbox
    → (after now size s).broker ++ map Row.message (backlog (after now size s).outbox)
      ≡ s.broker ++ map Row.message (backlog s.outbox)
after-broker now size s d =
    let all = backlog s.outbox in
    ap (λ rest. (s.broker ++ map Row.message (take size all)) ++ map Row.message rest)
      (backlog-mark now size s.outbox d)
    ∙ append_assoc s.broker (map Row.message (take size all)) (map Row.message (drop size all))
    ∙ ap (λ ms. s.broker ++ ms)
        (map-append Row.message (take size all) (drop size all)
          ∙ ap (map Row.message) (take-append-drop size all))

-- The last round, which is not full.
last-Drained :
    (now time : ℕ) (c : Config) (s : State)
    → DistinctKeys Row.id s.outbox
    → length (backlog s.outbox) < c.batch_size
    → Drained s (some (delete answered now c (after time c.batch_size s)))
unfolding delete
last-Drained now time c s d h =
    let size = c.batch_size in
    let all = backlog s.outbox in
    let rest : backlog (after time size s).outbox ≡ [] =
      backlog-mark time size s.outbox d
      ∙ nil-length (drop size all) (omega (arith, length-drop size all)) in
    (
      refl,
      sym (append-nil (after time size s).broker)
          ∙ ap (λ r. (after time size s).broker ++ map Row.message r) (sym rest)
          ∙ after-broker time size s d,
      filter-delete_old now c.delete_grace c.delete_batch (after time size s).outbox
          ∙ pending-backlog (after time size s).outbox rest,
    )

-- A cycle in which every call is answered comes to an end and succeeds: it hands the broker exactly
-- the rows that were pending, each once and in the order of their ids, whatever the batch size is,
-- and leaves no row pending. The batch size
-- is positive and ids are distinct; one round more than there are pending rows is enough.
pub cycle-Drained :
    (fuel : ℕ) (times : ℕ → ℕ) (now : ℕ) (c : Config) (s : State)
    → 0 < c.batch_size
    → DistinctKeys Row.id s.outbox
    → length (backlog s.outbox) < fuel
    → Drained s (cycle fuel (λ n. calm (times n)) answered now c s)
unfolding cycle next_round
cycle-Drained zero times now c s pos d h = absurd (omega arith)
cycle-Drained (suc fuel) times now c s pos d h =
    let size = c.batch_size in
    let all = backlog s.outbox in
    let s1 = after (times 0) size s in
    rw (publish_batch-calm (times 0) size s)
      (elim (Bool-cases (ltb (length (take size all)) size)) [
        | inl short ↦
            let few : length all < size = omega (arith, length-take size all, ltb→lt _ _ short) in
            rw short (last-Drained now (times 0) c s d few)
        | inr full ↦
            let large : size ≤ length (take size all) = ground arith in
            let fewer : length (backlog s1.outbox) < fuel =
              rw (backlog-mark (times 0) size s.outbox d)
                (omega (arith, length-drop size all, length-take size all)) in
            rw full (
              Drained-step s s1 (cycle fuel (λ n. calm (times (n + 1))) answered now c s1)
                (after-broker (times 0) size s d)
                (cycle-Drained fuel (λ n. times (n + 1)) now c s1 pos
                  (mark-DistinctKeys (times 0) (map Row.id (take size all)) s.outbox d) fewer))
      ])
