-- ===== src/Counters/Total.antt =====
-- What one call does to the sum of the stored and the buffered counts.
use yaxter.Common.{
  ℕ, ◌+◌, ◌<◌, ◌≡◌, refl, ap, sym, ◌∙◌, true, Option, none, some, [], leb, ◌==◌, if◌then◌else◌,
  arith, Bool-cases, inl, inr, Result, ok,
}
use yaxter.Common.Dict.{insert, lookup_or}
use yaxter.Events.{Payload, Event}
use yaxter.Redis.{answered, Dedupe, once}
use yaxter.Counters.{
  Delta, zero_delta, ◌⊕◌, Hashes, State, Env, delta_of, send_batch, sent, flush, accumulate, count,
  counted_once, handle_event,
}
use yaxter.Counters.Sums.{
  ⊕_assoc, ⊕_zero, buffered, stored, has_tweet, only, buffered-insert, stored-send_batch,
  has_tweet-send_batch,
}

-- What an event adds to the count of a tweet.
abbrev pub part : ℕ → Option (ℕ × Delta) → Delta
part t none = zero_delta
part t (some (k, d)) = only t k d

abbrev pub effect : ℕ → Payload → Delta
effect t p = part t (delta_of p)

-- The calls of Redis and of PostgreSQL are answered.
abbrev pub calm : Env
calm = record { once = answered; pipeline = answered; batch = answered }

module _ {D H : Type 0} where
  -- The count of a tweet: what is stored with what is still to be written.
  abbrev pub total : ℕ → State D H → Delta
  total t s = stored t s.tweets ⊕ buffered t s.deltas

  -- The buffer is empty when nothing is pending, and is flushed before it is full.
  pub record IsValid (flush_after : ℕ) (s : State D H) : Type 0 where
    pub empty : s.pending ≡ 0 → s.deltas ≡ []
    pub bounded : s.pending < flush_after

  -- The state after a flush that is answered.
  pub flush-answered :
      (n t : ℕ) (s : State D H)
      → has_tweet t s.tweets ≡ true
      → (s.pending ≡ 0 → s.deltas ≡ [])
      → let (r, s') = flush answered s in
        (r ≡ ok tt)
        × (total t s' ≡ total t s)
        × (s'.deltas ≡ [])
        × (s'.pending ≡ 0)
        × (has_tweet t s'.tweets ≡ true)
        × (s'.dedupe ≡ s.dedupe)
  unfolding flush sent
  flush-answered n t s h v = elim (Bool-cases (s.pending == 0)) [
    | inl none' ↦ rw none' (refl, refl, v (ground arith), ground arith, h, refl)
    | inr some' ↦ rw some' (
      refl,
      ⊕_zero (stored t (send_batch s.deltas s.tweets)) ∙ stored-send_batch t s.deltas s.tweets h,
      refl,
      refl,
      has_tweet-send_batch t s.deltas s.tweets ∙ h,
      refl,
    )
  ]

  -- What a call leaves behind that ran to its end: the count of each tweet moved by `d`.
  pub record Counts (flush_after t : ℕ) (d : Delta) (s : State D H)
      (p : Result (Unit {0}) (Unit {0}) × State D H) : Type 0 where
    pub done : p.0 ≡ ok tt
    pub moved : total t p.1 ≡ total t s ⊕ d
    pub valid : IsValid flush_after p.1
    pub kept : has_tweet t p.1.tweets ≡ true

  accumulate-Counts :
      (n t tweet : ℕ) (d : Delta) (s : State D H)
      → 0 < n
      → IsValid n s
      → has_tweet t s.tweets ≡ true
      → Counts n t (only t tweet d) s (accumulate n answered tweet d s)
        × ((accumulate n answered tweet d s).1.dedupe ≡ s.dedupe)
  unfolding accumulate
  accumulate-Counts n t tweet d s pos v h =
      let s' : State D H = record s {
        deltas = insert tweet (lookup_or zero_delta tweet s.deltas ⊕ d) s.deltas;
        pending = s.pending + 1;
      } in
      let grown : total t s' ≡ total t s ⊕ only t tweet d =
        ap (λ x. stored t s.tweets ⊕ x) (buffered-insert t tweet d s.deltas)
        ∙ sym (⊕_assoc (stored t s.tweets) (buffered t s.deltas) (only t tweet d)) in
      elim (Bool-cases (leb n (s.pending + 1))) [
        | inl full ↦
            let (r, same, empty, none', kept, dedupe) =
              flush-answered n t s' h (λ z. absurd (omega arith)) in
            rw full (
              record {
                done = r;
                moved = same ∙ grown;
                valid = record { empty = λ z. empty; bounded = omega (arith, none') };
                kept = kept;
              },
              dedupe,
            )
        | inr room ↦ rw room (
          record {
            done = refl;
            moved = grown;
            valid = record { empty = λ z. absurd (omega arith); bounded = ground arith };
            kept = h;
          },
          refl,
        )
      ]

  count-Counts :
      (h : Hashes H) (n t : ℕ) (o : Option (ℕ × Delta)) (s : State D H)
      → 0 < n
      → IsValid n s
      → has_tweet t s.tweets ≡ true
      → Counts n t (part t o) s (count h n calm o s) × ((count h n calm o s).1.dedupe ≡ s.dedupe)
  unfolding count
  count-Counts h n t none s pos v kept =
      (record { done = refl; moved = sym (⊕_zero (total t s)); valid = v; kept = kept }, refl)
  count-Counts h n t (some (k, d)) s pos v kept =
      let s' : State D H = record s { hashes = h.incr_by k d s.hashes } in
      let (c, same) =
        accumulate-Counts n t k d s' pos (record { empty = v.empty; bounded = v.bounded }) kept in
      (record { done = c.done; moved = c.moved; valid = c.valid; kept = c.kept }, same)

  module _ (r : Dedupe D) (h : Hashes H) (flush_after t : ℕ) where
    -- The dedupe keys after the first sight of an event, and the rest.
    pub handle_event-Counts :
        (ev : Event) (s : State D H)
        → 0 < flush_after
        → IsValid flush_after s
        → has_tweet t s.tweets ≡ true
        → let p = handle_event r h flush_after calm ev s in
          Counts flush_after t
            (if r.seen ev.event_id s.dedupe then zero_delta else effect t ev.payload)
            s
            p
          × (p.1.dedupe
              ≡ (if r.seen ev.event_id s.dedupe then s.dedupe else r.mark ev.event_id s.dedupe))
    unfolding handle_event once count counted_once
    handle_event-Counts ev s pos v kept = elim (Bool-cases (r.seen ev.event_id s.dedupe)) [
      | inl old ↦ rw old (
        record {
          done = refl;
          moved = sym (⊕_zero (total t s));
          valid = record { empty = v.empty; bounded = v.bounded };
          kept = kept;
        },
        refl,
      )
      | inr new ↦ rw new (
          let s' : State D H = record s { dedupe = r.mark ev.event_id s.dedupe } in
          let (c, same) =
            count-Counts h flush_after t (delta_of ev.payload) s' pos
              (record { empty = v.empty; bounded = v.bounded }) kept in
          (record { done = c.done; moved = c.moved; valid = c.valid; kept = c.kept }, same))
    ]
