-- ===== src/Counters/Run.antt =====
-- A consumer that is handed events, some of them more than once, and flushes at the end (`Run` flushes
-- when it stops): every event counts exactly once.
use yaxter.Common.{
  ℕ, ◌<◌, ◌≡◌, refl, ap, sym, ◌∙◌, true, false, ◌||◌, List, [], ◌∷◌, ◌==◌, if◌then◌else◌, arith,
  Bool-cases, inl, inr, contains, ok,
}
use yaxter.Events.{Event}
use yaxter.Redis.{answered, Dedupe}
use yaxter.Counters.{Delta, zero_delta, ◌⊕◌, Hashes, State, flush, handle_event}
use yaxter.Counters.Sums.{⊕_assoc, ⊕_zero, stored, buffered, has_tweet}
use yaxter.Counters.Total.{total, IsValid, flush-answered, effect, calm, handle_event-Counts}

-- What a list of events adds to the count of a tweet, when the events of the given ids are known.
unfoldable pub effects : ℕ → List ℕ → List Event → Delta
effects t ids [] = zero_delta
effects t ids (ev ∷ evs) =
    if contains ev.event_id ids
    then effects t ids evs
    else effect t ev.payload ⊕ effects t (ev.event_id ∷ ids) evs

module _ {D H : Type 0} (r : Dedupe D) (h : Hashes H) (flush_after : ℕ) where
  unfoldable pub run : List Event → State D H → State D H
  run [] s = s
  run (ev ∷ evs) s = run evs (handle_event r h flush_after calm ev s).1

  module _ (t : ℕ) where
    run-Counts :
        (evs : List Event) (ids : List ℕ) (s : State D H)
        → 0 < flush_after
        → IsValid flush_after s
        → has_tweet t s.tweets ≡ true
        → ((i : ℕ) → r.seen i s.dedupe ≡ contains i ids)
        → (total t (run evs s) ≡ total t s ⊕ effects t ids evs)
          × IsValid flush_after (run evs s)
          × (has_tweet t (run evs s).tweets ≡ true)
    unfolding run effects
    run-Counts [] ids s pos v kept same = (sym (⊕_zero (total t s)), v, kept)
    run-Counts (ev ∷ evs) ids s pos v kept same =
        let (c, dedupe) = handle_event-Counts r h flush_after t ev s pos v kept in
        let s' = (handle_event r h flush_after calm ev s).1 in
        elim (Bool-cases (contains ev.event_id ids)) [
          | inl old ↦
              let seen : r.seen ev.event_id s.dedupe ≡ true = same ev.event_id ∙ old in
              let dedupe' : s'.dedupe ≡ s.dedupe = dedupe ∙ rw seen refl in
              let (m, v1, k1) =
                run-Counts evs ids s' pos c.valid c.kept (λ i. ap (r.seen i) dedupe' ∙ same i) in
              let moved : total t s' ≡ total t s = c.moved ∙ rw seen (⊕_zero (total t s)) in
              rw old (m ∙ ap (λ x. x ⊕ effects t ids evs) moved, v1, k1)
          | inr new ↦
              let seen : r.seen ev.event_id s.dedupe ≡ false = same ev.event_id ∙ new in
              let dedupe' : s'.dedupe ≡ r.mark ev.event_id s.dedupe = dedupe ∙ rw seen refl in
              let ids' = ev.event_id ∷ ids in
              let (m, v1, k1) = run-Counts evs ids' s' pos c.valid c.kept (λ i.
                ap (r.seen i) dedupe'
                ∙ r.seen_mark i ev.event_id s.dedupe
                ∙ ap (λ b. i == ev.event_id || b) (same i)) in
              let moved : total t s' ≡ total t s ⊕ effect t ev.payload = c.moved ∙ rw seen refl in
              rw new (
                m
                    ∙ ap (λ x. x ⊕ effects t ids' evs) moved
                    ∙ ⊕_assoc (total t s) (effect t ev.payload) (effects t ids' evs),
                v1,
                k1,
              )
        ]

    -- When every call of Redis and PostgreSQL is answered, the events handed to `HandleEvent`, of
    -- which some may be redelivered, and a last flush bring the stored counts of each tweet to what
    -- they were with the effects of the distinct events added, each once, wherever the flushes of a
    -- full buffer fall; at the end nothing is left in the buffer.
    -- The tweet exists, and at the start the buffer is empty and no event is known; the buffer is
    -- flushed after some positive number of events.
    pub run-flush :
        (evs : List Event) (s : State D H)
        → 0 < flush_after
        → s.deltas ≡ []
        → s.pending ≡ 0
        → has_tweet t s.tweets ≡ true
        → ((i : ℕ) → r.seen i s.dedupe ≡ false)
        → let (result, s') = flush answered (run evs s) in
          (result ≡ ok tt)
          × (stored t s'.tweets ≡ stored t s.tweets ⊕ effects t [] evs)
          × (s'.deltas ≡ [])
    run-flush evs s pos empty none' kept unseen =
        let v : IsValid flush_after s = record {
          empty = λ z. empty;
          bounded = omega (arith, none');
        } in
        let (m, v', kept') = run-Counts evs [] s pos v kept unseen in
        let (result, same, empty', z, k, d) =
          flush-answered flush_after t (run evs s) kept' v'.empty in
        let s' = (flush answered (run evs s)).1 in
        let at_end : total t s' ≡ stored t s'.tweets =
          ap (λ b. stored t s'.tweets ⊕ buffered t b) empty' ∙ ⊕_zero (stored t s'.tweets) in
        let at_start : total t s ≡ stored t s.tweets =
          ap (λ b. stored t s.tweets ⊕ buffered t b) empty ∙ ⊕_zero (stored t s.tweets) in
        (result, sym at_end ∙ same ∙ m ∙ ap (λ x. x ⊕ effects t [] evs) at_start, empty')
