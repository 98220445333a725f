-- ===== src/Limiter/Window.antt =====
-- No window of the limiter's length has more than the limit of allowed calls in it.
use yaxter.Common.{
  ltb→lt, ℕ, ◌+◌, ◌-◌, ◌≤◌, ◌<◌, ◌≡◌, ◌&&◌, refl, Bool, true, false, List, [], ◌∷◌, ltb, leb,
  if◌then◌else◌, arith, All, Bool-cases, inl, inr,
}
use yaxter.Redis.{Outcome, answered, refused, lost}
use yaxter.Limiter.{SortedSet, Call, Entry, drop_expired, sliding_window, answer, allow, note, run}

-- The calls of a list of times in the window that ends at `t`: after `t - window`, up to `t`.
abbrev pub within : ℕ → ℕ → List ℕ → ℕ
within window t [] = 0
within window t (s ∷ ss) = (if leb s t && ltb t (s + window) then 1 else 0) + within window t ss

-- Those after `t - window`.
abbrev since : ℕ → ℕ → List ℕ → ℕ
since window t [] = 0
since window t (s ∷ ss) = (if ltb t (s + window) then 1 else 0) + since window t ss

-- Newest first, and each with at most the limit of calls in the window that it ends.
abbrev Spaced : ℕ → ℕ → List ℕ → Type 0
Spaced window limit [] = Unit
Spaced window limit (s ∷ ss) =
    (since window s ss < limit) × All (λ u. u ≤ s) ss × Spaced window limit ss

within-le-since : (window t s : ℕ) (ss : List ℕ) → s ≤ t → within window t ss ≤ since window s ss
within-le-since window t s [] h = omega arith
within-le-since window t s (u ∷ ss) h = ground (arith, within-le-since window t s ss h)

within-le :
    (window limit : ℕ) (ss : List ℕ) → Spaced window limit ss → (t : ℕ) → within window t ss ≤ limit
within-le window limit [] h t = omega arith
within-le window limit (s ∷ ss) h t =
    ground (arith, within-le-since window t s ss, within-le window limit ss h.2 t)

module _ {Z : Type 0} (r : SortedSet Z) (window limit offset : ℕ) where
  -- What the key has counted includes the allowed calls that a later call still sees, and the
  -- deadline is not before the end of their windows on the clock of the callers.
  record Tracks (last : ℕ) (grants : List ℕ) (e : Entry Z) : Type 0 where
    spaced : Spaced window limit grants
    past : All (λ s. s ≤ last) grants
    covered : (n : ℕ) → last ≤ n → window ≤ n → since window n grants ≤ r.zcount (n - window) e.set
    deadline : All (λ s. s + window ≤ e.deadline + offset) grants

  -- The clock of the callers is ahead of the Redis server's by a fixed offset, does not go back, and
  -- is past the first window; the member is not in the set.
  abbrev pub IsTimely : ℕ → Call → Entry Z → Type 0
  IsTimely last c e =
      (c.now ≡ c.redis_now + offset)
      × (last ≤ c.now)
      × (window ≤ c.now)
      × (r.has c.member (drop_expired r window limit c e) ≡ false)

  abbrev pub AllTimely : ℕ → List Call → Entry Z → Type 0
  AllTimely last [] e = Unit
  AllTimely last (c ∷ cs) e = IsTimely last c e × AllTimely c.now cs (allow r window limit c e).1

  gone : (n d : ℕ) (ss : List ℕ) → All (λ s. s + window ≤ d) ss → d ≤ n → since window n ss ≡ 0
  gone n d [] a h = refl
  gone n d (s ∷ ss) a h = ground (arith, gone n d ss a.1 h)

  All-mono : (a b : ℕ) (ss : List ℕ) → All (λ s. s ≤ a) ss → a ≤ b → All (λ s. s ≤ b) ss
  All-mono a b [] h le = tt
  All-mono a b (s ∷ ss) h le = (omega arith, All-mono a b ss h.1 le)

  ends_mono :
      (a b : ℕ) (ss : List ℕ) → All (λ s. s ≤ a) ss → a + window ≤ b → All (λ s. s + window ≤ b) ss
  ends_mono a b [] h le = tt
  ends_mono a b (s ∷ ss) h le = (omega arith, ends_mono a b ss h.1 le)

  -- What is left after the expired entries are dropped still covers the allowed calls.
  kept-covers :
      (last : ℕ) (grants : List ℕ) (c : Call) (e : Entry Z)
      → Tracks last grants e
      → IsTimely last c e
      → (n : ℕ) → c.now ≤ n
      → since window n grants ≤ r.zcount (n - window) (drop_expired r window limit c e)
  kept-covers last grants c e kept timely n h = ground (
    arith,
    kept.covered n,
    gone n (e.deadline + offset) grants kept.deadline,
    r.zcount_zremrangebyscore (n - window) (c.now - window) (r.expire c.redis_now e.deadline e.set),
    r.zcount_expire (n - window) c.redis_now e.deadline e.set,
  )

  -- The script, whether it allows the call or not.
  granted-Tracks :
      (last : ℕ) (grants : List ℕ) (c : Call) (e : Entry Z)
      → Tracks last grants e
      → IsTimely last c e
      → r.zcard (drop_expired r window limit c e) < limit
      → (allowed : Bool)
      → Tracks c.now (if allowed then c.now ∷ grants else grants) (record {
        set = r.zadd c.now c.member (drop_expired r window limit c e);
        deadline = c.redis_now + window;
      })
  granted-Tracks last grants c e kept timely room false = record {
    spaced = kept.spaced;
    past = All-mono last c.now grants kept.past timely.1;
    covered = λ n h hw. ground (
      arith,
      kept-covers last grants c e kept timely n h,
      r.zcount_zadd (n - window) c.now c.member (drop_expired r window limit c e),
    );
    deadline = ends_mono last (c.redis_now + window + offset) grants kept.past (omega arith);
  }
  granted-Tracks last grants c e kept timely room true = record {
    spaced = (
      omega (
        arith,
        kept-covers last grants c e kept timely c.now (omega arith),
        r.zcount-le-zcard (c.now - window) (drop_expired r window limit c e),
      ),
      All-mono last c.now grants kept.past timely.1,
      kept.spaced,
    );
    past = (omega arith, All-mono last c.now grants kept.past timely.1);
    covered = λ n h hw. ground (
      arith,
      kept-covers last grants c e kept timely n h,
      r.zcount_zadd (n - window) c.now c.member (drop_expired r window limit c e),
    );
    deadline = (
      omega arith,
      ends_mono last (c.redis_now + window + offset) grants kept.past (omega arith),
    );
  }

  denied-Tracks :
      (last : ℕ) (grants : List ℕ) (c : Call) (e : Entry Z)
      → Tracks last grants e
      → IsTimely last c e
      → Tracks c.now grants
          (record { set = drop_expired r window limit c e; deadline = e.deadline })
  denied-Tracks last grants c e kept timely = record {
    spaced = kept.spaced;
    past = All-mono last c.now grants kept.past timely.1;
    covered = λ n h hw. kept-covers last grants c e kept timely n h;
    deadline = kept.deadline;
  }

  later :
      (last now : ℕ) (grants : List ℕ) (e : Entry Z)
      → Tracks last grants e
      → last ≤ now
      → Tracks now grants e
  later last now grants e kept h = record {
    spaced = kept.spaced;
    past = All-mono last now grants kept.past h;
    covered = λ n hn hw. kept.covered n (omega arith) hw;
    deadline = kept.deadline;
  }

  answer-Tracks :
      (o : Outcome) (last : ℕ) (grants : List ℕ) (c : Call) (e : Entry Z)
      → Tracks last grants e
      → IsTimely last c e
      → Tracks c.now
          (note r window limit (answer r window limit o c e).0 c.now grants)
          (answer r window limit o c e).1
  unfolding sliding_window
  answer-Tracks answered last grants c e kept timely =
      elim (Bool-cases (ltb (r.zcard (drop_expired r window limit c e)) limit)) [
        | inl room ↦ rw room (granted-Tracks last grants c e kept timely (ltb→lt _ _ room) true)
        | inr full ↦ rw full (denied-Tracks last grants c e kept timely)
      ]
  answer-Tracks refused last grants c e kept timely = later last c.now grants e kept timely.1
  answer-Tracks lost last grants c e kept timely =
      elim (Bool-cases (ltb (r.zcard (drop_expired r window limit c e)) limit)) [
        | inl room ↦ rw room (granted-Tracks last grants c e kept timely (ltb→lt _ _ room) false)
        | inr full ↦ rw full (denied-Tracks last grants c e kept timely)
      ]

  allow-Tracks :
      (last : ℕ) (grants : List ℕ) (c : Call) (e : Entry Z)
      → Tracks last grants e
      → IsTimely last c e
      → Tracks c.now
          (note r window limit (allow r window limit c e).0 c.now grants)
          (allow r window limit c e).1
  unfolding allow
  allow-Tracks last grants c e kept timely = answer-Tracks c.outcome last grants c e kept timely

  run-Tracks :
      (cs : List Call) (last : ℕ) (grants : List ℕ) (e : Entry Z)
      → Tracks last grants e
      → AllTimely last cs e
      → Spaced window limit (run r window limit cs grants e).0
  unfolding run
  run-Tracks [] last grants e kept timely = kept.spaced
  run-Tracks (c ∷ cs) last grants e kept timely =
      run-Tracks cs c.now _ _ (allow-Tracks last grants c e kept timely.0) timely.1

  -- Calls on a new key whose clock does not go back, agrees with the Redis server's up to a fixed
  -- offset and is past the first window, with members that are not in the set: whatever calls
  -- fail, with their script run or not, every window of the limiter's length has at most the limit of
  -- allowed calls in it.
  pub run-within :
      (cs : List Call) (e : Entry Z) (t : ℕ)
      → AllTimely 0 cs e
      → within window t (run r window limit cs [] e).0 ≤ limit
  run-within cs e t timely =
      within-le window limit (run r window limit cs [] e).0
        (run-Tracks cs 0 [] e
          (record { spaced = tt; past = tt; covered = λ n h hw. omega arith; deadline = tt })
          timely)
        t
