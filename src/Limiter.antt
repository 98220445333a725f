-- ===== src/Limiter.antt =====
-- pkg/redisx/limiter.go: the sliding-window rate limiter of one key. Times are milliseconds.
pub mod Window
mod Tests
use yaxter.Common.{
  ℕ, ◌+◌, ◌-◌, ◌≤◌, ◌<◌, ◌≡◌, Bool, true, false, List, [], ◌∷◌, Result, ok, err, ltb, if◌then◌else◌,
}
use yaxter.Redis.{Outcome, answered, refused, lost}

-- The sorted-set commands of Redis on the value of one key. `zcount n` is the number of members with
-- a score above `n`; `expire t d` is the value that a command at the time `t` finds under a key
-- with the deadline `d`.
pub record SortedSet (Z : Type 0) : Type 0 where
  pub zcount : ℕ → Z → ℕ
  pub zcard : Z → ℕ
  pub has : ℕ → Z → Bool
  pub zremrangebyscore : ℕ → Z → Z
  pub zadd : ℕ → ℕ → Z → Z
  pub expire : ℕ → ℕ → Z → Z
  pub zcount-le-zcard : (n : ℕ) (z : Z) → zcount n z ≤ zcard z
  pub zcount_zremrangebyscore :
      (n m : ℕ) (z : Z) → m ≤ n → zcount n (zremrangebyscore m z) ≡ zcount n z
  pub zcount_zadd :
      (n s member : ℕ) (z : Z)
      → has member z ≡ false
      → zcount n (zadd s member z) ≡ (if ltb n s then 1 else 0) + zcount n z
  pub zcount_expire :
      (n t d : ℕ) (z : Z) → zcount n (expire t d z) ≡ (if ltb t d then zcount n z else 0)

-- One call of `Allow`: how it ends, the time of `l.now` and that of the Redis server, and the
-- member from `uuid.NewString`.
pub record Call : Type 0 where
  pub outcome : Outcome
  pub now : ℕ
  pub redis_now : ℕ
  pub member : ℕ

-- The value of the key `rl:{key}` and the deadline that the last PEXPIRE set.
pub record Entry (Z : Type 0) : Type 0 where
  pub set : Z
  pub deadline : ℕ

module _ {Z : Type 0} (r : SortedSet Z) (window limit : ℕ) where
  -- `ZREMRANGEBYSCORE key 0 (now - window)`, which removes nothing if the maximum is negative.
  abbrev pub drop_expired : Call → Entry Z → Z
  drop_expired c e =
      let seen = r.expire c.redis_now e.deadline e.set in
      if ltb c.now window then seen else r.zremrangebyscore (c.now - window) seen

  -- `slidingWindow`
  unfoldable pub sliding_window : Call → Entry Z → Bool × Entry Z
  sliding_window c e =
      let kept = drop_expired c e in
      if ltb (r.zcard kept) limit
      then (true, record { set = r.zadd c.now c.member kept; deadline = c.redis_now + window })
      else (false, record { set = kept; deadline = e.deadline })

  abbrev pub answer : Outcome → Call → Entry Z → Result (Unit {0}) Bool × Entry Z
  answer answered c e = let (res, e') = sliding_window c e in (ok res, e')
  answer refused c e = (err tt, e)
  answer lost c e = (err tt, (sliding_window c e).1)

  -- `Allow`
  unfoldable pub allow : Call → Entry Z → Result (Unit {0}) Bool × Entry Z
  allow c e = answer c.outcome c e

  abbrev pub note : Result (Unit {0}) Bool → ℕ → List ℕ → List ℕ
  note (ok true) now grants = now ∷ grants
  note (ok false) now grants = grants
  note (err e) now grants = grants

  -- The calls in the order in which Redis runs their scripts: the times of those that are allowed,
  -- the latest first, and the key after them.
  unfoldable pub run : List Call → List ℕ → Entry Z → List ℕ × Entry Z
  run [] grants e = (grants, e)
  run (c ∷ cs) grants e = let (res, e') = allow c e in run cs (note res c.now grants) e'
