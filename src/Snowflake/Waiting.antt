-- ===== src/Snowflake/Waiting.antt =====
-- `Next` waits only while the clock stands still: any later reading that differs ends its loop.
use yaxter.Common.{
  ℕ, ◌+◌, ◌<◌, ◌≡◌, Bool, true, false, Option, none, some, List, [], ◌∷◌, arith, ltb, ◌==◌,
  if◌then◌else◌, any, not,
}
use yaxter.Snowflake.{Generator, await, after_wait, next}

abbrev pub is_some {ℓ} : {A : Type ℓ} → Option A → Bool
is_some none = false
is_some (some _) = true

await_done : (clock : List ℕ) (last now : ℕ) → last < now → is_some (await clock last now) ≡ true
unfolding await
await_done [] last now h = ground arith
await_done (t ∷ ts) last now h = ground arith

await-returns :
    (clock : List ℕ) (last now : ℕ)
    → any (λ t. not (t == last)) clock ≡ true
    → is_some (await clock last now) ≡ true
unfolding await
await-returns [] last now h = cc
await-returns (t ∷ ts) last now h =
    let now' = if ltb t last then last + 1 else t in
    ground (arith, await-returns ts last now', await_done ts last now')

-- `Next` returns once the clock has been read and shows, in one of the readings that follow, a time
-- other than the generator's last millisecond: it cannot spin for ever unless the clock stands still.
pub next_returns :
    (g : Generator) (t : ℕ) (clock : List ℕ)
    → any (λ r. not (r == g.last_ms)) clock ≡ true
    → is_some (next g (t ∷ clock)) ≡ true
unfolding next after_wait
next_returns g t clock h =
    ground (arith, await-returns clock g.last_ms (if ltb t g.last_ms then g.last_ms else t))
