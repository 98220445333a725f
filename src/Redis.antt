-- ===== src/Redis.antt =====
-- pkg/redisx/redisx.go, and the parts of Redis that the services call, as interfaces with the laws
-- of the commands' documentation.
use yaxter.Common.{
  ℕ, ◌≡◌, Bool, true, false, not, ◌||◌, List, [], ◌∷◌, ◌++◌, ◌==◌, if◌then◌else◌, take, filter,
  Result, ok, err,
}

-- What a caller of Redis or of PostgreSQL sees: the call is answered, it fails and has no effect, or
-- it takes effect and its answer is lost.
pub data Outcome : Type 0 where
  answered refused lost : Outcome

-- Keys set by `SET key 1 NX` for a day; a key's number is the event id it is for.
pub record Dedupe (D : Type 0) : Type 0 where
  pub seen : ℕ → D → Bool
  pub mark : ℕ → D → D
  pub seen_mark : (i j : ℕ) (d : D) → seen i (mark j d) ≡ (i == j || seen i d)

-- `Once`: whether the key is seen for the first time.
unfoldable pub once : {D : Type 0} → Dedupe D → Outcome → ℕ → D → Result (Unit {0}) Bool × D
once r answered id d = if r.seen id d then (ok false, d) else (ok true, r.mark id d)
once r refused id d = (err tt, d)
once r lost id d = (err tt, r.mark id d)

-- An element of a list or of a set: a number, as the services add them, or another text.
pub data Item : Type 0 where
  number : ℕ → Item
  other : Item

abbrev pub is_item : ℕ → Item → Bool
is_item n (number m) = n == m
is_item n other = false

-- The lists of a family of keys `<prefix>:<id>`. `LRANGE 0 -1` reads a whole list, `LTRIM 0 (n - 1)`
-- keeps its first `n` elements, and `LREM 0 x` removes every `x`.
pub record Lists (L : Type 0) : Type 0 where
  pub lrange : ℕ → L → List Item
  pub lpush : ℕ → ℕ → L → L
  pub rpush : ℕ → List Item → L → L
  pub ltrim : ℕ → ℕ → L → L
  pub lrem : ℕ → ℕ → L → L
  pub lrange_lpush :
      (i j x : ℕ) (l : L)
      → lrange i (lpush j x l) ≡ (if i == j then number x ∷ lrange j l else lrange i l)
  pub lrange_rpush :
      (i j : ℕ) (xs : List Item) (l : L)
      → lrange i (rpush j xs l) ≡ (if i == j then lrange j l ++ xs else lrange i l)
  pub lrange_ltrim :
      (i j n : ℕ) (l : L)
      → lrange i (ltrim j n l) ≡ (if i == j then take n (lrange j l) else lrange i l)
  pub lrange_lrem :
      (i j x : ℕ) (l : L)
      → lrange i (lrem j x l)
        ≡ (if i == j then filter (λ y. not (is_item x y)) (lrange j l) else lrange i l)

-- The commands of a pipeline on such lists.
pub data Command : Type 0 where
  lpush_command : ℕ → ℕ → Command
  ltrim_command : ℕ → ℕ → Command
  lrem_command : ℕ → ℕ → Command
  rpush_command : ℕ → List Item → Command

-- A pipeline runs to its end, or is cut off after some commands.
pub data Pipe : Type 0 where
  ran : Pipe
  cut_off : ℕ → Pipe

module _ {L : Type 0} (r : Lists L) where
  abbrev pub run_command : Command → L → L
  run_command (lpush_command k x) l = r.lpush k x l
  run_command (ltrim_command k n) l = r.ltrim k n l
  run_command (lrem_command k x) l = r.lrem k x l
  run_command (rpush_command k xs) l = r.rpush k xs l

  unfoldable pub run_commands : List Command → L → L
  run_commands [] l = l
  run_commands (c ∷ cs) l = run_commands cs (run_command c l)

  -- `pipe.Exec`
  unfoldable pub exec : Pipe → List Command → L → Result (Unit {0}) (Unit {0}) × L
  exec ran cs l = (ok tt, run_commands cs l)
  exec (cut_off n) cs l = (err tt, run_commands (take n cs) l)
