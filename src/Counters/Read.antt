-- ===== src/Counters/Read.antt =====
-- internal/counters/read.go and reconcile.go: the counts a reader gets, and the correction of the
-- stored likes from the table `likes`.
use yaxter.Common.{
  ℕ, ◌+◌, ◌≡◌, ◌≢◌, refl, Bool, true, not, ◌&&◌, Option, none, some, List, [], ◌∷◌, ◌==◌,
  if◌then◌else◌, arith, Bool-cases, inl, inr, Result, ok, err,
}
use yaxter.Common.Int.{ℤ, pos, negsuc}
use yaxter.Redis.{Outcome, answered, refused, lost}
use yaxter.Counters.{Delta, Hashes, Row}

-- `SELECT likes_count, retweets_count FROM tweets WHERE id = $1`
abbrev pub columns : ℕ → List Row → Option Delta
columns id [] = none
columns id (r ∷ rs) = if r.id == id then some r.counted else columns id rs

-- The outcomes of `HGETALL`, of the query and of the pipeline that warms the hash.
pub record ReadEnv : Type 0 where
  pub hash : Outcome
  pub query_fails : Bool
  pub warm : Outcome

module _ {H : Type 0} (h : Hashes H) where
  warmed : Outcome → ℕ → Delta → H → H
  warmed answered id d s = h.set_both id d s
  warmed refused id d s = s
  warmed lost id d s = h.set_both id d s

  from_table : ReadEnv → ℕ → Option Delta → H → Result (Unit {0}) Delta × H
  from_table e id none s = (err tt, s)
  from_table e id (some d) s = if e.query_fails then (err tt, s) else (ok d, warmed e.warm id d s)

  from_hash : ReadEnv → ℕ → List Row → H → Option Delta → Result (Unit {0}) Delta × H
  from_hash e id rows s none = from_table e id (columns id rows) s
  from_hash e id rows s (some d) = (ok d, s)

  -- What `HGETALL` gives: nothing on an error.
  abbrev pub hash_of : Outcome → ℕ → H → Option Delta
  hash_of answered id s = h.counts id s
  hash_of refused id s = none
  hash_of lost id s = none

  -- `Read`
  unfoldable pub read : ReadEnv → ℕ → List Row → H → Result (Unit {0}) Delta × H
  unfolding from_hash from_table warmed
  read e id rows s = from_hash e id rows s (hash_of e.hash id s)

-- `SELECT tweet_id, count(*) AS n FROM likes GROUP BY tweet_id`: a tweet without likes has no group.
abbrev pub likes_of : ℕ → List (ℕ × ℕ) → ℕ
likes_of id [] = 0
likes_of id ((user, tweet) ∷ ls) = (if tweet == id then 1 else 0) + likes_of id ls

abbrev pub set_likes : ℕ → Row → Row
set_likes n r = record {
  id = r.id;
  counted = record { likes = pos n; retweets = r.counted.retweets };
}

-- `UPDATE tweets t SET likes_count = truth.n FROM truth WHERE t.id = truth.tweet_id …`
abbrev pub correct : List (ℕ × ℕ) → Row → Row
correct likes r = if likes_of r.id likes == 0 then r else set_likes (likes_of r.id likes) r

unfoldable pub reconcile_rows : List (ℕ × ℕ) → List Row → List Row
reconcile_rows likes [] = []
reconcile_rows likes (r ∷ rs) = correct likes r ∷ reconcile_rows likes rs

-- `t.likes_count <> truth.n`
abbrev differs : ℤ → ℕ → Bool
differs (pos m) n = not (m == n)
differs (negsuc m) n = true

-- Whether the statement returns a row: it has likes, and its column was another number.
abbrev pub is_corrected : List (ℕ × ℕ) → Row → Bool
is_corrected likes r =
    not (likes_of r.id likes == 0) && differs r.counted.likes (likes_of r.id likes)

module _ {H : Type 0} (h : Hashes H) where
  -- `HSET cnt:<id> likes <n>`, with its error ignored.
  abbrev hset : Outcome → ℕ → ℕ → H → H
  hset answered id n s = h.set_likes id (pos n) s
  hset refused id n s = s
  hset lost id n s = h.set_likes id (pos n) s

  -- The rows that the statement returns, in the order of the table.
  unfoldable pub reconcile_hashes : (ℕ → Outcome) → List (ℕ × ℕ) → List Row → H → H
  reconcile_hashes hsets likes [] s = s
  reconcile_hashes hsets likes (r ∷ rs) s =
      reconcile_hashes hsets likes rs
        (if is_corrected likes r then hset (hsets r.id) r.id (likes_of r.id likes) s else s)

  -- `Reconcile`
  unfoldable pub reconcile :
      Bool
      → (ℕ → Outcome)
      → List (ℕ × ℕ)
      → List Row
      → H
      → Result (Unit {0}) (Unit {0}) × List Row × H
  reconcile query_fails hsets likes rows s =
      if query_fails
      then (err tt, rows, s)
      else (ok tt, reconcile_rows likes rows, reconcile_hashes hsets likes rows s)

-- After `Reconcile` the stored likes of every tweet that has at least one like are its number of
-- rows in `likes`; the counts of a tweet that has none, and all retweet counts, are as before.
pub reconcile_rows-columns :
    (likes : List (ℕ × ℕ)) (rows : List Row) (id : ℕ) (d : Delta)
    → columns id rows ≡ some d
    → columns id (reconcile_rows likes rows) ≡ (
        if likes_of id likes == 0
        then some d
        else some (record { likes = pos (likes_of id likes); retweets = d.retweets }))
unfolding reconcile_rows
reconcile_rows-columns likes [] id d h = absurd (ground arith)
reconcile_rows-columns likes (r ∷ rs) id d h = ground (arith, reconcile_rows-columns likes rs id d)

-- What an answer may be, given what the hash and the table hold.
abbrev pub Answers : Option Delta → Option Delta → Result (Unit {0}) Delta → Type 0
Answers none none (ok d) = ⊥
Answers none none (err e) = Unit
Answers none (some c) (ok d) = d ≡ c
Answers none (some c) (err e) = Unit
Answers (some c) column (ok d) = d ≡ c
Answers (some c) column (err e) = ⊥

module _ {H : Type 0} (h : Hashes H) where
  warmed-others :
      (o : Outcome) (id j : ℕ) (d : Delta) (s : H)
      → j ≢ id
      → h.counts j (warmed h o id d s) ≡ h.counts j s
  unfolding warmed
  warmed-others answered id j d s ne = ground (arith, h.counts_set_both j id d s)
  warmed-others refused id j d s ne = refl
  warmed-others lost id j d s ne = ground (arith, h.counts_set_both j id d s)

  from_hash-Answers :
      (e : ReadEnv) (id : ℕ) (rows : List Row) (s : H) (c column : Option Delta)
      → columns id rows ≡ column
      → let (result, s') = from_hash h e id rows s c in
        Answers c column result × ((j : ℕ) → j ≢ id → h.counts j s' ≡ h.counts j s)
  unfolding from_hash from_table
  from_hash-Answers e id rows s (some c) column q = (refl, λ j ne. refl)
  from_hash-Answers e id rows s none none q = rw q (tt, λ j ne. refl)
  from_hash-Answers e id rows s none (some d) q = rw q (elim (Bool-cases e.query_fails) [
    | inl fails ↦ rw fails (tt, λ j ne. refl)
    | inr answers ↦ rw answers (refl, λ j ne. warmed-others e.warm id j d s ne)
  ])

  -- A read is answered from the hash when Redis has one, and else from the columns, with which it
  -- then fills the hash of this tweet alone; it fails only without a hash, when there is no such
  -- row or the query fails.
  pub read-Answers :
      (e : ReadEnv) (id : ℕ) (rows : List Row) (s : H)
      → let (result, s') = read h e id rows s in
        Answers (hash_of h e.hash id s) (columns id rows) result
        × ((j : ℕ) → j ≢ id → h.counts j s' ≡ h.counts j s)
  unfolding read
  read-Answers e id rows s =
      from_hash-Answers e id rows s (hash_of h e.hash id s) (columns id rows) refl
