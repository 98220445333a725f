-- ===== src/Idem/Exclusion.antt =====
-- Concurrent requests: at most one of a key is at work at a time.
use yaxter.Common.{
  ℕ, zero, suc, ◌+◌, ◌≤◌, ◌≡◌, refl, Bool, true, false, Option, none, some, List, [], ◌∷◌, ◌==◌,
  if◌then◌else◌, arith, Bool-cases, inl, inr,
}
use yaxter.Common.Decimal.{Text}
use yaxter.Redis.{Outcome, answered, refused, lost}
use yaxter.Idem.Http.{Headers, Action}
use yaxter.Idem.{
  Record, Request, Store, Phase, getting, claiming, passing, handling, storing, unlocking, done,
  panicked, replay, begin, found, claimed, handled, passed, step, unavailable,
}

-- The request is between its SETNX and the end of its DEL.
abbrev pub holds : ℕ → Phase → ℕ
holds k (handling j) = if j == k then 1 else 0
holds k (storing j x res) = if j == k then 1 else 0
holds k (unlocking j res) = if j == k then 1 else 0
holds k p = 0

abbrev pub holders : ℕ → List (Request × Phase) → ℕ
holders k [] = 0
holders k (x ∷ xs) = holds k x.1 + holders k xs

abbrev pub bit : Bool → ℕ
bit true = 1
bit false = 0

-- What happens next: a request makes its step, whose command of Redis ends in some way, or Redis
-- drops the lock of a key, whose TTL of 30 seconds is over.
pub data Event : Type 0 where
  goes : ℕ → Outcome → Event
  expires : ℕ → Event

-- The second request asks for the record, then the first one goes through all its steps, then the
-- second one goes on.
abbrev pub late : List Event
late =
    goes 1 answered
    ∷ goes 0 answered
    ∷ goes 0 answered
    ∷ goes 0 answered
    ∷ goes 0 answered
    ∷ goes 0 answered
    ∷ goes 1 answered
    ∷ goes 1 answered
    ∷ []

module _ {A S : Type 0} (r : Store S) (handler : ℕ → A → List Action × A) (content_type : ℕ)
    (error_body : Text → Text → Text) where
  -- Request number `i` makes its next step.
  unfoldable pub move :
      ℕ → Outcome → List (Request × Phase) → A → S → List (Request × Phase) × A × S
  move i o [] a s = ([], a, s)
  move zero o (x ∷ xs) a s =
      let (p, a', s') = step r handler content_type error_body o x.0 x.1 (a, s) in
      ((x.0, p) ∷ xs, a', s')
  move (suc i) o (x ∷ xs) a s = let (ys, a', s') = move i o xs a s in (x ∷ ys, a', s')

  -- A schedule of such events.
  unfoldable pub moves :
      List Event → List (Request × Phase) → A → S → List (Request × Phase) × A × S
  moves [] xs a s = (xs, a, s)
  moves (goes i o ∷ ms) xs a s = let (ys, a', s') = move i o xs a s in moves ms ys a' s'
  moves (expires k ∷ ms) xs a s = moves ms xs a (r.unlock k s)

  -- The lock of the key expires only when no request holds it: a request is done with its handler,
  -- its SET and its DEL within the TTL, and what expires is a lock whose DEL has failed.
  unfoldable pub IsTimely : ℕ → List Event → List (Request × Phase) → A → S → Type 0
  IsTimely k [] xs a s = Unit
  IsTimely k (goes i o ∷ ms) xs a s =
      IsTimely k ms (move i o xs a s).0 (move i o xs a s).1 (move i o xs a s).2
  IsTimely k (expires j ∷ ms) xs a s =
      (j ≡ k → holders k xs ≡ 0) × IsTimely k ms xs a (r.unlock j s)

  replay-holds :
      (k : ℕ) (h : Headers) (x : Record)
      → holds k (replay r handler content_type error_body h x) ≡ 0
  unfolding replay
  replay-holds k h x = ground arith

  found-holds :
      (k j : ℕ) (q : Request) (o : Option (Option Record))
      → holds k (found r handler content_type error_body q j o) ≡ 0
  unfolding found
  found-holds k j q none = refl
  found-holds k j q (some none) = refl
  found-holds k j q (some (some x)) = replay-holds k q.header x

  -- A step takes the lock, keeps it, or gives it back.
  step-holds :
      (k : ℕ) (o : Outcome) (q : Request) (p : Phase) (a : A) (s : S) (others : ℕ)
      → holds k p + others ≤ bit (r.locked k s)
      → holds k (step r handler content_type error_body o q p (a, s)).0 + others
        ≤ bit (r.locked k (step r handler content_type error_body o q p (a, s)).2)
  unfolding step claimed handled passed unavailable
  step-holds k answered q (getting j) a s n h = ground (arith, found-holds k j q (r.find j s))
  step-holds k refused q (getting j) a s n h = h
  step-holds k lost q (getting j) a s n h = h
  step-holds k answered q (claiming j) a s n h = ground (arith, r.locked_lock k j s)
  step-holds k refused q (claiming j) a s n h = h
  step-holds k lost q (claiming j) a s n h = ground (arith, r.locked_lock k j s)
  step-holds k answered q passing a s n h = h
  step-holds k refused q passing a s n h = h
  step-holds k lost q passing a s n h = h
  step-holds k answered q (handling j) a s n h = h
  step-holds k refused q (handling j) a s n h = h
  step-holds k lost q (handling j) a s n h = h
  step-holds k answered q (storing j x res) a s n h = ground (arith, r.locked_set k j x s)
  step-holds k refused q (storing j x res) a s n h = h
  step-holds k lost q (storing j x res) a s n h = ground (arith, r.locked_set k j x s)
  step-holds k answered q (unlocking j res) a s n h = ground (arith, r.locked_unlock k j s)
  step-holds k refused q (unlocking j res) a s n h = ground arith
  step-holds k lost q (unlocking j res) a s n h = ground (arith, r.locked_unlock k j s)
  step-holds k answered q (done res) a s n h = h
  step-holds k refused q (done res) a s n h = h
  step-holds k lost q (done res) a s n h = h
  step-holds k answered q panicked a s n h = h
  step-holds k refused q panicked a s n h = h
  step-holds k lost q panicked a s n h = h

  move-holds :
      (k i : ℕ) (o : Outcome) (xs : List (Request × Phase)) (a : A) (s : S) (others : ℕ)
      → holders k xs + others ≤ bit (r.locked k s)
      → holders k (move i o xs a s).0 + others ≤ bit (r.locked k (move i o xs a s).2)
  unfolding move
  move-holds k i o [] a s n h = h
  move-holds k zero o ((q, p) ∷ xs) a s n h =
      omega (arith, step-holds k o q p a s (holders k xs + n) (omega arith))
  move-holds k (suc i) o ((q, p) ∷ xs) a s n h =
      omega (arith, move-holds k i o xs a s (holds k p + n) (omega arith))

  expires-holds :
      (k j n : ℕ) (s : S)
      → (j ≡ k → n ≡ 0)
      → n ≤ bit (r.locked k s)
      → n ≤ bit (r.locked k (r.unlock j s))
  expires-holds k j n s free h = elim (Bool-cases (k == j)) [
    | inl same ↦ let none_left : n ≡ 0 = free (ground arith) in omega arith
    | inr other ↦ ground (arith, r.locked_unlock k j s, other)
  ]

  moves-holds :
      (k : ℕ) (ms : List Event) (xs : List (Request × Phase)) (a : A) (s : S)
      → IsTimely k ms xs a s
      → holders k xs ≤ bit (r.locked k s)
      → holders k (moves ms xs a s).0 ≤ bit (r.locked k (moves ms xs a s).2)
  unfolding moves IsTimely
  moves-holds k [] xs a s t h = h
  moves-holds k (goes i o ∷ ms) xs a s t h =
      moves-holds k ms (move i o xs a s).0 (move i o xs a s).1 (move i o xs a s).2 t
        (omega (arith, move-holds k i o xs a s 0 (omega arith)))
  moves-holds k (expires j ∷ ms) xs a s t h =
      moves-holds k ms xs a (r.unlock j s) t.1 (expires-holds k j (holders k xs) s t.0 h)

  abbrev pub starting : List Request → List (Request × Phase)
  starting [] = []
  starting (q ∷ qs) = (q, begin r handler content_type error_body q) ∷ starting qs

  begin-holds : (k : ℕ) (q : Request) → holds k (begin r handler content_type error_body q) ≡ 0
  unfolding begin
  begin-holds k q = ground arith

  starting-holds : (k : ℕ) (qs : List Request) → holders k (starting qs) ≡ 0
  starting-holds k [] = refl
  starting-holds k (q ∷ qs) = ground (arith, begin-holds k q, starting-holds k qs)

  bit-le : (b : Bool) → bit b ≤ 1
  bit-le true = omega arith
  bit-le false = omega arith

  -- However the steps of any requests interleave, whichever commands of Redis fail or have their answers
  -- lost, and whatever locks expire, provided that the lock of the key expires only when no
  -- request is between its SETNX and its DEL: of the requests with the key at most one at a time
  -- is between these two, so that no two of them run their handlers at the same time.
  pub moves-exclusive :
      (k : ℕ) (ms : List Event) (qs : List Request) (a : A) (s : S)
      → IsTimely k ms (starting qs) a s
      → holders k (moves ms (starting qs) a s).0 ≤ 1
  moves-exclusive k ms qs a s timely = omega (
    arith,
    moves-holds k ms (starting qs) a s timely (omega (arith, starting-holds k qs)),
    bit-le (r.locked k (moves ms (starting qs) a s).2),
  )
