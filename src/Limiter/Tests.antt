-- ===== src/Limiter/Tests.antt =====
-- The theorem on the limiter with a sorted set as a list of scores and members.
use yaxter.Common.{
  ℕ, suc, ◌+◌, ◌≤◌, ◌≡◌, refl, Bool, false, List, [], ◌∷◌, ltb, leb, ◌==◌, if◌then◌else◌, arith,
  any,
}
use yaxter.Redis.{answered, refused, lost}
use yaxter.Limiter.{SortedSet, Call, Entry, sliding_window, allow, run}
use yaxter.Limiter.Window.{within, run-within}

abbrev Scores : Type 0
Scores = List (ℕ × ℕ)

abbrev above : ℕ → Scores → ℕ
above n [] = 0
above n (x ∷ xs) = (if ltb n x.0 then 1 else 0) + above n xs

abbrev size : Scores → ℕ
size [] = 0
size (x ∷ xs) = suc (size xs)

abbrev drop_upto : ℕ → Scores → Scores
drop_upto m [] = []
drop_upto m (x ∷ xs) = if leb x.0 m then drop_upto m xs else x ∷ drop_upto m xs

abbrev has_member : ℕ → Scores → Bool
has_member m = any (λ x. x.1 == m)

abbrev put_score : ℕ → ℕ → Scores → Scores
put_score s m [] = (s, m) ∷ []
put_score s m (x ∷ xs) = if x.1 == m then (s, m) ∷ xs else x ∷ put_score s m xs

above-le-size : (n : ℕ) (z : Scores) → above n z ≤ size z
above-le-size n [] = omega arith
above-le-size n (x ∷ xs) = ground (arith, above-le-size n xs)

above-drop_upto : (n m : ℕ) (z : Scores) → m ≤ n → above n (drop_upto m z) ≡ above n z
above-drop_upto n m [] h = refl
above-drop_upto n m (x ∷ xs) h = ground (arith, above-drop_upto n m xs h)

above-put_score :
    (n s m : ℕ) (z : Scores)
    → has_member m z ≡ false
    → above n (put_score s m z) ≡ (if ltb n s then 1 else 0) + above n z
above-put_score n s m [] h = refl
above-put_score n s m (x ∷ xs) h = ground (arith, above-put_score n s m xs)

above-expired :
    (n t d : ℕ) (z : Scores)
    → above n (if ltb t d then z else []) ≡ (if ltb t d then above n z else 0)
above-expired n t d z = ground arith

abbrev scores : SortedSet Scores
scores = record {
  zcount = above;
  zcard = size;
  has = has_member;
  zremrangebyscore = drop_upto;
  zadd = put_score;
  expire = λ t d z. if ltb t d then z else [];
  zcount-le-zcard = above-le-size;
  zcount_zremrangebyscore = above-drop_upto;
  zcount_zadd = above-put_score;
  zcount_expire = above-expired;
}

-- Two calls for each 100 milliseconds; the third and the sixth call are too many.
abbrev calls : List Call
calls =
    record { outcome = answered; now = 1000; redis_now = 990; member = 1 }
    ∷ record { outcome = answered; now = 1040; redis_now = 1030; member = 2 }
    ∷ record { outcome = answered; now = 1099; redis_now = 1089; member = 3 }
    ∷ record { outcome = answered; now = 1100; redis_now = 1090; member = 4 }
    ∷ record { outcome = refused; now = 1110; redis_now = 1100; member = 5 }
    ∷ record { outcome = lost; now = 1140; redis_now = 1130; member = 6 }
    ∷ record { outcome = answered; now = 1150; redis_now = 1140; member = 7 }
    ∷ []

abbrev new_key : Entry Scores
new_key = record { set = []; deadline = 0 }

run-calls : (run scores 100 2 calls [] new_key).0 ≡ 1100 ∷ 1040 ∷ 1000 ∷ []
unfolding run allow sliding_window
run-calls = refl

run-within_example : within 100 1120 (run scores 100 2 calls [] new_key).0 ≤ 2
unfolding allow sliding_window
run-within_example = run-within scores 100 2 10 calls new_key 1120 (
  (refl, omega arith, omega arith, refl),
  (
    (refl, omega arith, omega arith, refl),
    (
      (refl, omega arith, omega arith, refl),
      (
        (refl, omega arith, omega arith, refl),
        (
          (refl, omega arith, omega arith, refl),
          ((refl, omega arith, omega arith, refl), ((refl, omega arith, omega arith, refl), tt)),
        ),
      ),
    ),
  ),
)
