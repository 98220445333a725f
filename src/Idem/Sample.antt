-- ===== src/Idem/Sample.antt =====
-- The keys of Redis as functions, on which the tests of idempotency run.
use yaxter.Common.{ℕ, refl, Bool, not, ◌||◌, ◌&&◌, Option, some, ◌==◌, if◌then◌else◌}
use yaxter.Idem.{Record, Store}

-- A database with its locks.
abbrev pub Db : Type 0
Db = (ℕ → Option (Option Record)) × (ℕ → Bool)

abbrev pub db : Store Db
db = record {
  find = λ k s. s.0 k;
  set = λ j x s. ((λ i. if i == j then some (some x) else s.0 i), s.1);
  locked = λ k s. s.1 k;
  lock = λ j s. (s.0, λ i. i == j || s.1 i);
  unlock = λ j s. (s.0, λ i. not (i == j) && s.1 i);
  find_set = λ i j x s. refl;
  find_lock = λ i j s. refl;
  find_unlock = λ i j s. refl;
  locked_set = λ i j x s. refl;
  locked_lock = λ i j s. refl;
  locked_unlock = λ i j s. refl;
}
