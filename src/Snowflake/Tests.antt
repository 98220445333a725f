-- ===== src/Snowflake/Tests.antt =====
-- The theorems on ids at concrete generators and clocks.
use yaxter.Common.{ℕ, ◌+◌, ◌%◌, ◌^◌, ◌<◌, ◌≡◌, ◌≢◌, refl, true, some, List, [], ◌∷◌, arith}
use yaxter.Snowflake.{
  Generator, epoch_ms, seq_bits, await, finish, after_wait, next, node_of, timestamp, pack, issue,
}
use yaxter.Snowflake.Fields.{pack_fields}
use yaxter.Snowflake.Order.{IsValid, next_increases, Increasing, issue-Increasing, next_distinct}
use yaxter.Snowflake.Waiting.{is_some, next_returns}

abbrev gen : Generator
gen = record { node = 3; last_ms = epoch_ms + 5; seq = 4095 }

abbrev other : Generator
other = record { node = 4; last_ms = epoch_ms + 5; seq = 7 }

-- The clock goes back, stands still and moves on.
abbrev clock : List ℕ
clock = (epoch_ms + 4) ∷ (epoch_ms + 5) ∷ (epoch_ms + 2) ∷ (epoch_ms + 9) ∷ (epoch_ms + 9) ∷ []

gen-IsValid : IsValid gen
gen-IsValid = record { node_fits = omega arith; seq_fits = omega arith }

other-IsValid : IsValid other
other-IsValid = record { node_fits = omega arith; seq_fits = omega arith }

pack_fields_example :
    (node_of (pack (epoch_ms + 77) 1023 4095) ≡ 1023)
    × (timestamp (pack (epoch_ms + 77) 1023 4095) ≡ epoch_ms + 77)
    × (pack (epoch_ms + 77) 1023 4095 % 2 ^ seq_bits ≡ 4095)
pack_fields_example =
    pack_fields (epoch_ms + 77) 1023 4095 (omega arith, omega arith) (omega arith) (omega arith)

next-gen :
    next gen clock
    ≡ some (
      pack (epoch_ms + 6) 3 0,
      record { node = 3; last_ms = epoch_ms + 6; seq = 0 },
      (epoch_ms + 9) ∷ (epoch_ms + 9) ∷ [],
    )
unfolding next finish after_wait await
next-gen = refl

next-other :
    next other ((epoch_ms + 6) ∷ [])
    ≡ some (pack (epoch_ms + 6) 4 0, record { node = 4; last_ms = epoch_ms + 6; seq = 0 }, [])
unfolding next finish after_wait
next-other = refl

next_increases_example :
    (pack (epoch_ms + 5) 3 4095 < pack (epoch_ms + 6) 3 0)
    × (pack (epoch_ms + 6) 3 0 ≡ pack (epoch_ms + 6) 3 0)
    × (◌≡◌ {A = ℕ} 3 3)
    × IsValid (record { node = 3; last_ms = epoch_ms + 6; seq = 0 })
next_increases_example =
    next_increases gen clock gen-IsValid next-gen (omega arith, omega arith)
      (omega arith, omega arith)

abbrev issued : List ℕ
issued = pack (epoch_ms + 6) 3 0 ∷ pack (epoch_ms + 9) 3 0 ∷ pack (epoch_ms + 9) 3 1 ∷ []

issue-gen : issue 3 gen clock ≡ some (issued, record { node = 3; last_ms = epoch_ms + 9; seq = 1 })
unfolding issue next finish after_wait await
issue-gen = refl

issue-Increasing_example : Increasing issued
issue-Increasing_example =
    issue-Increasing 3 gen clock gen-IsValid (omega arith) issue-gen (omega arith)

next_distinct_example : pack (epoch_ms + 6) 3 0 ≢ pack (epoch_ms + 6) 4 0
next_distinct_example =
    next_distinct gen other clock ((epoch_ms + 6) ∷ []) gen-IsValid other-IsValid (omega arith)
      next-gen next-other (omega arith, omega arith) (omega arith, omega arith)

next_returns_example : is_some (next gen clock) ≡ true
next_returns_example =
    next_returns gen (epoch_ms + 4)
      ((epoch_ms + 5) ∷ (epoch_ms + 2) ∷ (epoch_ms + 9) ∷ (epoch_ms + 9) ∷ []) refl
