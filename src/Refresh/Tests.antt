-- ===== src/Refresh/Tests.antt =====
-- The theorems on refresh tokens at a concrete table, and two interleavings of calls.
use yaxter.Common.{ℕ, ◌+◌, ◌≤◌, ◌≡◌, ◌≢◌, refl, false, some, none, List, [], ◌∷◌, map, ok, arith}
use yaxter.Refresh.{
  Row, Table, Env, selecting, rotated, refused, reused, invalid_refresh, find_hash, step, insert,
  rotate, revoke_family_by_token,
}
use yaxter.Refresh.Rotate.{family_live, Rotates, rotate-Rotates, rotate-replay, rotate-family_dead}
use yaxter.Refresh.Family.{Ends, revoke_family_by_token-Ends}
use yaxter.Refresh.SingleUse.{winners, run, step_at, run_single_use, live}

-- A hash for the examples.
abbrev hash : ℕ → ℕ
hash token = token + 1000

abbrev env : ℕ → ℕ → Env
env id token = record {
  fails = false;
  go_now = 50;
  pg_now = 50;
  fresh_id = id;
  random = some token;
}

abbrev old : Row
old = record {
  id = 7;
  user_id = 1;
  family_id = 7;
  token_hash = 1005;
  expires_at = 90;
  revoked_at = none;
}

abbrev table : Table
table = old ∷ []

abbrev next_row : Row
next_row = record {
  id = 8;
  user_id = 1;
  family_id = 7;
  token_hash = 1006;
  expires_at = 80;
  revoked_at = none;
}

abbrev after : Table
after = next_row ∷ record old { revoked_at = some 50 } ∷ []

rotate-old : rotate hash 30 (env 8 6) (env 8 6) (env 8 6) 5 table ≡ (rotated old 1 6, after)
unfolding rotate step insert
rotate-old = refl

rotate-Rotates_example : Rotates hash 30 (env 8 6) (env 8 6) (env 8 6) 5 table old 1 6 after
rotate-Rotates_example =
    rotate-Rotates hash 30 (env 8 6) (env 8 6) (env 8 6) 5 table old 1 6 after rotate-old

rotate-replay_example :
    let (p, t'') = rotate hash 30 (env 9 4) (env 9 4) (env 9 4) 5 after in
    (p ≡ refused reused) × (family_live 7 t'' ≡ 0)
rotate-replay_example =
    rotate-replay hash 30 (env 8 6) (env 8 6) (env 8 6) (env 9 4) (env 9 4) (env 9 4) 5 table old 1
      6 after rotate-old (omega arith) refl refl refl

abbrev dead : Table
dead = record old { revoked_at = some 50 } ∷ []

rotate-family_dead_example :
    let (p, t') = rotate hash 30 (env 8 6) (env 8 6) (env 8 6) 5 dead in
    (family_live 7 t' ≡ 0) × ((r : Row) (user next : ℕ) → p ≡ rotated r user next → r.family_id ≢ 7)
rotate-family_dead_example = rotate-family_dead hash 30 (env 8 6) (env 8 6) (env 8 6) 5 7 dead refl

revoke_family_by_token-Ends_example :
    Ends (find_hash 1006 after) after (revoke_family_by_token hash 30 (env 9 4) (env 9 4) 6 after)
revoke_family_by_token-Ends_example =
    revoke_family_by_token-Ends hash 30 (env 9 4) (env 9 4) 6 after

-- Two calls with the same token, both past their SELECT before either updates.
abbrev schedule : List (ℕ × Env)
schedule =
    (0, env 8 6) ∷ (1, env 9 4) ∷ (0, env 8 6) ∷ (1, env 9 4) ∷ (0, env 8 6) ∷ (1, env 9 4) ∷ []

run_single_use_example :
    winners hash 30 7 (run hash 30 schedule (map selecting (5 ∷ 5 ∷ [])) table).0 ≤ live 7 table
run_single_use_example = run_single_use hash 30 7 (5 ∷ 5 ∷ []) schedule table (omega arith)

run-schedule :
    (run hash 30 schedule (map selecting (5 ∷ 5 ∷ [])) table).0
    ≡ rotated old 1 6 ∷ refused invalid_refresh ∷ []
unfolding run step_at step insert
run-schedule = refl

-- A logout between the UPDATE and the INSERT of a rotation revokes the family, and the INSERT then
-- puts a token into it that is not revoked.
logout_race :
    let (p₁, t₁) = step hash 30 (env 8 6) (selecting 5) table in
    let (p₂, t₂) = step hash 30 (env 8 6) p₁ t₁ in
    let (r, t₃) = revoke_family_by_token hash 30 (env 9 4) (env 9 4) 5 t₂ in
    let (p₃, t₄) = step hash 30 (env 8 6) p₂ t₃ in
    (r ≡ ok tt) × (family_live 7 t₃ ≡ 0) × (p₃ ≡ rotated old 1 6) × (family_live 7 t₄ ≡ 1)
unfolding step insert revoke_family_by_token
logout_race = (refl, refl, refl, refl)

-- A replay in the same gap finds no successor yet: it is refused with no revocation.
replay_race :
    let (p₁, t₁) = step hash 30 (env 8 6) (selecting 5) table in
    let (p₂, t₂) = step hash 30 (env 8 6) p₁ t₁ in
    let (q, t₃) = rotate hash 30 (env 9 4) (env 9 4) (env 9 4) 5 t₂ in
    let (p₃, t₄) = step hash 30 (env 8 6) p₂ t₃ in
    (q ≡ refused invalid_refresh) × (family_live 7 t₄ ≡ 1)
unfolding step insert rotate
replay_race = (refl, refl)
