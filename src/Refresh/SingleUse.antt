-- ===== src/Refresh/SingleUse.antt =====
-- Any number of clients call `Rotate` at once, their statements interleaved in any order: a row is
-- rotated once at most.
use yaxter.Common.{
  ℕ, zero, suc, ◌+◌, ◌≤◌, ◌≡◌, ◌≢◌, refl, true, ◌&&◌, List, [], ◌∷◌, map, ◌==◌, if◌then◌else◌,
  arith, All,
}
use yaxter.Refresh.{
  Table, Env, is_none, mark, marks, revoke_family, Phase, selecting, checking, revoking, updating,
  inserting, rotated, refused, selected, insert, inserted, step,
}

-- The rows of that id that are not revoked.
abbrev pub live : ℕ → Table → ℕ
live id [] = 0
live id (r ∷ t) = (if r.id == id && is_none r.revoked_at then 1 else 0) + live id t

-- 1 for a call that has won the row of that id: it has revoked the row to put a successor in place.
abbrev pub won : ℕ → Phase → ℕ
won id (inserting r) = if r.id == id then 1 else 0
won id (rotated r user next) = if r.id == id then 1 else 0
won id (selecting token) = 0
won id (checking r) = 0
won id (revoking r) = 0
won id (updating r) = 0
won id (refused x) = 0

live-mark_self : (id now : ℕ) (t : Table) → live id (mark id now t) ≡ 0
live-mark_self id now [] = refl
live-mark_self id now (r ∷ t) = ground (arith, live-mark_self id now t)

live-mark : (j id now : ℕ) (t : Table) → live j (mark id now t) ≤ live j t
live-mark j id now [] = omega arith
live-mark j id now (r ∷ t) = ground (arith, live-mark j id now t)

live-marks : (id : ℕ) (t : Table) → marks id t ≡ true → 1 ≤ live id t
live-marks id [] h = cc
live-marks id (r ∷ t) h = ground (arith, live-marks id t)

live-revoke_family : (j fam now : ℕ) (t : Table) → live j (revoke_family fam now t) ≤ live j t
live-revoke_family j fam now [] = omega arith
live-revoke_family j fam now (r ∷ t) = ground (arith, live-revoke_family j fam now t)

module _ (hash_token : ℕ → ℕ) (ttl : ℕ) where
  -- One statement of one call.
  step-won :
      (id : ℕ) (e : Env) (p : Phase) (t : Table)
      → e.fresh_id ≢ id
      → let (p', t') = step hash_token ttl e p t in won id p' + live id t' ≤ won id p + live id t
  unfolding step selected inserted insert
  step-won id e (selecting token) t h = ground arith
  step-won id e (checking r) t h = ground arith
  step-won id e (revoking r) t h = ground (arith, live-revoke_family id r.family_id e.pg_now t)
  step-won id e (updating r) t h =
      ground
        (arith, live-mark_self r.id e.pg_now t, live-mark id r.id e.pg_now t, live-marks r.id t)
  step-won id e (inserting r) t h = ground arith
  step-won id e (rotated r user next) t h = omega arith
  step-won id e (refused x) t h = omega arith

  -- Call number `i` makes a step; a number past the calls makes none.
  unfoldable pub step_at : ℕ → Env → List Phase → Table → List Phase × Table
  step_at i e [] t = ([], t)
  step_at zero e (p ∷ ps) t = let (p', t') = step hash_token ttl e p t in (p' ∷ ps, t')
  step_at (suc i) e (p ∷ ps) t = let (ps', t') = step_at i e ps t in (p ∷ ps', t')

  unfoldable pub run : List (ℕ × Env) → List Phase → Table → List Phase × Table
  run [] ps t = (ps, t)
  run ((i, e) ∷ schedule) ps t = let (ps', t') = step_at i e ps t in run schedule ps' t'

  abbrev pub winners : ℕ → List Phase → ℕ
  winners id [] = 0
  winners id (p ∷ ps) = won id p + winners id ps

  step_at-winners :
      (id i : ℕ) (e : Env) (ps : List Phase) (t : Table)
      → e.fresh_id ≢ id
      → let (ps', t') = step_at i e ps t in winners id ps' + live id t' ≤ winners id ps + live id t
  unfolding step_at
  step_at-winners id i e [] t h = omega arith
  step_at-winners id zero e (p ∷ ps) t h = omega (arith, step-won id e p t h)
  step_at-winners id (suc i) e (p ∷ ps) t h = omega (arith, step_at-winners id i e ps t h)

  run-winners :
      (id : ℕ) (schedule : List (ℕ × Env)) (ps : List Phase) (t : Table)
      → All (λ (i, e). e.fresh_id ≢ id) schedule
      → let (ps', t') = run schedule ps t in winners id ps' + live id t' ≤ winners id ps + live id t
  unfolding run
  run-winners id [] ps t h = omega arith
  run-winners id ((i, e) ∷ schedule) ps t h =
      let (ps', t') = step_at i e ps t in
      omega (arith, step_at-winners id i e ps t h.0, run-winners id schedule ps' t' h.1)

  winners-selecting : (id : ℕ) (tokens : List ℕ) → winners id (map selecting tokens) ≡ 0
  winners-selecting id [] = refl
  winners-selecting id (x ∷ xs) = omega (arith, winners-selecting id xs)

  -- However many calls of `Rotate` run at once, with whatever tokens, and however their statements
  -- interleave and fail: the calls that revoke a row of some id to issue a successor are no more than
  -- the rows of that id that were not revoked: at most one, as ids are unique, and none if the row
  -- was revoked before. It is assumed that the ids of new rows are other ones.
  pub run_single_use :
      (id : ℕ) (tokens : List ℕ) (schedule : List (ℕ × Env)) (t : Table)
      → All (λ (i, e). e.fresh_id ≢ id) schedule
      → winners id (run schedule (map selecting tokens) t).0 ≤ live id t
  run_single_use id tokens schedule t h =
      omega (arith, run-winners id schedule (map selecting tokens) t h, winners-selecting id tokens)
