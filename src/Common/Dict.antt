-- ===== src/Common/Dict.antt =====
-- A Go map keyed by int64, as an association list in order of first insertion.
use Prim.Native.Nat.{ℕ}
use mathlib.Core.Path.{◌≡◌, refl}
use mathlib.Core.Option.{Option, none, some}
use mathlib.Core.List.{List, [], ◌∷◌}
use native.Mathlib.Omega.{arith}
use yaxter.Common.Tests.{if◌then◌else◌, ◌==◌}

abbrev pub Dict {ℓ} : Type ℓ → Type ℓ
Dict V = List (ℕ × V)

module _ {ℓ} {V : Type ℓ} where
  -- `v, ok := m[id]`
  abbrev pub lookup : ℕ → Dict V → Option V
  lookup id [] = none
  lookup id (entry ∷ m) = if id == entry.0 then some entry.1 else lookup id m

  -- `m[id] = v`
  abbrev pub insert : ℕ → V → Dict V → Dict V
  insert id v [] = (id, v) ∷ []
  insert id v (entry ∷ m) = if id == entry.0 then (entry.0, v) ∷ m else entry ∷ insert id v m

  pub lookup-insert :
      (j id : ℕ) (v : V) (m : Dict V)
      → lookup j (insert id v m) ≡ (if j == id then some v else lookup j m)
  lookup-insert j id v [] = refl
  lookup-insert j id v ((i, w) ∷ m) = ground (arith, lookup-insert j id v m)

-- `d[k]` with the zero value for a missing key.
abbrev pub lookup_or {ℓ} : {V : Type ℓ} → V → ℕ → Dict V → V
lookup_or z k d = elim (lookup k d) [ none ↦ z | some v ↦ v ]
