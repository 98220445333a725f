-- ===== src/Leases/Claim.antt =====
-- What one claim does to the table.
use yaxter.Common.{
  ℕ, zero, suc, ◌+◌, ◌≤◌, ◌<◌, ◌≡◌, refl, true, false, Option, none, some, [], ◌∷◌, ◌==◌, leb,
  if◌then◌else◌, arith, Bool-cases, inl, inr,
}
use yaxter.Leases.{Row, Table, fresh, is_leased, first_free, upsert}

-- The row of a node.
unfoldable pub find_node : ℕ → Table → Option Row
find_node id [] = none
find_node id (r ∷ t) = if r.node_id == id then some r else find_node id t

-- The owner has the node until the time at least.
abbrev pub HeldBy : ℕ → ℕ → Option Row → Type 0
HeldBy owner until none = ⊥
HeldBy owner until (some r) = (r.leased_by ≡ owner) × (until ≤ r.expires_at)

abbrev pub Holds : ℕ → ℕ → ℕ → Table → Type 0
Holds node owner until t = HeldBy owner until (find_node node t)

-- The lowest id that is not leased: those below it are.
abbrev pub IsLowest : ℕ → Table → ℕ → ℕ → Option ℕ → Type 0
IsLowest now t from k none = (j : ℕ) → from ≤ j → j < from + k → is_leased now j t ≡ true
IsLowest now t from k (some id) =
    (from ≤ id)
    × (id < from + k)
    × (is_leased now id t ≡ false)
    × ((j : ℕ) → from ≤ j → j < id → is_leased now j t ≡ true)

pub first_free-IsLowest :
    (now : ℕ) (t : Table) (k from : ℕ) → IsLowest now t from k (first_free now t k from)
unfolding first_free
first_free-IsLowest now t zero from = λ j h h'. absurd (omega arith)
first_free-IsLowest now t (suc k) from = elim (Bool-cases (is_leased now from t)) [
  | inr free ↦ rw free (omega arith, omega arith, free, λ j h h'. absurd (omega arith))
  | inl taken ↦
      rw taken
        (widen (first_free now t k (suc from)) taken (first_free-IsLowest now t k (suc from)))
]
  where
    at_first :
        (j : ℕ)
        → from ≤ j
        → is_leased now from t ≡ true
        → (suc from ≤ j → is_leased now j t ≡ true)
        → is_leased now j t ≡ true
    at_first j h taken later = elim (Bool-cases (j == from)) [
      | inl same ↦ let e : j ≡ from = ground arith in rw e taken
      | inr other ↦ later (ground arith)
    ]

    widen :
        (o : Option ℕ)
        → is_leased now from t ≡ true
        → IsLowest now t (suc from) k o
        → IsLowest now t from (suc k) o
    widen none taken all = λ j h h'. at_first j h taken (λ g. all j g (omega arith))
    widen (some id) taken (lo, hi, free, all) =
        (omega arith, omega arith, free, λ j h h'. at_first j h taken (λ g. all j g h'))

-- The table after an upsert has the new row if it was done, and is unchanged if it was not.
pub find_node-upsert :
    (owner now ttl id j : ℕ) (t : Table)
    → find_node j (upsert owner now ttl id t).1 ≡ (
        if (upsert owner now ttl id t).0
        then if j == id then some (fresh owner now ttl id) else find_node j t
        else find_node j t)
unfolding find_node upsert
find_node-upsert owner now ttl id j [] = ground arith
find_node-upsert owner now ttl id j (r ∷ t) = ground (arith, find_node-upsert owner now ttl id j t)

-- An upsert is done exactly if the node has no row or an expired one.
pub upsert-done :
    (owner now ttl id : ℕ) (t : Table)
    → (upsert owner now ttl id t).0
      ≡ elim (find_node id t) [ none ↦ true | some r ↦ leb r.expires_at now ]
unfolding find_node upsert
upsert-done owner now ttl id [] = refl
upsert-done owner now ttl id (r ∷ t) = ground (arith, upsert-done owner now ttl id t)
