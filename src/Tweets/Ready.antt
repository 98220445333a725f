-- ===== src/Tweets/Ready.antt =====
-- The query of `Create` that counts ready media: what a full count says of each of them.
use yaxter.Common.{
  ℕ, ◌+◌, ◌≤◌, ◌≡◌, refl, true, false, ◌&&◌, List, [], ◌∷◌, ◌==◌, length, contains, if◌then◌else◌,
  All, arith, Bool-cases, inl, inr,
}
use yaxter.Common.Sort.{DistinctKeys, has_key}
use yaxter.Common.Member.{In}
use yaxter.Users.Profile.{MediaRow, is_ready}
use yaxter.Tweets.{count_ready}

-- A row of `media` for the id, which is the owner's and ready.
abbrev pub IsReady : List MediaRow → ℕ → ℕ → Type 0
IsReady ms owner id =
    (r : MediaRow) × In r ms × (r.id ≡ id) × (r.owner_id ≡ owner) × (r.ready ≡ true)

-- The ids that have such a row.
covers : List ℕ → ℕ → List MediaRow → ℕ
covers [] owner ms = 0
covers (i ∷ ids) owner ms = (if is_ready i owner ms then 1 else 0) + covers ids owner ms

is_ready-absent :
    (i owner : ℕ) (ms : List MediaRow)
    → has_key MediaRow.id i ms ≡ false
    → is_ready i owner ms ≡ false
unfolding is_ready
is_ready-absent i owner [] h = refl
is_ready-absent i owner (m ∷ ms) h = ground (arith, is_ready-absent i owner ms)

covers-row :
    (ids : List ℕ) (owner : ℕ) (m : MediaRow) (ms : List MediaRow)
    → has_key MediaRow.id m.id ms ≡ false
    → (if contains m.id ids && (m.owner_id == owner && m.ready) then 1 else 0) + covers ids owner ms
      ≤ covers ids owner (m ∷ ms)
unfolding covers is_ready
covers-row [] owner m ms h = omega arith
covers-row (i ∷ ids) owner m ms h = elim (Bool-cases (m.id == i)) [
  | inl same ↦
      let absent : is_ready i owner ms ≡ false =
        is_ready-absent i owner ms (ground (arith, same, h)) in
      ground (arith, absent, covers-row ids owner m ms h)
  | inr other ↦ ground (arith, covers-row ids owner m ms h)
]

count_ready-le :
    (ids : List ℕ) (owner : ℕ) (ms : List MediaRow)
    → DistinctKeys MediaRow.id ms
    → count_ready ids owner ms ≤ covers ids owner ms
count_ready-le ids owner [] d = omega arith
count_ready-le ids owner (m ∷ ms) d =
    omega (arith, covers-row ids owner m ms d.0, count_ready-le ids owner ms d.1)

covers-le : (ids : List ℕ) (owner : ℕ) (ms : List MediaRow) → covers ids owner ms ≤ length ids
unfolding covers
covers-le [] owner ms = omega arith
covers-le (i ∷ ids) owner ms = ground (arith, covers-le ids owner ms)

is_ready-IsReady :
    (i owner : ℕ) (ms : List MediaRow) → is_ready i owner ms ≡ true → IsReady ms owner i
unfolding is_ready
is_ready-IsReady i owner [] h = absurd (ground arith)
is_ready-IsReady i owner (m ∷ ms) h =
    elim (Bool-cases (m.id == i && (m.owner_id == owner && m.ready))) [
      | inl this ↦ (m, inl refl, ground arith, ground arith, ground arith)
      | inr other ↦
          let (r, at, id, own, ready) = is_ready-IsReady i owner ms (ground arith) in
          (r, inr at, id, own, ready)
    ]

covers-full :
    (ids : List ℕ) (owner : ℕ) (ms : List MediaRow)
    → length ids ≤ covers ids owner ms
    → All (IsReady ms owner) ids
unfolding covers
covers-full [] owner ms h = tt
covers-full (i ∷ ids) owner ms h =
    let rest = covers-le ids owner ms in
    (
      is_ready-IsReady i owner ms (ground (arith, rest)),
      covers-full ids owner ms (ground (arith, rest)),
    )

-- When the ids of `media` are distinct, a full count says that every id has a row which is ready
-- and the owner's.
pub count_ready-full :
    (ids : List ℕ) (owner : ℕ) (ms : List MediaRow)
    → DistinctKeys MediaRow.id ms
    → count_ready ids owner ms ≡ length ids
    → All (IsReady ms owner) ids
count_ready-full ids owner ms d h =
    covers-full ids owner ms (omega (arith, count_ready-le ids owner ms d))
