-- ===== src/Common/Sort.antt =====
-- `ORDER BY key DESC` and `sort.Slice` by a descending key. With distinct keys any sorting
-- procedure gives the list that this one gives.
use Prim.Native.Nat.{ℕ, suc, ◌<◌}
use mathlib.Core.Path.{◌≡◌, refl}
use mathlib.Core.Bool.{Bool, false, ◌||◌}
use mathlib.Core.List.{List, [], ◌∷◌}
use mathlib.Core.Logic.{inl, inr}
use mathlib.Core.List.Perm
use mathlib.Core.List.{Perm}
use native.Mathlib.Omega.{arith}
use yaxter.Common.Tests.{leb, ◌==◌, if◌then◌else◌, Bool-cases}
use yaxter.Common.Lists.{All, length}

module _ {A : Type 0} (key : A → ℕ) where
  unfoldable pub insert_desc : A → List A → List A
  insert_desc x [] = x ∷ []
  insert_desc x (y ∷ ys) = if leb (key y) (key x) then x ∷ y ∷ ys else y ∷ insert_desc x ys

  unfoldable pub sort_desc : List A → List A
  sort_desc [] = []
  sort_desc (x ∷ xs) = insert_desc x (sort_desc xs)

  -- Each key is smaller than those before it.
  abbrev pub Descending : List A → Type 0
  Descending [] = Unit
  Descending (x ∷ xs) = All (λ y. key y < key x) xs × Descending xs

  abbrev pub has_key : ℕ → List A → Bool
  has_key k [] = false
  has_key k (x ∷ xs) = k == key x || has_key k xs

  -- No key stands twice.
  abbrev pub DistinctKeys : List A → Type 0
  DistinctKeys [] = Unit
  DistinctKeys (x ∷ xs) = (has_key (key x) xs ≡ false) × DistinctKeys xs

  All-insert_desc :
      (P : A → Type 0) (x : A) (xs : List A) → P x → All P xs → All P (insert_desc x xs)
  unfolding insert_desc
  All-insert_desc P x [] p h = (p, tt)
  All-insert_desc P x (y ∷ ys) p h = elim (Bool-cases (leb (key y) (key x))) [
    | inl le ↦ rw le (p, h)
    | inr gt ↦ rw gt (h.0, All-insert_desc P x ys p h.1)
  ]

  has_key-insert_desc :
      (k : ℕ) (x : A) (xs : List A) → has_key k (insert_desc x xs) ≡ (k == key x || has_key k xs)
  unfolding insert_desc
  has_key-insert_desc k x [] = refl
  has_key-insert_desc k x (y ∷ ys) = ground (arith, has_key-insert_desc k x ys)

  pub has_key-sort_desc : (k : ℕ) (xs : List A) → has_key k (sort_desc xs) ≡ has_key k xs
  unfolding sort_desc
  has_key-sort_desc k [] = refl
  has_key-sort_desc k (x ∷ xs) =
      ground (arith, has_key-insert_desc k x (sort_desc xs), has_key-sort_desc k xs)

  All-lt : (m n : ℕ) (xs : List A) → m < n → All (λ y. key y < m) xs → All (λ y. key y < n) xs
  All-lt m n [] l h = tt
  All-lt m n (x ∷ xs) l h = (omega arith, All-lt m n xs l h.1)

  insert_desc-Descending :
      (x : A) (xs : List A)
      → has_key (key x) xs ≡ false
      → Descending xs
      → Descending (insert_desc x xs)
  unfolding insert_desc
  insert_desc-Descending x [] n d = (tt, tt)
  insert_desc-Descending x (y ∷ ys) n d = elim (Bool-cases (leb (key y) (key x))) [
    | inl le ↦
        let lt : key y < key x = ground arith in rw le ((lt, All-lt (key y) (key x) ys lt d.0), d)
    | inr gt ↦
        let lt : key x < key y = ground arith in
        rw gt (
          All-insert_desc (λ z. key z < key y) x ys lt d.0,
          insert_desc-Descending x ys (ground arith) d.1,
        )
  ]

  -- A list of distinct keys is sorted strictly.
  pub sort_desc-Descending : (xs : List A) → DistinctKeys xs → Descending (sort_desc xs)
  unfolding sort_desc
  sort_desc-Descending [] h = tt
  sort_desc-Descending (x ∷ xs) h =
      insert_desc-Descending x (sort_desc xs) (rw (has_key-sort_desc (key x) xs) h.0)
        (sort_desc-Descending xs h.1)

  insert_desc-perm : (x : A) (xs : List A) → Perm (insert_desc x xs) (x ∷ xs)
  unfolding insert_desc
  insert_desc-perm x [] = Perm.refl (x ∷ [])
  insert_desc-perm x (y ∷ ys) = elim (Bool-cases (leb (key y) (key x))) [
    | inl le ↦ rw le (Perm.refl (x ∷ y ∷ ys))
    | inr gt ↦ rw gt (Perm.trans (Perm.cons y (insert_desc-perm x ys)) (Perm.swap x y ys))
  ]

  -- Sorting loses nothing and adds nothing.
  pub sort_desc-perm : (xs : List A) → Perm (sort_desc xs) xs
  unfolding sort_desc
  sort_desc-perm [] = Perm.refl []
  sort_desc-perm (x ∷ xs) =
      Perm.trans (insert_desc-perm x (sort_desc xs)) (Perm.cons x (sort_desc-perm xs))

  pub All-sort_desc : (P : A → Type 0) (xs : List A) → All P xs → All P (sort_desc xs)
  unfolding sort_desc
  All-sort_desc P [] h = tt
  All-sort_desc P (x ∷ xs) h = All-insert_desc P x (sort_desc xs) h.0 (All-sort_desc P xs h.1)

  length-insert_desc : (x : A) (xs : List A) → length (insert_desc x xs) ≡ suc (length xs)
  unfolding insert_desc
  length-insert_desc x [] = refl
  length-insert_desc x (y ∷ ys) = ground (arith, length-insert_desc x ys)

  pub length-sort_desc : (xs : List A) → length (sort_desc xs) ≡ length xs
  unfolding sort_desc
  length-sort_desc [] = refl
  length-sort_desc (x ∷ xs) =
      omega (arith, length-insert_desc x (sort_desc xs), length-sort_desc xs)
