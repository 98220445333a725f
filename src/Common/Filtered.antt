-- ===== src/Common/Filtered.antt =====
-- Filtered lists, sorted.
use yaxter.Common.{
  ℕ, suc, zero, ◌+◌, ◌≤◌, ◌<◌, ◌≡◌, refl, ap, ◌∙◌, length, Bool, false, not, ◌||◌, List, [], ◌∷◌,
  if◌then◌else◌, filter, take, drop, map, contains, All, arith, Bool-cases, inl, inr,
}
use yaxter.Common.Sort.{
  insert_desc, sort_desc, Descending, DistinctKeys, sort_desc-Descending, has_key,
  has_key-sort_desc, length-sort_desc, All-sort_desc,
}

module _ {A : Type 0} (key : A → ℕ) where
  insert_desc-front :
      (x : A) (k : ℕ) (zs : List A)
      → k ≤ key x
      → All (λ z. key z < k) zs
      → insert_desc key x zs ≡ x ∷ zs
  unfolding insert_desc
  insert_desc-front x k [] l h = refl
  insert_desc-front x k (z ∷ zs) l h = ground arith

  pub All-filter : (P : A → Type 0) (p : A → Bool) (xs : List A) → All P xs → All P (filter p xs)
  All-filter P p [] h = tt
  All-filter P p (x ∷ xs) h = elim (Bool-cases (p x)) [
    | inl keep ↦ rw keep (h.0, All-filter P p xs h.1)
    | inr drop ↦ rw drop (All-filter P p xs h.1)
  ]

  filter-insert_desc :
      (p : A → Bool) (x : A) (ys : List A)
      → Descending key ys
      → filter p (insert_desc key x ys)
        ≡ (if p x then insert_desc key x (filter p ys) else filter p ys)
  unfolding insert_desc
  filter-insert_desc p x [] d = refl
  filter-insert_desc p x (y ∷ ys) d = ground (
    arith,
    filter-insert_desc p x ys d.1,
    insert_desc-front x (key y) (filter p ys),
    All-filter (λ z. key z < key y) p ys d.0,
  )

  pub has_key-filter :
      (p : A → Bool) (k : ℕ) (xs : List A)
      → has_key key k xs ≡ false
      → has_key key k (filter p xs) ≡ false
  has_key-filter p k [] h = refl
  has_key-filter p k (x ∷ xs) h = ground (arith, has_key-filter p k xs)

  -- Sorting and filtering commute.
  pub filter-sort_desc :
      (p : A → Bool) (xs : List A)
      → DistinctKeys key xs
      → sort_desc key (filter p xs) ≡ filter p (sort_desc key xs)
  unfolding sort_desc
  filter-sort_desc p [] h = refl
  filter-sort_desc p (x ∷ xs) h =
      let sorted = sort_desc-Descending key xs h.1 in
      let rest = filter-sort_desc p xs h.1 in
      elim (Bool-cases (p x)) [
        | inl keep ↦ rw (filter-insert_desc p x (sort_desc key xs) sorted, keep, sort_desc, rest)
        | inr drop ↦ rw (filter-insert_desc p x (sort_desc key xs) sorted, drop, rest)
      ]

  abbrev reverse_onto : List A → List A → List A
  reverse_onto [] acc = acc
  reverse_onto (x ∷ xs) acc = reverse_onto xs (x ∷ acc)

  -- `ORDER BY key`
  unfoldable pub sort_asc : List A → List A
  sort_asc xs = reverse_onto (sort_desc key xs) []

  abbrev pub Ascending : List A → Type 0
  Ascending [] = Unit
  Ascending (x ∷ xs) = All (λ y. key x < key y) xs × Ascending xs

  abbrev Above : List A → List A → Type 0
  Above xs acc = All (λ y. All (λ x. key x < key y) xs) acc

  Above-tail :
      (x : A) (xs acc : List A) → Above (x ∷ xs) acc → All (λ y. key x < key y) acc × Above xs acc
  Above-tail x xs [] h = (tt, tt)
  Above-tail x xs (y ∷ ys) h = let (l, r) = Above-tail x xs ys h.1 in ((h.0.0, l), (h.0.1, r))

  reverse_onto-Ascending :
      (xs acc : List A)
      → Descending key xs
      → Ascending acc
      → Above xs acc
      → Ascending (reverse_onto xs acc)
  reverse_onto-Ascending [] acc d a h = a
  reverse_onto-Ascending (x ∷ xs) acc d a h =
      let (l, r) = Above-tail x xs acc h in reverse_onto-Ascending xs (x ∷ acc) d.1 (l, a) (d.0, r)

  pub sort_asc-Ascending : (xs : List A) → DistinctKeys key xs → Ascending (sort_asc xs)
  unfolding sort_asc
  sort_asc-Ascending xs d =
      reverse_onto-Ascending (sort_desc key xs) [] (sort_desc-Descending key xs d) tt tt

  length-reverse_onto : (xs acc : List A) → length (reverse_onto xs acc) ≡ length xs + length acc
  length-reverse_onto [] acc = omega arith
  length-reverse_onto (x ∷ xs) acc = omega (arith, length-reverse_onto xs (x ∷ acc))

  pub length-sort_asc : (xs : List A) → length (sort_asc xs) ≡ length xs
  unfolding sort_asc
  length-sort_asc xs =
      omega (arith, length-reverse_onto (sort_desc key xs) [], length-sort_desc key xs)

  has_key-reverse_onto :
      (k : ℕ) (xs acc : List A)
      → has_key key k (reverse_onto xs acc) ≡ (has_key key k xs || has_key key k acc)
  has_key-reverse_onto k [] acc = refl
  has_key-reverse_onto k (x ∷ xs) acc = ground (arith, has_key-reverse_onto k xs (x ∷ acc))

  pub has_key-sort_asc : (k : ℕ) (xs : List A) → has_key key k (sort_asc xs) ≡ has_key key k xs
  unfolding sort_asc
  has_key-sort_asc k xs =
      ground (arith, has_key-reverse_onto k (sort_desc key xs) [], has_key-sort_desc key k xs)

  filter-reverse_onto :
      (p : A → Bool) (xs acc : List A)
      → filter p (reverse_onto xs acc) ≡ reverse_onto (filter p xs) (filter p acc)
  filter-reverse_onto p [] acc = refl
  filter-reverse_onto p (x ∷ xs) acc = elim (Bool-cases (p x)) [
    | inl keep ↦ rw (keep, filter-reverse_onto p xs (x ∷ acc)) (rw keep refl)
    | inr drop ↦ rw (drop, filter-reverse_onto p xs (x ∷ acc)) (rw drop refl)
  ]

  pub filter-sort_asc :
      (p : A → Bool) (xs : List A)
      → DistinctKeys key xs
      → sort_asc (filter p xs) ≡ filter p (sort_asc xs)
  unfolding sort_asc
  filter-sort_asc p xs d =
      rw (filter-sort_desc p xs d, filter-reverse_onto p (sort_desc key xs) []) refl

  -- Without the rows whose key is among the given ones.
  abbrev pub without : List ℕ → A → Bool
  without ids x = not (contains (key x) ids)

  filter-none : (xs : List A) → filter (without []) xs ≡ xs
  filter-none [] = refl
  filter-none (x ∷ xs) = ap (λ r. x ∷ r) (filter-none xs)

  filter-past :
      (k : ℕ) (ids : List ℕ) (xs : List A)
      → All (λ y. k < key y) xs
      → filter (without (k ∷ ids)) xs ≡ filter (without ids) xs
  filter-past k ids [] h = refl
  filter-past k ids (x ∷ xs) h = ground (arith, filter-past k ids xs h.1, h.0)

  -- Without its first rows, an ascending list is its rest.
  pub filter-without-take :
      (n : ℕ) (xs : List A) → Ascending xs → filter (without (map key (take n xs))) xs ≡ drop n xs
  filter-without-take zero xs a = filter-none xs
  filter-without-take (suc n) [] a = refl
  filter-without-take (suc n) (x ∷ xs) a =
      let out : without (key x ∷ map key (take n xs)) x ≡ false = ground arith in
      rw out (filter-past (key x) (map key (take n xs)) xs a.0 ∙ filter-without-take n xs a.1)

  All-reverse_onto :
      (P : A → Type 0) (xs acc : List A) → All P xs → All P acc → All P (reverse_onto xs acc)
  All-reverse_onto P [] acc h a = a
  All-reverse_onto P (x ∷ xs) acc h a = All-reverse_onto P xs (x ∷ acc) h.1 (h.0, a)

  pub All-sort_asc : (P : A → Type 0) (xs : List A) → All P xs → All P (sort_asc xs)
  unfolding sort_asc
  All-sort_asc P xs h = All-reverse_onto P (sort_desc key xs) [] (All-sort_desc key P xs h) tt

  pub DistinctKeys-filter :
      (p : A → Bool) (xs : List A) → DistinctKeys key xs → DistinctKeys key (filter p xs)
  DistinctKeys-filter p [] d = tt
  DistinctKeys-filter p (x ∷ xs) d = elim (Bool-cases (p x)) [
    | inl keep ↦ rw keep (has_key-filter p (key x) xs d.0, DistinctKeys-filter p xs d.1)
    | inr drop ↦ rw drop (DistinctKeys-filter p xs d.1)
  ]
