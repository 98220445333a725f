-- ===== src/Paging/Walk.antt =====
-- A client that follows the cursors from page to page sees every row exactly once, newest first.
use yaxter.Common.{
  ℕ, zero, suc, ◌+◌, ◌≤◌, ◌<◌, ◌≡◌, refl, sym, ap, ◌∙◌, Bool, true, false, Option, none, some, List,
  [], ◌∷◌, ◌++◌, ltb, ◌==◌, filter, take, drop, length, take-append-drop, All, arith, Bool-cases,
  ◌⊎◌, inl, inr, length-take, length-drop, tests, ltb→lt,
}
use yaxter.Common.Sort.{
  sort_desc, Descending, DistinctKeys, sort_desc-Descending, All-sort_desc, length-sort_desc,
}
use yaxter.Common.Filtered.{All-filter, filter-sort_desc}
use native.Mathlib.Numerals.{add-one}
use yaxter.Paging.{before, query, last_key, cut_page}

module _ {A : Type 0} (key : A → ℕ) where
  -- All rows that a client gets from the cursor on, with at most so many requests.
  unfoldable pub walk : ℕ → ℕ → ℕ → List A → List A
  walk zero cursor limit rows = []
  walk (suc f) cursor limit rows =
      let page = cut_page key limit (query key cursor (limit + 1) rows) in
      elim page.1 [ none ↦ page.0 | some c ↦ page.0 ++ walk f c limit rows ]

  -- The last key of a page is below every bound of its rows, and above 0.
  last_key-bounds :
      (k m : ℕ) (y : A) (ys : List A)
      → All (λ z. key z < k) (y ∷ ys)
      → All (λ z. 0 < key z) (y ∷ ys)
      → (last_key key (take (suc m) (y ∷ ys)) < k) × (0 < last_key key (take (suc m) (y ∷ ys)))
  last_key-bounds k zero y ys h p = (h.0, p.0)
  last_key-bounds k (suc m) y [] h p = (h.0, p.0)
  last_key-bounds k (suc m) y (z ∷ zs) h p = last_key-bounds k m z zs h.1 p.1

  filter-All : (p : A → Bool) (xs : List A) → All (λ x. p x ≡ true) xs → filter p xs ≡ xs
  filter-All p [] h = refl
  filter-All p (x ∷ xs) h = rw h.0 (ap (λ r. x ∷ r) (filter-All p xs h.1))

  All-before : (c : ℕ) (xs : List A) → All (λ z. key z < c) xs → All (λ z. before key c z ≡ true) xs
  All-before c [] h = tt
  All-before c (x ∷ xs) h = (ground arith, All-before c xs h.1)

  -- Past the last key of the first rows stand the other rows.
  filter-before :
      (m : ℕ) (xs : List A)
      → Descending key xs
      → All (λ z. 0 < key z) xs
      → suc m ≤ length xs
      → filter (before key (last_key key (take (suc m) xs))) xs ≡ drop (suc m) xs
  filter-before m [] d p l = absurd (omega arith)
  filter-before zero (x ∷ xs) d p l =
      let out : before key (key x) x ≡ false = ground arith in
      rw out (filter-All (before key (key x)) xs (All-before (key x) xs d.0))
  filter-before (suc m) (x ∷ []) d p l = absurd (omega arith)
  filter-before (suc m) (x ∷ y ∷ ys) d p l =
      let (lt, pos) = last_key-bounds (key x) m y ys d.0 p.1 in
      let out : before key (last_key key (take (suc m) (y ∷ ys))) x ≡ false = ground arith in
      rw out (filter-before m (y ∷ ys) d.1 p.1 (omega arith))

  -- A later cursor leaves a part of what an earlier one leaves.
  filter-filter :
      (c c' : ℕ) (xs : List A)
      → (c ≡ 0) ⊎ (c' ≤ c)
      → 0 < c'
      → filter (before key c') (filter (before key c) xs) ≡ filter (before key c') xs
  filter-filter c c' [] h p = refl
  filter-filter c c' (x ∷ xs) h p = ground (arith, filter-filter c c' xs h p)

  Descending-filter :
      (p : A → Bool) (xs : List A) → Descending key xs → Descending key (filter p xs)
  Descending-filter p [] d = tt
  Descending-filter p (x ∷ xs) d = elim (Bool-cases (p x)) [
    | inl keep ↦ rw keep (All-filter key (λ z. key z < key x) p xs d.0, Descending-filter p xs d.1)
    | inr drop ↦ rw drop (Descending-filter p xs d.1)
  ]

  All-below : (c : ℕ) (xs : List A) → 0 < c → All (λ z. key z < c) (filter (before key c) xs)
  All-below c [] p = tt
  All-below c (x ∷ xs) p = elim (Bool-cases (before key c x)) [
    | inl keep ↦ rw keep (ground arith, All-below c xs p)
    | inr drop ↦ rw drop (All-below c xs p)
  ]

  take-take : (n : ℕ) (xs : List A) → take n (take (suc n) xs) ≡ take n xs
  take-take zero xs = refl
  take-take (suc n) [] = refl
  take-take (suc n) (x ∷ xs) = ap (λ r. x ∷ r) (take-take n xs)

  take-all : (n : ℕ) (xs : List A) → length xs ≤ n → take n xs ≡ xs
  take-all zero [] h = refl
  take-all zero (x ∷ xs) h = absurd (omega arith)
  take-all (suc n) [] h = refl
  take-all (suc n) (x ∷ xs) h = ap (λ r. x ∷ r) (take-all n xs (omega arith))

  -- The two outcomes of the cut of `limit + 1` rows.
  cut_page-more :
      (n : ℕ) (xs : List A)
      → n < length xs
      → cut_page key n (take (suc n) xs) ≡ (take n xs, some (last_key key (take n xs)))
  unfolding cut_page
  cut_page-more n xs h =
      let more : ltb n (length (take (suc n) xs)) ≡ true = omega (tests, length-take (suc n) xs) in
      rw (more, take-take n xs)

  cut_page-last :
      (n : ℕ) (xs : List A) → length xs ≤ n → cut_page key n (take (suc n) xs) ≡ (xs, none)
  unfolding cut_page
  cut_page-last n xs h = let all = take-all (suc n) xs (omega arith) in rw all (ground arith)

  -- The query, in terms of the sorted rows.
  pub query-take :
      (c n : ℕ) (rows : List A)
      → DistinctKeys key rows
      → query key c n rows ≡ take n (filter (before key c) (sort_desc key rows))
  unfolding query
  query-take c n rows d = rw (filter-sort_desc key (before key c) rows d) refl

  query-filter :
      (c n : ℕ) (rows : List A)
      → DistinctKeys key rows
      → query key c (n + 1) rows ≡ take (suc n) (filter (before key c) (sort_desc key rows))
  unfolding query
  query-filter c n rows d = rw (add-one n, filter-sort_desc key (before key c) rows d)

  last_key-pos :
      (m : ℕ) (y : A) (ys : List A)
      → All (λ z. 0 < key z) (y ∷ ys)
      → 0 < last_key key (take (suc m) (y ∷ ys))
  last_key-pos zero y ys p = p.0
  last_key-pos (suc m) y [] p = p.0
  last_key-pos (suc m) y (z ∷ zs) p = last_key-pos m z zs p.1

  -- The next cursor is not 0, and not past the one before it.
  next_bounds :
      (c m : ℕ) (xs : List A)
      → (c ≡ 0) ⊎ All (λ z. key z < c) xs
      → All (λ z. 0 < key z) xs
      → 0 < length xs
      → let c' = last_key key (take (suc m) xs) in ((c ≡ 0) ⊎ (c' ≤ c)) × (0 < c')
  next_bounds c m [] b p h = absurd (omega arith)
  next_bounds c m (y ∷ ys) (inl first) p h = (inl first, last_key-pos m y ys p)
  next_bounds c m (y ∷ ys) (inr below) p h =
      let (lt, pos) = last_key-bounds c m y ys below p in (inr (omega arith), pos)

  -- The rest of a page is what its cursor leaves.
  pub next_rows :
      (c m : ℕ) (s : List A)
      → Descending key s
      → All (λ z. 0 < key z) s
      → let rows = filter (before key c) s in
        suc m ≤ length rows
        → filter (before key (last_key key (take (suc m) rows))) s ≡ drop (suc m) rows
  next_rows c m s d p h =
      let rows = filter (before key c) s in
      let d' = Descending-filter (before key c) s d in
      let p' = All-filter key (λ z. 0 < key z) (before key c) s p in
      let cut = filter-before m rows d' p' h in
      let below : (c ≡ 0) ⊎ All (λ z. key z < c) rows = elim (Bool-cases (c == 0)) [
        | inl first ↦ inl (ground arith)
        | inr later ↦ inr (All-below c s (ground arith))
      ] in
      let bound = next_bounds c m rows below p' (omega arith) in
      sym (filter-filter c (last_key key (take (suc m) rows)) s bound.0 bound.1) ∙ cut

  -- What a client does with a page.
  abbrev pub after_page : ℕ → ℕ → List A → List A × Option ℕ → List A
  after_page f n rows page = elim page.1 [ none ↦ page.0 | some c ↦ page.0 ++ walk f c n rows ]

  pub walk-page :
      (f c n : ℕ) (rows : List A) (page : List A × Option ℕ)
      → cut_page key n (query key c (n + 1) rows) ≡ page
      → walk (suc f) c n rows ≡ after_page f n rows page
  unfolding walk
  walk-page f c n rows page e = ap (after_page f n rows) e

  walk-filter :
      (f c m : ℕ) (rows : List A)
      → DistinctKeys key rows
      → All (λ z. 0 < key z) (sort_desc key rows)
      → length (filter (before key c) (sort_desc key rows)) < f
      → walk f c (suc m) rows ≡ filter (before key c) (sort_desc key rows)
  walk-filter zero c m rows d p h = absurd (omega arith)
  walk-filter (suc f) c m rows d p h =
      let s = sort_desc key rows in
      let left = filter (before key c) s in
      let sorted = sort_desc-Descending key rows d in
      elim (Bool-cases (ltb (suc m) (length left))) [
        | inr last ↦
            let short : length left ≤ suc m = ground arith in
            walk-page f c (suc m) rows (left, none)
              (ap (cut_page key (suc m)) (query-filter c (suc m) rows d)
                ∙ cut_page-last (suc m) left short)
        | inl more ↦
            let c' = last_key key (take (suc m) left) in
            let next = next_rows c m s sorted p (omega (arith, ltb→lt _ _ more)) in
            let smaller : length (filter (before key c') s) < f =
              rw next (omega (arith, length-drop (suc m) left, ltb→lt _ _ more)) in
            let rest = walk-filter f c' m rows d p smaller in
            walk-page f c (suc m) rows (take (suc m) left, some c')
              (ap (cut_page key (suc m)) (query-filter c (suc m) rows d)
                ∙ cut_page-more (suc m) left (ltb→lt _ _ more))
            ∙ ap (λ r. take (suc m) left ++ r) (rest ∙ next)
            ∙ take-append-drop (suc m) left
      ]

  pub filter_first : (xs : List A) → filter (before key 0) xs ≡ xs
  filter_first [] = refl
  filter_first (x ∷ xs) = ap (λ r. x ∷ r) (filter_first xs)

  -- Following the cursors from the first page gives all rows, each once and newest first, whatever
  -- the page size is, if that and the ids are positive, and the ids distinct; one request more than there are rows is
  -- enough to come to the last page.
  pub walk-eq-sort_desc :
      (limit : ℕ) (rows : List A)
      → 0 < limit
      → DistinctKeys key rows
      → All (λ a. 0 < key a) rows
      → walk (suc (length rows)) 0 limit rows ≡ sort_desc key rows
  walk-eq-sort_desc zero rows h d p = absurd (omega arith)
  walk-eq-sort_desc (suc m) rows h d p =
      let all = filter_first (sort_desc key rows) in
      walk-filter (suc (length rows)) 0 m rows d (All-sort_desc key (λ a. 0 < key a) rows p)
        (rw (all, length-sort_desc key rows) (omega arith))
      ∙ all
