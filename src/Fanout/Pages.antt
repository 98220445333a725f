-- ===== src/Fanout/Pages.antt =====
-- The paging loop visits every follower exactly once, and comes to an end.
use yaxter.Common.{
  ℕ, zero, suc, ◌+◌, ◌≤◌, ◌<◌, ◌≡◌, refl, sym, ap, ◌∙◌, false, some, List, [], ◌∷◌, ◌++◌, ltb,
  ltb→lt, ◌==◌, if◌then◌else◌, length, length-take, length-drop, take, drop, take-append-drop,
  filter, All, arith, Bool-cases, inl, inr, Result, ok,
}
use yaxter.Common.Sort.{
  sort_desc, DistinctKeys, sort_desc-Descending, All-sort_desc, length-sort_desc,
}
use yaxter.Paging.{last_key, before}
use yaxter.Paging.Walk.{next_rows, query-take, filter_first}
use yaxter.Fanout.{Ended, key, after_page, on_page, each_follower_page}

module _ {L : Type 0} (fn : ℕ → List ℕ → L → Result (Unit {0}) (Unit {0}) × L)
    (run : List ℕ → L → L) where
  -- `fn` succeeds, and acts on each follower by itself.
  pub record Acts : Type 0 where
    pub succeeds : (n : ℕ) (page : List ℕ) (l : L) → fn n page l ≡ (ok tt, run page l)
    pub run_nil : (l : L) → run [] l ≡ l
    pub run_append : (xs ys : List ℕ) (l : L) → run (xs ++ ys) l ≡ run ys (run xs l)

  -- The rest of a page that is not empty.
  on_page-cons :
      (n size : ℕ) (page : List ℕ) (again : L → Ended L) (l : L)
      → Acts
      → 0 < length page
      → on_page fn n page again size l
        ≡ (if ltb (length page) size then some (ok tt, run page l) else again (run page l))
  unfolding on_page after_page
  on_page-cons n size [] again l a h = absurd (omega arith)
  on_page-cons n size (x ∷ xs) again l a h = rw (a.succeeds n (x ∷ xs) l) refl

  take-all : (n : ℕ) (xs : List ℕ) → length xs ≤ n → take n xs ≡ xs
  take-all zero [] h = refl
  take-all zero (x ∷ xs) h = absurd (omega arith)
  take-all (suc n) [] h = refl
  take-all (suc n) (x ∷ xs) h = ap (λ r. x ∷ r) (take-all n xs (omega arith))

  nil-length : (xs : List ℕ) → length xs ≡ 0 → xs ≡ []
  nil-length [] h = refl
  nil-length (x ∷ xs) h = absurd (omega arith)

  -- What is left to visit from a cursor on.
  abbrev left : ℕ → List ℕ → List ℕ
  left c rows = filter (before key c) (sort_desc key rows)

  -- The rows that a full page leaves.
  left-next :
      (m c : ℕ) (rows : List ℕ)
      → DistinctKeys key rows
      → All (λ z. 0 < z) (sort_desc key rows)
      → suc m ≤ length (take (suc m) (left c rows))
      → left (last_key key (take (suc m) (left c rows))) rows ≡ drop (suc m) (left c rows)
  left-next m c rows d p large =
      next_rows key c m (sort_desc key rows) (sort_desc-Descending key rows d) p
        (omega (arith, length-take (suc m) (left c rows)))

  -- A page and what follows it.
  run-page :
      (m c : ℕ) (rows : List ℕ) (l : L)
      → Acts
      → left (last_key key (take (suc m) (left c rows))) rows ≡ drop (suc m) (left c rows)
      → run
          (left (last_key key (take (suc m) (left c rows))) rows)
          (run (take (suc m) (left c rows)) l)
        ≡ run (left c rows) l
  run-page m c rows l a next =
      let all = left c rows in
      ap (λ xs. run xs (run (take (suc m) all) l)) next
      ∙ sym (a.run_append (take (suc m) all) (drop (suc m) all) l)
      ∙ ap (λ xs. run xs l) (take-append-drop (suc m) all)

  pages-run :
      (fuel n m c : ℕ) (rows : List ℕ) (l : L)
      → Acts
      → DistinctKeys key rows
      → All (λ z. 0 < z) (sort_desc key rows)
      → length (left c rows) < fuel
      → each_follower_page fn fuel (λ k. false) n (suc m) c rows l
        ≡ some (ok tt, run (left c rows) l)
  unfolding each_follower_page
  pages-run zero n m c rows l a d p h = absurd (omega arith)
  pages-run (suc fuel) n m c rows l a d p h =
      let all = left c rows in
      let page = take (suc m) all in
      let cursor = last_key key page in
      let again = each_follower_page fn fuel (λ k. false) (n + 1) (suc m) cursor rows in
      let cut = length-take (suc m) all in
      rw (query-take key c (suc m) rows d) (elim (Bool-cases (length all == 0)) [
        | inl done ↦
            rw (nil-length all (ground arith)) (ap (λ x. some (ok tt, x)) (sym (a.run_nil l)))
        | inr more ↦
            let some' : 0 < length all = ground arith in
            on_page-cons n (suc m) page again l a (omega (arith, cut, some'))
            ∙ elim (Bool-cases (ltb (length page) (suc m))) [
              | inl short ↦
                  let few : length all ≤ suc m = omega (arith, cut, ltb→lt _ _ short) in
                  rw short (ap (λ x. some (ok tt, run x l)) (take-all (suc m) all few))
              | inr full ↦
                  let next = left-next m c rows d p (ground arith) in
                  let fewer : length (left cursor rows) < fuel =
                    rw next (omega (arith, length-drop (suc m) all, some')) in
                  rw full (
                    pages-run fuel (n + 1) m cursor rows (run page l) a d p fewer
                    ∙ ap (λ x. some (ok tt, x)) (run-page m c rows l a next))
            ]
      ])

  -- If the queries are answered and the callback succeeds, the loop comes to its end and has called
  -- back for every follower exactly once, highest id first, whatever the page size is: the page size and the ids are positive,
  -- the ids distinct, and one round more than there are followers is enough.
  pub each_follower_page-run :
      (fuel size : ℕ) (rows : List ℕ) (l : L)
      → Acts
      → 0 < size
      → DistinctKeys key rows
      → All (λ z. 0 < z) rows
      → length rows < fuel
      → each_follower_page fn fuel (λ k. false) 0 size 0 rows l
        ≡ some (ok tt, run (sort_desc key rows) l)
  each_follower_page-run fuel zero rows l a s d p h = absurd (omega arith)
  each_follower_page-run fuel (suc m) rows l a s d p h =
      let all = filter_first key (sort_desc key rows) in
      pages-run fuel 0 m 0 rows l a d (All-sort_desc key (λ z. 0 < z) rows p)
        (rw (all, length-sort_desc key rows) h)
      ∙ ap (λ xs. some (ok tt, run xs l)) all
