-- ===== src/Paging/Client.antt =====
-- A client of a paged endpoint, which follows the cursor of each answer until there is none.
use yaxter.Common.{
  ℕ, zero, suc, ◌+◌, ◌<◌, ◌≡◌, refl, ap, sym, ◌∙◌, Option, none, some, List, [], ◌++◌, Result, ok,
  ◌>>=◌, length, All,
}
use yaxter.Common.Sort.{sort_desc, DistinctKeys}
use yaxter.Paging.{query, cut_page}
use yaxter.Paging.Walk.{walk, walk-page, after_page, walk-eq-sort_desc}

module _ {E A : Type 0} where
  -- All items from the cursor on, with at most so many requests.
  unfoldable pub collect : ℕ → ℕ → (ℕ → Result E (List A × Option ℕ)) → Result E (List A)
  collect zero cursor page = ok []
  collect (suc f) cursor page = page cursor >>= λ p. elim p.1 [
    | none ↦ ok p.0
    | some c ↦ collect f c page >>= λ rest. ok (p.0 ++ rest)
  ]

  abbrev pub after : ℕ → (ℕ → Result E (List A × Option ℕ)) → List A × Option ℕ → Result E (List A)
  after f page p = elim p.1 [
    | none ↦ ok p.0
    | some c ↦ collect f c page >>= λ rest. ok (p.0 ++ rest)
  ]

  pub collect-page :
      (f c : ℕ) (page : ℕ → Result E (List A × Option ℕ)) (items : List A) (o : Option ℕ)
      → page c ≡ ok (items, o)
      → collect (suc f) c page ≡ after f page (items, o)
  unfolding collect
  collect-page f c page items o h = rw h refl

  module _ (key : A → ℕ) (limit : ℕ) (rows : List A) (page : ℕ → Result E (List A × Option ℕ)) where
    abbrev Endpoint : Type 0
    Endpoint = (c : ℕ) → page c ≡ ok (cut_page key limit (query key c (limit + 1) rows))

    after-walk :
        (f : ℕ) (items : List A) (o : Option ℕ)
        → ((c : ℕ) → collect f c page ≡ ok (walk key f c limit rows))
        → after f page (items, o) ≡ ok (after_page key f limit rows (items, o))
    after-walk f items none h = refl
    after-walk f items (some c) h = rw (h c) refl

    collect-walk : (f c : ℕ) → Endpoint → collect f c page ≡ ok (walk key f c limit rows)
    unfolding collect walk
    collect-walk zero c h = refl
    collect-walk (suc f) c h =
        let p = cut_page key limit (query key c (limit + 1) rows) in
        collect-page f c page p.0 p.1 (h c)
        ∙ after-walk f p.0 p.1 (λ c'. collect-walk f c' h)
        ∙ ap (λ xs. ok xs) (sym (walk-page key f c limit rows p refl))

    -- An endpoint that never fails gives all rows, newest first.
    pub collect-sort_desc :
        Endpoint
        → 0 < limit
        → DistinctKeys key rows
        → All (λ a. 0 < key a) rows
        → collect (suc (length rows)) 0 page ≡ ok (sort_desc key rows)
    collect-sort_desc h l d p =
        collect-walk (suc (length rows)) 0 h
        ∙ ap (λ xs. ok xs) (walk-eq-sort_desc key limit rows l d p)
