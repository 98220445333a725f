-- ===== src/Timeline/Scroll.antt =====
-- A reader who scrolls through a fixed list of ids sees every tweet that is still there, once.
use yaxter.Common.{
  ℕ, zero, suc, ◌≤◌, ◌<◌, ◌≡◌, refl, sym, ap, ◌∙◌, true, false, not, ◌&&◌, Option, none, some, List,
  [], ◌∷◌, ◌++◌, leb, ◌==◌, length, length-drop, take-append-drop, take, drop, filter, All, arith,
  Bool-cases, inl, inr, Result, ok, err,
}
use mathlib.Core.Path.{subst}
use yaxter.Common.Sort.{Descending}
use yaxter.Paging.{before, last_key}
use yaxter.Paging.Client.{collect, collect-page}
use yaxter.Paging.Walk.{next_rows, filter_first}
use yaxter.Timeline.{Error, id_key}
use yaxter.Timeline.Hydrate.{Got, got, missing, failure, hydrated, hydrate, hydrate_page}
use yaxter.Timeline.Visible.{
  Answer, visible_of, visible, visible-filter, visible-Descending, positive-visible,
}

module _ {T : Type 0} (key : T → ℕ) (get : ℕ → Got T) where
  -- The page ends with a cursor at its last tweet when it is full, and else is all there is.
  abbrev Page : ℕ → List T → Result Error (List T × Option ℕ) → Type 0
  Page limit all (err e) = ⊥
  Page limit all (ok (ts, none)) = (ts ≡ all) × (length ts ≤ limit)
  Page limit all (ok (ts, some c)) =
      (ts ≡ take limit all) × (limit ≤ length all) × (c ≡ last_key key (take limit all))

  take-append : (xs ys : List T) → take (length xs) (xs ++ ys) ≡ xs
  take-append [] ys = refl
  take-append (x ∷ xs) ys = ap (λ r. x ∷ r) (take-append xs ys)

  append_snoc : (xs ys : List T) (x : T) → (xs ++ x ∷ []) ++ ys ≡ xs ++ x ∷ ys
  append_snoc [] ys x = refl
  append_snoc (y ∷ xs) ys x = ap (λ r. y ∷ r) (append_snoc xs ys x)

  length-snoc : (xs : List T) (x : T) → length (xs ++ x ∷ []) ≡ suc (length xs)
  length-snoc [] x = refl
  length-snoc (y ∷ xs) x = ap suc (length-snoc xs x)

  hydrated-Page :
      (limit : ℕ) (out rest : List T) (again : List T → Result Error (List T × Option ℕ)) (id : ℕ)
      (o : Got T)
      → Answer key get id o
      → ((out' : List T) → length out' ≤ limit → Page limit (out' ++ rest) (again out'))
      → length out < limit
      → Page limit (out ++ visible_of key get o rest) (hydrated key get again out o)
  hydrated-Page limit out rest again id missing a h l = h out (omega arith)
  hydrated-Page limit out rest again id failure a h l = absurd a
  hydrated-Page limit out rest again id (got t) a h l =
      subst (λ all. Page limit all (again (out ++ t ∷ []))) (append_snoc out rest t)
        (h (out ++ t ∷ []) (omega (arith, length-snoc out t)))

  append-nil : (xs : List T) → xs ++ [] ≡ xs
  append-nil [] = refl
  append-nil (x ∷ xs) = ap (λ r. x ∷ r) (append-nil xs)

  length-append-ge : (xs ys : List T) → length xs ≤ length (xs ++ ys)
  length-append-ge [] ys = omega arith
  length-append-ge (x ∷ xs) ys = omega (arith, length-append-ge xs ys)

  hydrate-Page :
      (limit cursor : ℕ) (out : List T) (ids : List ℕ)
      → ((id : ℕ) → Answer key get id (get id))
      → length out ≤ limit
      → Page limit
          (out ++ visible key get (filter (before id_key cursor) ids))
          (hydrate key get limit cursor out ids)
  unfolding hydrate
  hydrate-Page limit cursor out [] a l = (sym (append-nil out), l)
  hydrate-Page limit cursor out (id ∷ ids) a l =
      let rest = visible key get (filter (before id_key cursor) ids) in
      elim (Bool-cases (not (cursor == 0) && leb cursor id)) [
        | inl skip ↦
            let out' : before id_key cursor id ≡ false = ground arith in
            rw (skip, out') (hydrate-Page limit cursor out ids a l)
        | inr keep ↦
            let in' : before id_key cursor id ≡ true = ground arith in
            rw (keep, in')
              (elim (Bool-cases (length out == limit)) [
                | inl full ↦
                    let same : limit ≡ length out = ground arith in
                    let all = visible_of key get (get id) rest in
                    let cut : out ≡ take limit (out ++ all) =
                      sym (ap (λ n. take n (out ++ all)) same ∙ take-append out all) in
                    rw full
                      (cut, omega (arith, length-append-ge out all, same), ap (last_key key) cut)
                | inr room ↦ rw room (
                    hydrated-Page limit out rest (λ o. hydrate key get limit cursor o ids) id
                      (get id) (a id) (λ o m. hydrate-Page limit cursor o ids a m) (ground arith))
              ])
      ]

  -- What is left from a cursor on.
  abbrev left : ℕ → List ℕ → List T
  left c ids = filter (before key c) (visible key get ids)

  step :
      (f c m : ℕ) (ids : List ℕ) (page : ℕ → Result Error (List T × Option ℕ))
      → (r : Result Error (List T × Option ℕ)) → page c ≡ r
      → Page (suc m) (left c ids) r
      → Descending key (visible key get ids)
      → All (λ t. 0 < key t) (visible key get ids)
      → length (left c ids) < suc f
      → ((c' : ℕ) → length (left c' ids) < f → collect f c' page ≡ ok (left c' ids))
      → collect (suc f) c page ≡ ok (left c ids)
  step f c m ids page (err e) q p d pos h ih = absurd p
  step f c m ids page (ok (ts, none)) q p d pos h ih =
      collect-page f c page ts none q ∙ ap (λ xs. ok xs) p.0
  step f c m ids page (ok (ts, some c')) q p d pos h ih =
      let all = left c ids in
      let next = next_rows key c m (visible key get ids) d pos p.1 in
      let rest : left c' ids ≡ drop (suc m) all = ap (λ n. left n ids) p.2 ∙ next in
      let fewer : length (left c' ids) < f =
        rw rest (omega (arith, length-drop (suc m) all, p.1)) in
      collect-page f c page ts (some c') q
      ∙ rw (ih c' fewer) (
          ap (λ xs. ok xs)
            (ap (λ r. ts ++ r) rest
              ∙ ap (λ r. r ++ drop (suc m) all) p.0
              ∙ take-append-drop (suc m) all))

  scroll :
      (f c m : ℕ) (ids : List ℕ)
      → ((id : ℕ) → Answer key get id (get id))
      → Descending id_key ids
      → length (left c ids) < f
      → collect f c (λ c'. hydrate_page key get (suc m) c' ids) ≡ ok (left c ids)
  unfolding hydrate_page
  scroll zero c m ids a d h = absurd (omega arith)
  scroll (suc f) c m ids a d h =
      let page : ℕ → Result Error (List T × Option ℕ) = λ c'. hydrate_page key get (suc m) c' ids in
      let shape : Page (suc m) (left c ids) (page c) =
        subst (λ all. Page (suc m) all (page c)) (visible-filter key get c ids a)
          (hydrate-Page (suc m) c [] ids a (omega arith)) in
      step f c m ids page (page c) refl shape (visible-Descending key get ids a d)
        (positive-visible key get ids a) h (λ c' l. scroll f c' m ids a d l)

  -- Scrolling through the pages of `hydratePage` over a strictly descending list of ids gives every
  -- tweet of the list that was not deleted, each once and newest first, whatever the page size is
  -- and wherever the deleted ones stand: every answer is a tweet of the id that was asked for or says
  -- that there is none, and ids
  -- and the page size are positive. One request more than there are such tweets is enough.
  pub hydrate_page-collect :
      (limit : ℕ) (ids : List ℕ)
      → ((id : ℕ) → Answer key get id (get id))
      → 0 < limit
      → Descending id_key ids
      → collect (suc (length (visible key get ids))) 0 (λ c. hydrate_page key get limit c ids)
        ≡ ok (visible key get ids)
  hydrate_page-collect zero ids a l d = absurd (omega arith)
  hydrate_page-collect (suc m) ids a l d =
      let all = filter_first key (visible key get ids) in
      scroll (suc (length (visible key get ids))) 0 m ids a d (rw all (omega arith))
      ∙ ap (λ xs. ok xs) all
