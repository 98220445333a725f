-- ===== src/Timeline/Profile.antt =====
-- A reader who pages through a profile.
use yaxter.Common.{
  ℕ, zero, suc, ◌+◌, ◌<◌, ◌≡◌, refl, sym, ap, ◌∙◌, false, Option, none, some, List, [], ◌∷◌, ◌++◌,
  length, All, Result, ok,
}
use yaxter.Common.Sort.{sort_desc, DistinctKeys}
use yaxter.Paging.{query, cut_page}
use yaxter.Paging.Client.{collect, collect-page, after}
use yaxter.Paging.Walk.{walk, walk-page, after_page, walk-eq-sort_desc}
use yaxter.Timeline.{Error, Db, id_key}
use yaxter.Timeline.Hydrate.{Got, got, missing, failure, of_author, fetched, fetch_all, profile}
use yaxter.Timeline.Visible.{visible, visible_of, Answer}
use yaxter.Users.{User, find_username}

module _ {T : Type 0} (key : T → ℕ) (get : ℕ → Got T) where
  fetched-visible_of :
      (id : ℕ) (o : Got T) (rest : List T)
      → Answer key get id o
      → fetched key get o (ok rest) ≡ ok (visible_of key get o rest)
  fetched-visible_of id missing rest a = refl
  fetched-visible_of id failure rest a = absurd a
  fetched-visible_of id (got t) rest a = refl

  fetch_all-visible :
      (ids : List ℕ)
      → ((id : ℕ) → Answer key get id (get id))
      → fetch_all key get ids ≡ ok (visible key get ids)
  unfolding fetch_all
  fetch_all-visible [] a = refl
  fetch_all-visible (id ∷ ids) a =
      ap (λ r. fetched key get (get id) r) (fetch_all-visible ids a)
      ∙ fetched-visible_of id (get id) (visible key get ids) (a id)

  visible_of-append :
      (o : Got T) (xs ys : List T) → visible_of key get o (xs ++ ys) ≡ visible_of key get o xs ++ ys
  visible_of-append missing xs ys = refl
  visible_of-append failure xs ys = refl
  visible_of-append (got t) xs ys = refl

  visible-append :
      (xs ys : List ℕ) → visible key get (xs ++ ys) ≡ visible key get xs ++ visible key get ys
  visible-append [] ys = refl
  visible-append (id ∷ xs) ys =
      ap (visible_of key get (get id)) (visible-append xs ys)
      ∙ visible_of-append (get id) (visible key get xs) (visible key get ys)

  module _ (name limit : ℕ) (db : Db) (u : User) where
    abbrev page : ℕ → Result Error (List T × Option ℕ)
    page c = profile key get false false name c limit db

    abbrev rows : List ℕ
    rows = of_author u.id db.tweets

    page-visible :
        (c : ℕ)
        → find_username name db.users ≡ some u
        → ((id : ℕ) → Answer key get id (get id))
        → let p = cut_page id_key limit (query id_key c (limit + 1) rows) in
          page c ≡ ok (visible key get p.0, p.1)
    unfolding profile
    page-visible c found a =
        let p = cut_page id_key limit (query id_key c (limit + 1) rows) in
        rw found (rw (fetch_all-visible p.0 a) refl)

    after-visible :
        (f : ℕ) (ids : List ℕ) (o : Option ℕ)
        → ((c : ℕ) → collect f c page ≡ ok (visible key get (walk id_key f c limit rows)))
        → after f page (visible key get ids, o)
          ≡ ok (visible key get (after_page id_key f limit rows (ids, o)))
    after-visible f ids none h = refl
    after-visible f ids (some c) h =
        rw (h c) (ap (λ xs. ok xs) (sym (visible-append ids (walk id_key f c limit rows))))

    pages-walk :
        (f c : ℕ)
        → find_username name db.users ≡ some u
        → ((id : ℕ) → Answer key get id (get id))
        → collect f c page ≡ ok (visible key get (walk id_key f c limit rows))
    unfolding collect walk
    pages-walk zero c found a = refl
    pages-walk (suc f) c found a =
        let p = cut_page id_key limit (query id_key c (limit + 1) rows) in
        collect-page f c page (visible key get p.0) p.1 (page-visible c found a)
        ∙ after-visible f p.0 p.1 (λ c'. pages-walk f c' found a)
        ∙ ap (λ xs. ok (visible key get xs)) (sym (walk-page id_key f c limit rows p refl))

  -- Paging through a profile gives every tweet of its user that was not deleted, each once and newest
  -- first, whatever the page size is: the user exists, the queries are answered, every answer for an
  -- id is a tweet of that id or says that there is none, and ids are distinct and
  -- positive, as is the page size.
  pub profile-collect :
      (name limit : ℕ) (db : Db) (u : User)
      → find_username name db.users ≡ some u
      → ((id : ℕ) → Answer key get id (get id))
      → 0 < limit
      → DistinctKeys id_key (of_author u.id db.tweets)
      → All (λ n. 0 < n) (of_author u.id db.tweets)
      → collect
          (suc (length (of_author u.id db.tweets)))
          0
          (λ c. profile key get false false name c limit db)
        ≡ ok (visible key get (sort_desc id_key (of_author u.id db.tweets)))
  profile-collect name limit db u found a l d p =
      let ids = of_author u.id db.tweets in
      pages-walk name limit db u (suc (length ids)) 0 found a
      ∙ ap (λ xs. ok (visible key get xs)) (walk-eq-sort_desc id_key limit ids l d p)
