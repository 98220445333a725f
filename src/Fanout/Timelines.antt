-- ===== src/Fanout/Timelines.antt =====
-- What the worker does to the home timelines.
use yaxter.Common.{
  ℕ, ◌<◌, ◌≡◌, refl, sym, ap, ◌∙◌, false, not, ◌&&◌, ◌||◌, none, some, List, [], ◌∷◌, ◌++◌, leb,
  ◌==◌, if◌then◌else◌, length, take, filter, contains, All, arith, Bool-cases, inl, inr, Result, ok,
}
use yaxter.Common.Int.{pos, ltb_ℤ}
use yaxter.Common.Sort.{sort_desc, DistinctKeys, has_key, has_key-sort_desc, sort_desc-Descending}
use yaxter.Redis.{Lists, Item, number, is_item, Command, Pipe, ran, run_commands, exec}
use yaxter.Users.{User, find_id}
use yaxter.Fanout.{
  Ended, Env, key, tl_cap, follower_page, followers_of, each_follower_page, push_commands,
  remove_commands, fanout_create, fanout_delete, delete_of,
}
use yaxter.Fanout.Pages.{Acts, each_follower_page-run}
use yaxter.Fanout.Commands.{
  run-append, pushed, removed, push_commands-append, remove_commands-append, push_nil, remove_nil,
}

module _ {L : Type 0} (r : Lists L) where
  has_key-contains : (i : ℕ) (xs : List ℕ) → has_key key i xs ≡ contains i xs
  has_key-contains i [] = refl
  has_key-contains i (x ∷ xs) = ap (λ b. i == x || b) (has_key-contains i xs)

  contains-sorted : (i : ℕ) (xs : List ℕ) → contains i (sort_desc key xs) ≡ contains i xs
  contains-sorted i xs =
      sym (has_key-contains i (sort_desc key xs))
      ∙ has_key-sort_desc key i xs
      ∙ has_key-contains i xs

  -- The queries and the pipelines of the call are answered; the followers of the author are
  -- distinct, with positive ids.
  pub record Calm (e : Env) (author : ℕ) : Type 0 where
    pub pages : (n : ℕ) → e.page_fails n ≡ false
    pub pipes : (n : ℕ) → e.pipe n ≡ ran
    pub distinct : DistinctKeys key (followers_of author e.followers)
    pub positive : All (λ z. 0 < z) (followers_of author e.followers)

  -- The commands of a call, whatever the pages are.
  acts :
      (commands : List ℕ → List Command) (pipe : ℕ → Pipe)
      → (commands [] ≡ [])
      → ((xs ys : List ℕ) → commands (xs ++ ys) ≡ commands xs ++ commands ys)
      → ((n : ℕ) → pipe n ≡ ran)
      → Acts (λ n page. exec r (pipe n) (commands page)) (λ page. run_commands r (commands page))
  unfolding exec run_commands
  acts commands pipe nil app all = record {
    succeeds = λ n page l. rw (all n) refl;
    run_nil = λ l. rw nil refl;
    run_append = λ xs ys l. rw (app xs ys) (run-append r (commands xs) (commands ys) l);
  }

  -- The call has succeeded, and each list is changed in the given way.
  abbrev pub Fanned : (ℕ → List Item → List Item) → L → Ended L → Type 0
  Fanned change l none = ⊥
  Fanned change l (some (result, l')) =
      (result ≡ ok tt) × ((i : ℕ) → r.lrange i l' ≡ change i (r.lrange i l))

  pages-eq :
      (commands : List ℕ → List Command) (fuel : ℕ) (e : Env) (author : ℕ) (l : L)
      → Calm e author
      → Acts (λ n page. exec r (e.pipe n) (commands page)) (λ page. run_commands r (commands page))
      → length (followers_of author e.followers) < fuel
      → each_follower_page
          (λ n page. exec r (e.pipe n) (commands page))
          fuel
          e.page_fails
          0
          follower_page
          0
          (followers_of author e.followers)
          l
        ≡ some
            (ok tt, run_commands r (commands (sort_desc key (followers_of author e.followers))) l)
  pages-eq commands fuel e author l v a h =
      let fn : ℕ → List ℕ → L → Result (Unit {0}) (Unit {0}) × L =
        λ n page. exec r (e.pipe n) (commands page) in
      ap
        (λ fails.
          each_follower_page fn fuel fails 0 follower_page 0 (followers_of author e.followers) l)
        (λ i n. v.pages n i)
      ∙ each_follower_page-run fn (λ page. run_commands r (commands page)) fuel follower_page
          (followers_of author e.followers) l a (omega arith) v.distinct v.positive h

  -- The fan-out of a new tweet, when every call is answered: the loop over the pages ends, and the
  -- tweet comes first in the timeline of every follower of an author below the celebrity threshold,
  -- which is cut to 800 entries; every other timeline, and all of them for a celebrity, stay as
  -- they are. The followers are
  -- distinct, with positive ids, and one round more than there are followers is enough.
  pub fanout_create-Fanned :
      (fuel : ℕ) (e : Env) (threshold tweet author count : ℕ) (l : L)
      → Calm e author
      → length (followers_of author e.followers) < fuel
      → Fanned
          (λ i old.
            if not (leb threshold count) && contains i (followers_of author e.followers)
            then take tl_cap (number tweet ∷ old)
            else old)
          l
          (fanout_create r fuel e threshold tweet author count l)
  unfolding fanout_create
  fanout_create-Fanned fuel e threshold tweet author count l v h =
      elim (Bool-cases (leb threshold count)) [
        | inl celebrity ↦ rw celebrity (refl, λ i. refl)
        | inr below ↦
            let fs = followers_of author e.followers in
            let a =
              acts (push_commands tweet) e.pipe (push_nil tweet) (push_commands-append tweet)
                v.pipes in
            rw (below, pages-eq (push_commands tweet) fuel e author l v a h)
              (
                refl,
                λ i.
                    pushed r tweet i (sort_desc key fs) l (sort_desc-Descending key fs v.distinct)
                    ∙ ap
                        (λ b. if b then take tl_cap (number tweet ∷ r.lrange i l) else r.lrange i l)
                        (contains-sorted i fs),
              )
      ]

  -- The removal of a deleted tweet, when every call is answered and the author exists: it leaves the
  -- timelines of the followers of an author below the celebrity threshold without the tweet, and changes no other timeline. The followers are distinct, with positive ids, and one round
  -- more than there are followers is given.
  pub fanout_delete-Fanned :
      (fuel : ℕ) (e : Env) (threshold tweet author : ℕ) (u : User) (l : L)
      → Calm e author
      → e.author_fails ≡ false
      → find_id author e.users ≡ some u
      → length (followers_of author e.followers) < fuel
      → Fanned
          (λ i old.
            if ltb_ℤ u.followers_count (pos threshold)
              && contains i (followers_of author e.followers)
            then filter (λ y. not (is_item tweet y)) old
            else old)
          l
          (fanout_delete r fuel e threshold tweet author l)
  unfolding fanout_delete delete_of
  fanout_delete-Fanned fuel e threshold tweet author u l v answers found h =
      rw (answers, found)
        (elim (Bool-cases (ltb_ℤ u.followers_count (pos threshold))) [
          | inr celebrity ↦ rw celebrity (refl, λ i. refl)
          | inl below ↦
              let fs = followers_of author e.followers in
              let a =
                acts (remove_commands tweet) e.pipe (remove_nil tweet)
                  (remove_commands-append tweet) v.pipes in
              rw (below, pages-eq (remove_commands tweet) fuel e author l v a h)
                (
                  refl,
                  λ i.
                      removed r tweet i (sort_desc key fs) l
                        (sort_desc-Descending key fs v.distinct)
                      ∙ ap
                          (λ b.
                            if b
                            then filter (λ y. not (is_item tweet y)) (r.lrange i l)
                            else r.lrange i l)
                          (contains-sorted i fs),
                )
        ])
