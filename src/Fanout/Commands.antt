-- ===== src/Fanout/Commands.antt =====
-- The commands that the worker sends, and what they do to one list.
use yaxter.Common.{
  ℕ, ◌<◌, ◌≡◌, refl, sym, ap, ◌∙◌, true, false, not, List, [], ◌∷◌, ◌++◌, ◌==◌, if◌then◌else◌, take,
  filter, contains, All, arith, Bool-cases, inl, inr,
}
use yaxter.Common.Sort.{Descending}
use yaxter.Redis.{
  Lists, number, is_item, Command, lpush_command, ltrim_command, lrem_command, run_commands,
}
use yaxter.Fanout.{key, tl_cap, push_commands, remove_commands}

module _ {L : Type 0} (r : Lists L) where
  pub run-append :
      (xs ys : List Command) (l : L)
      → run_commands r (xs ++ ys) l ≡ run_commands r ys (run_commands r xs l)
  unfolding run_commands
  run-append [] ys l = refl
  run-append (c ∷ xs) ys l = run-append xs ys _

pub push_commands-append :
    (tweet : ℕ) (xs ys : List ℕ)
    → push_commands tweet (xs ++ ys) ≡ push_commands tweet xs ++ push_commands tweet ys
unfolding push_commands
push_commands-append tweet [] ys = refl
push_commands-append tweet (x ∷ xs) ys =
    ap (λ cs. lpush_command x tweet ∷ ltrim_command x tl_cap ∷ cs)
      (push_commands-append tweet xs ys)

pub remove_commands-append :
    (tweet : ℕ) (xs ys : List ℕ)
    → remove_commands tweet (xs ++ ys) ≡ remove_commands tweet xs ++ remove_commands tweet ys
unfolding remove_commands
remove_commands-append tweet [] ys = refl
remove_commands-append tweet (x ∷ xs) ys =
    ap (λ cs. lrem_command x tweet ∷ cs) (remove_commands-append tweet xs ys)

refl-eq : (f : ℕ) → (f == f) ≡ true
refl-eq f = ground arith

pub push_nil : (tweet : ℕ) → push_commands tweet [] ≡ []
unfolding push_commands
push_nil tweet = refl

pub remove_nil : (tweet : ℕ) → remove_commands tweet [] ≡ []
unfolding remove_commands
remove_nil tweet = refl

-- No follower stands twice in a descending list.
past : (k : ℕ) (xs : List ℕ) → All (λ y. y < k) xs → contains k xs ≡ false
past k [] h = refl
past k (x ∷ xs) h = ground (arith, past k xs h.1, h.0)

module _ {L : Type 0} (r : Lists L) where
  lpush_own : (tweet f : ℕ) (l : L) → r.lrange f (r.lpush f tweet l) ≡ number tweet ∷ r.lrange f l
  lpush_own tweet f l = r.lrange_lpush f f tweet l ∙ rw (refl-eq f) refl

  -- One follower's two commands.
  pushed_one :
      (tweet i f : ℕ) (l : L)
      → r.lrange i (r.ltrim f tl_cap (r.lpush f tweet l))
        ≡ (if i == f then take tl_cap (number tweet ∷ r.lrange i l) else r.lrange i l)
  pushed_one tweet i f l = elim (Bool-cases (i == f)) [
    | inl this ↦
        let same : i ≡ f = ground arith in
        r.lrange_ltrim i f tl_cap (r.lpush f tweet l)
        ∙ rw this (
            ap (take tl_cap) (lpush_own tweet f l)
            ∙ ap (λ j. take tl_cap (number tweet ∷ r.lrange j l)) (sym same))
    | inr other ↦
        r.lrange_ltrim i f tl_cap (r.lpush f tweet l)
        ∙ rw other (r.lrange_lpush i f tweet l ∙ rw other refl)
  ]

  pub pushed :
      (tweet i : ℕ) (fs : List ℕ) (l : L)
      → Descending key fs
      → r.lrange i (run_commands r (push_commands tweet fs) l)
        ≡ (if contains i fs then take tl_cap (number tweet ∷ r.lrange i l) else r.lrange i l)
  unfolding run_commands push_commands
  pushed tweet i [] l d = refl
  pushed tweet i (f ∷ fs) l d =
      let l1 = r.ltrim f tl_cap (r.lpush f tweet l) in
      let rest = pushed tweet i fs l1 d.1 in
      elim (Bool-cases (i == f)) [
        | inl this ↦
            let same : i ≡ f = ground arith in
            let out : contains i fs ≡ false = ap (λ j. contains j fs) same ∙ past f fs d.0 in
            let one : r.lrange i l1 ≡ take tl_cap (number tweet ∷ r.lrange i l) =
              pushed_one tweet i f l ∙ rw this refl in
            rest ∙ rw (out, this) one
        | inr other ↦
            let one : r.lrange i l1 ≡ r.lrange i l = pushed_one tweet i f l ∙ rw other refl in
            rest ∙ rw (other, one) refl
      ]

  pub removed :
      (tweet i : ℕ) (fs : List ℕ) (l : L)
      → Descending key fs
      → r.lrange i (run_commands r (remove_commands tweet fs) l) ≡ (
          if contains i fs
          then filter (λ y. not (is_item tweet y)) (r.lrange i l)
          else r.lrange i l)
  unfolding run_commands remove_commands
  removed tweet i [] l d = refl
  removed tweet i (f ∷ fs) l d =
      let l1 = r.lrem f tweet l in
      let rest = removed tweet i fs l1 d.1 in
      elim (Bool-cases (i == f)) [
        | inl this ↦
            let same : i ≡ f = ground arith in
            let out : contains i fs ≡ false = ap (λ j. contains j fs) same ∙ past f fs d.0 in
            let one : r.lrange i l1 ≡ filter (λ y. not (is_item tweet y)) (r.lrange i l) =
              r.lrange_lrem i f tweet l
              ∙ rw this (ap (λ j. filter (λ y. not (is_item tweet y)) (r.lrange j l)) (sym same)) in
            rest ∙ rw (out, this) one
        | inr other ↦
            let one : r.lrange i l1 ≡ r.lrange i l = r.lrange_lrem i f tweet l ∙ rw other refl in
            rest ∙ rw (other, one) refl
      ]
