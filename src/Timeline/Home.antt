-- ===== src/Timeline/Home.antt =====
-- The ids of the home timeline.
use yaxter.Common.{
  ℕ, ◌≡◌, refl, ap, ◌∙◌, Bool, false, ◌||◌, List, [], ◌∷◌, ◌++◌, ◌==◌, if◌then◌else◌, length,
  contains, contains-append, arith, Bool-cases, inl, inr, Result, ok, err, Result-cases, is_ok,
  is_err,
}
use mathlib.Core.Path.{subst}
use yaxter.Common.Sort.{Descending}
use yaxter.Redis.{Lists}
use yaxter.Timeline.{
  Db, Error, Env, State, Sets, id_key, parse_ids, merge_desc, rebuilt_ids, rebuild, warmed,
  followed_celebrities, streams, merged, with_celebrities, with_timeline, home_ids,
}
use yaxter.Timeline.Merge.{merge_desc-Descending}

module _ {L C : Type 0} (r : Lists L) (c : Sets C) where
  -- Whether a stream of one of the given celebrities has the id.
  abbrev pub in_streams : ℕ → List ℕ → L → Bool
  in_streams i [] l = false
  in_streams i (x ∷ xs) l = contains i (parse_ids (r.lrange x l)) || in_streams i xs l

  streams-contains :
      (fails : ℕ → Bool) (xs : List ℕ) (l : L) (ids : List ℕ) (i : ℕ)
      → streams r c fails xs l ≡ ok ids
      → contains i ids ≡ in_streams i xs l
  unfolding streams
  streams-contains fails [] l ids i h = let none' : [] ≡ ids = ground arith in rw (← none') refl
  streams-contains fails (x ∷ xs) l ids i h = elim (Bool-cases (fails x)) [
    | inl bad ↦ absurd (ground arith)
    | inr good ↦ elim (Result-cases (streams r c fails xs l)) [
      | is_err e q ↦ absurd (ground arith)
      | is_ok rest q ↦
          let all : parse_ids (r.lrange x l) ++ rest ≡ ids = ground arith in
          rw (← all) (
            contains-append i (parse_ids (r.lrange x l)) rest
            ∙ ap (λ b. contains i (parse_ids (r.lrange x l)) || b)
                (streams-contains fails xs l rest i q))
    ]
  ]

  -- What the merge gives from its parts.
  abbrev Merged : List ℕ → List ℕ → L → List ℕ → Type 0
  Merged base cs l ids =
      Descending id_key ids × ((i : ℕ) → contains i ids ≡ (contains i base || in_streams i cs l))

  merged-Merged :
      (fails : ℕ → Bool) (base cs ids : List ℕ) (l : L)
      → merged r c base (streams r c fails cs l) ≡ ok ids
      → Merged base cs l ids
  unfolding merged
  merged-Merged fails base cs ids l h = elim (Result-cases (streams r c fails cs l)) [
    | is_err e q ↦ absurd (ground arith)
    | is_ok more q ↦
        let all : merge_desc (base ++ more) ≡ ids = ground arith in
        let (d, same) = merge_desc-Descending (base ++ more) in
        rw (← all) (
          d,
          λ i.
              same i
              ∙ contains-append i base more
              ∙ ap (λ b. contains i base || b) (streams-contains fails cs l more i q),
        )
  ]

  -- The ids of the fan-out list, or those that are rebuilt when it is empty.
  abbrev base_of : ℕ → ℕ → Db → State L C → List ℕ
  base_of threshold uid db s =
      if length (r.lrange uid s.tl) == 0
      then rebuilt_ids threshold uid db
      else parse_ids (r.lrange uid s.tl)

  with_celebrities-Merged :
      (e : Env) (base ids : List ℕ) (p : Result Error (List ℕ) × State L C) (s' : State L C)
      → with_celebrities r c e base p ≡ (ok ids, s')
      → (cs : List ℕ) × (p ≡ (ok cs, s')) × Merged base cs s'.utl ids
  unfolding with_celebrities
  with_celebrities-Merged e base ids (err x, s) s' h = absurd (ground (arith, ap (λ q. q.0) h))
  with_celebrities-Merged e base ids (ok cs, s) s' h =
      let same : s ≡ s' = ap (λ q. q.1) h in
      let m = merged-Merged e.utl_fails base cs ids s.utl (ap (λ q. q.0) h) in
      (cs, ap (λ x. (ok cs, x)) same, subst (λ x. Merged base cs x.utl ids) same m)

  warmed-ok :
      (ids base : List ℕ) (s s1 : State L C) (q : Result (Unit {0}) (Unit {0}) × L)
      → warmed r c ids s q ≡ (ok base, s1)
      → base ≡ ids
  unfolding warmed
  warmed-ok ids base s s1 (ok done, l) h = ground (arith, ap (λ q. q.0) h)
  warmed-ok ids base s s1 (err x, l) h = absurd (ground (arith, ap (λ q. q.0) h))

  nil-length : (xs : List ℕ) → length xs ≡ 0 → [] ≡ xs
  nil-length [] h = refl
  nil-length (x ∷ xs) h = absurd (omega arith)

  ok-inj :
      (xs ys : List ℕ) (s s1 : State L C)
      (h : Path (Result Error (List ℕ) × State L C) (ok xs, s) (ok ys, s1))
      → ys ≡ xs
  ok-inj xs ys s s1 h = ground (arith, ap (λ q. q.0) h)

  rebuild-ok :
      (e : Env) (threshold uid : ℕ) (db : Db) (base : List ℕ) (s s1 : State L C)
      → rebuild r c e threshold uid db s ≡ (ok base, s1)
      → base ≡ rebuilt_ids threshold uid db
  unfolding rebuild
  rebuild-ok e threshold uid db base s s1 h =
      let ids = rebuilt_ids threshold uid db in
      elim (Bool-cases e.rebuild_fails) [
        | inl fails ↦ absurd (ground (arith, ap (λ q. q.0) h))
        | inr answers ↦ elim (Bool-cases (length ids == 0)) [
          | inl empty ↦
              ok-inj [] base s s1 (rw (answers, empty) at h) ∙ nil-length ids (ground arith)
          | inr some' ↦ warmed-ok ids base s s1 _ (rw (answers, some') at h)
        ]
      ]

  -- What `homeIDs` merges for a reader who gets an answer.
  abbrev pub Answered : ℕ → Env → ℕ → Db → State L C → List ℕ → State L C → Type 0
  Answered threshold e uid db s ids s' =
      (cs : List ℕ) × (s1 : State L C) × (followed_celebrities r c e threshold uid db s1
        ≡ (ok cs, s'))
      × Merged (base_of threshold uid db s) cs s'.utl ids

  with_timeline-Answered :
      (e : Env) (threshold uid : ℕ) (db : Db) (s s' : State L C) (ids : List ℕ)
      → (p : Result Error (List ℕ) × State L C)
      → ((base : List ℕ) (s1 : State L C) → p ≡ (ok base, s1) → base ≡ base_of threshold uid db s)
      → with_timeline r c e threshold uid db p ≡ (ok ids, s')
      → Answered threshold e uid db s ids s'
  unfolding with_timeline
  with_timeline-Answered e threshold uid db s s' ids (err x, s1) b h =
      absurd (ground (arith, ap (λ q. q.0) h))
  with_timeline-Answered e threshold uid db s s' ids (ok base, s1) b h =
      let (cs, q, m) =
        with_celebrities-Merged e base ids (followed_celebrities r c e threshold uid db s1) s' h in
      (cs, s1, q, subst (λ xs. Merged xs cs s'.utl ids) (b base s1 refl) m)

  -- When `homeIDs` succeeds, its ids are strictly descending, so each stands only once, and they are
  -- exactly those of the reader's fan-out list, or of the rebuilt list when that is empty, together
  -- with those of the streams of the followed celebrities.
  pub home_ids-Answered :
      (e : Env) (threshold uid : ℕ) (db : Db) (s s' : State L C) (ids : List ℕ)
      → home_ids r c e threshold uid db s ≡ (ok ids, s')
      → Answered threshold e uid db s ids s'
  unfolding home_ids followed_celebrities rebuild
  home_ids-Answered e threshold uid db s s' ids h = elim (Bool-cases e.tl_fails) [
    | inl fails ↦ absurd (ground (arith, ap (λ q. q.0) h))
    | inr answers ↦ elim (Bool-cases (length (r.lrange uid s.tl) == 0)) [
      | inl empty ↦
          with_timeline-Answered e threshold uid db s s' ids (rebuild r c e threshold uid db s)
            (λ base s1 q. rebuild-ok e threshold uid db base s s1 q ∙ rw empty refl)
            (rw (answers, empty) at h)
      | inr warm ↦
          with_timeline-Answered e threshold uid db s s' ids (ok (parse_ids (r.lrange uid s.tl)), s)
            (λ base s1 q. ok-inj (parse_ids (r.lrange uid s.tl)) base s s1 q ∙ rw warm refl)
            (rw (answers, warm) at h)
    ]
  ]
