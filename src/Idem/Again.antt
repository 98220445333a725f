-- ===== src/Idem/Again.antt =====
-- Duplicates that run the handler again: one that asked for the record too early, and one that finds
-- the lock expired.
use yaxter.Common.{ℕ, ◌≡◌, refl, ◌∙◌, false, none, List, [], ◌∷◌, arith}
use yaxter.Common.Decimal.{Text}
use yaxter.Redis.{answered}
use yaxter.Idem.Http.{Response, new_writer, sent, Action}
use yaxter.Idem.{
  Record, Recorder, act_all, record_of, Request, Store, getting, claiming, handling, storing,
  unlocking, done, begin, found, claimed, handled, step,
}
use yaxter.Idem.Exclusion.{Event, goes, expires, holders, starting, moves, move, late}

-- The first request takes the lock, which expires, and then the second one goes on.
abbrev pub slow : ℕ → List Event
slow k = goes 0 answered ∷ goes 0 answered ∷ expires k ∷ goes 1 answered ∷ goes 1 answered ∷ []

module _ {A S : Type 0} (r : Store S) (handler : ℕ → A → List Action × A) (content_type : ℕ)
    (error_body : Text → Text → Text) where
  ran : Request → A → Recorder
  ran q a =
      act_all (handler q.payload a).0
        (record { writer = new_writer q.header; status = 0; buf = [] })

  after : Request → ℕ → A → S → S
  after q k a s = r.unlock k (r.set k (record_of (ran q a)) (r.lock k s))

  step-misses :
      (q : Request) (k : ℕ) (a : A) (s : S)
      → r.find k s ≡ none
      → step r handler content_type error_body answered q (getting k) (a, s) ≡ (claiming k, a, s)
  unfolding step found
  step-misses q k a s absent = rw absent refl

  step-claims :
      (q : Request) (k : ℕ) (a : A) (s : S)
      → r.locked k s ≡ false
      → step r handler content_type error_body answered q (claiming k) (a, s)
        ≡ (handling k, a, r.lock k s)
  unfolding step claimed
  step-claims q k a s free = rw free refl

  step-runs :
      (q : Request) (k : ℕ) (a : A) (s : S)
      → step r handler content_type error_body answered q (handling k) (a, s)
        ≡ (storing k (record_of (ran q a)) (sent (ran q a).writer), (handler q.payload a).1, s)
  unfolding step handled ran
  step-runs q k a s = refl

  step-stores :
      (q : Request) (k : ℕ) (x : Record) (res : Response) (a : A) (s : S)
      → step r handler content_type error_body answered q (storing k x res) (a, s)
        ≡ (unlocking k res, a, r.set k x s)
  unfolding step
  step-stores q k x res a s = refl

  step-frees :
      (q : Request) (k : ℕ) (res : Response) (a : A) (s : S)
      → step r handler content_type error_body answered q (unlocking k res) (a, s)
        ≡ (done res, a, r.unlock k s)
  unfolding step
  step-frees q k res a s = refl

  after-free : (q : Request) (k : ℕ) (a : A) (s : S) → r.locked k (after q k a s) ≡ false
  unfolding after
  after-free q k a s = r.locked_unlock k k _ ∙ ground arith

  -- Every command of Redis is answered, and the handler has run twice all the same, for
  -- two requests of one key that had no record and no lock: nothing asks for the record again once
  -- the lock is taken.
  pub moves-twice :
      (k : ℕ) (q q' : Request) (a : A) (s : S)
      → begin r handler content_type error_body q ≡ getting k
      → begin r handler content_type error_body q' ≡ getting k
      → r.find k s ≡ none
      → r.locked k s ≡ false
      → (moves r handler content_type error_body late
          (starting r handler content_type error_body (q ∷ q' ∷ []))
          a
          s).1
        ≡ (handler q'.payload (handler q.payload a).1).1
  unfolding moves move after
  moves-twice k q q' a s b b' absent free =
      let a₁ = (handler q.payload a).1 in
      let x = record_of (ran q a) in
      let res = sent (ran q a).writer in
      rw
        (
          b,
          b',
          step-misses q' k a s absent,
          step-misses q k a s absent,
          step-claims q k a s free,
          step-runs q k a (r.lock k s),
          step-stores q k x res a₁ (r.lock k s),
          step-frees q k res a₁ (r.set k x (r.lock k s)),
          step-claims q' k a₁ (after q k a s) (after-free q k a s),
          step-runs q' k a₁ (r.lock k (after q k a s)),
        )
        refl

  -- Every command is answered, and two requests of one key are at work at the same time, when the lock of
  -- the first one expires before its handler has returned: the second one finds no record and takes
  -- the lock again.
  pub moves-expired :
      (k : ℕ) (q q' : Request) (a : A) (s : S)
      → begin r handler content_type error_body q ≡ getting k
      → begin r handler content_type error_body q' ≡ getting k
      → r.find k s ≡ none
      → r.locked k s ≡ false
      → holders k
          (moves r handler content_type error_body
            (slow k)
            (starting r handler content_type error_body (q ∷ q' ∷ []))
            a
            s).0
        ≡ 2
  unfolding moves move
  moves-expired k q q' a s b b' absent free =
      let s₁ = r.unlock k (r.lock k s) in
      let absent' : r.find k s₁ ≡ none =
        r.find_unlock k k (r.lock k s) ∙ (r.find_lock k k s ∙ absent) in
      let free' : r.locked k s₁ ≡ false = r.locked_unlock k k (r.lock k s) ∙ ground arith in
      rw
        (
          b,
          b',
          step-misses q k a s absent,
          step-claims q k a s free,
          step-misses q' k a s₁ absent',
          step-claims q' k a s₁ free',
        )
        (ground arith)
