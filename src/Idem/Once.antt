-- ===== src/Idem/Once.antt =====
-- Requests one after the other, with a Redis that answers: the middleware is a map from keys to the
-- records of their first responses.
use yaxter.Common.{
  ℕ, ◌≡◌, refl, ap, ◌∙◌, false, not, ◌||◌, Option, none, some, List, [], ◌∷◌, ◌==◌, if◌then◌else◌,
  arith, Bool-cases, inl, inr, ltb,
}
use yaxter.Common.Decimal.{Text}
use yaxter.Events.{codes}
use yaxter.Redis.{answered}
use yaxter.Idem.Http.{Headers, new_writer, sent, Action, perform_all}
use yaxter.Idem.{
  Record, act_all, record_of, mutating, Request, Store, Phase, getting, claiming, passing, handling,
  storing, unlocking, done, panicked, write_json_error, replay, begin, found, claimed, handled,
  passed, step, wrap,
}
use yaxter.Idem.Recording.{new_recorder}

abbrev pub Done : Type 0
Done = ℕ → Option Record

abbrev pub put_done : ℕ → Record → Done → Done
put_done k x m j = if j == k then some x else m j

module _ {A S : Type 0} (r : Store S) (handler : ℕ → A → List Action × A) (content_type : ℕ)
    (error_body : Text → Text → Text) where
  -- What a request with the key does, by the record that the key has.
  abbrev pub spec_keyed : Request → ℕ → Option Record → A → Done → Phase × A × Done
  spec_keyed q k (some x) a m = (replay r handler content_type error_body q.header x, a, m)
  spec_keyed q k none a m =
      let (acts, a') = handler q.payload a in
      let rec = act_all acts (new_recorder q.header) in
      (done (sent rec.writer), a', put_done k (record_of rec) m)

  abbrev spec_begun : Request → Phase → A → Done → Phase × A × Done
  spec_begun q (getting k) a m = spec_keyed q k (m k) a m
  spec_begun q passing a m =
      let (acts, a') = handler q.payload a in
      (done (sent (perform_all acts (new_writer q.header))), a', m)
  spec_begun q p a m = (p, a, m)

  -- The abstract middleware: a request that is exempt runs its handler, one without a UUID is refused,
  -- the first one of a key runs its handler and is recorded, and every other one is replayed.
  unfoldable pub spec : Request → A → Done → Phase × A × Done
  spec q a m = spec_begun q (begin r handler content_type error_body q) a m

  -- The keys of Redis hold these records, and no lock.
  abbrev pub Holds : Done → S → Type 0
  Holds m s =
      (k : ℕ)
      → (r.find k s ≡ elim (m k) [ none ↦ none | some x ↦ some (some x) ]) × (r.locked k s ≡ false)

  abbrev Refines : Phase × A × Done → Phase × A × S → Type 0
  Refines (p, a, m) (p', a', s) = (p' ≡ p) × (a' ≡ a) × Holds m s

  -- A whole request from the GET on.
  four : Request → Phase × A × S → Phase × A × S
  four q x =
      let (p₁, a₁, s₁) = x in
      let (p₂, a₂, s₂) = step r handler content_type error_body answered q p₁ (a₁, s₁) in
      let (p₃, a₃, s₃) = step r handler content_type error_body answered q p₂ (a₂, s₂) in
      let (p₄, a₄, s₄) = step r handler content_type error_body answered q p₃ (a₃, s₃) in
      step r handler content_type error_body answered q p₄ (a₄, s₄)

  stored-Holds :
      (k : ℕ) (x : Record) (m : Done) (s : S)
      → Holds m s
      → Holds (put_done k x m) (r.unlock k (r.set k x (r.lock k s)))
  stored-Holds k x m s h j = elim (Bool-cases (j == k)) [
    | inl same ↦ rw same (
      r.find_unlock j k _ ∙ r.find_set j k x _ ∙ ground arith,
      r.locked_unlock j k _ ∙ ground arith,
    )
    | inr other ↦ rw other (
      r.find_unlock j k _ ∙ r.find_set j k x _ ∙ ground (arith, r.find_lock j k s) ∙ (h j).0,
      r.locked_unlock j k _
          ∙ ground (arith, r.locked_set j k x (r.lock k s), r.locked_lock j k s, h j),
    )
  ]

  abbrev IsFinal : Phase → Type 0
  IsFinal (done res) = Unit
  IsFinal panicked = Unit
  IsFinal p = ⊥

  four-final : (q : Request) (p : Phase) (a : A) (s : S) → IsFinal p → four q (p, a, s) ≡ (p, a, s)
  unfolding four step
  four-final q (done res) a s f = refl
  four-final q panicked a s f = refl
  four-final q (getting k) a s f = absurd f
  four-final q (claiming k) a s f = absurd f
  four-final q passing a s f = absurd f
  four-final q (handling k) a s f = absurd f
  four-final q (storing k x res) a s f = absurd f
  four-final q (unlocking k res) a s f = absurd f

  replay-IsFinal :
      (h : Headers) (x : Record) → IsFinal (replay r handler content_type error_body h x)
  unfolding replay
  replay-IsFinal h x = elim (Bool-cases (ltb x.status 100 || ltb 999 x.status)) [
    | inl bad ↦ rw bad tt
    | inr fine ↦ rw fine tt
  ]

  -- After a GET that found nothing, and a SETNX on a free lock.
  four-claims :
      (q : Request) (k : ℕ) (a : A) (m : Done) (s : S)
      → Holds m s
      → Refines (spec_keyed q k none a m) (four q (claiming k, a, s))
  unfolding four step claimed handled new_recorder
  four-claims q k a m s h = rw (h k).1 (refl, refl, stored-Holds k _ m s h)

  keyed-Refines :
      (q : Request) (k : ℕ) (o : Option Record) (a : A) (m : Done) (s : S)
      → Holds m s
      → Refines (spec_keyed q k o a m) (
          four q (
            found r handler content_type error_body q k
                (elim o [ none ↦ none | some x ↦ some (some x) ]),
            a,
            s,
          ))
  unfolding found
  keyed-Refines q k none a m s h = four-claims q k a m s h
  keyed-Refines q k (some x) a m s h =
      rw
        (four-final q (replay r handler content_type error_body q.header x) a s
          (replay-IsFinal q.header x))
        (refl, refl, h)

  abbrev IsBegun : Phase → Type 0
  IsBegun (getting k) = Unit
  IsBegun passing = Unit
  IsBegun (done res) = Unit
  IsBegun p = ⊥

  begin-IsBegun : (q : Request) → IsBegun (begin r handler content_type error_body q)
  unfolding begin
  begin-IsBegun q = elim (Bool-cases (not (mutating q.method) || q.skip)) [
    | inl exempt ↦ rw exempt tt
    | inr bound ↦ keyed q.key bound
  ]
    where
      keyed :
          (o : Option ℕ)
          → (not (mutating q.method) || q.skip) ≡ false
          → IsBegun (
              if not (mutating q.method) || q.skip then passing else elim o [
                | none ↦ done (
                    write_json_error r handler content_type error_body q.header 400
                      (codes "invalid_idempotency_key")
                      (codes "Idempotency-Key header must be a UUID"))
                | some k ↦ getting k
              ])
      keyed none e = rw e tt
      keyed (some k) e = rw e tt

  begun-Refines :
      (q : Request) (p : Phase) (a : A) (m : Done) (s : S)
      → IsBegun p
      → Holds m s
      → Refines
          (spec_begun q p a m)
          (four q (step r handler content_type error_body answered q p (a, s)))
  unfolding step passed
  begun-Refines q (getting k) a m s b h = rw (h k).0 (keyed-Refines q k (m k) a m s h)
  begun-Refines q passing a m s b h =
      rw
        (four-final q (done (sent (perform_all (handler q.payload a).0 (new_writer q.header))))
          (handler q.payload a).1 s tt)
        (refl, refl, h)
  begun-Refines q (done res) a m s b h = rw (four-final q (done res) a s tt) (refl, refl, h)
  begun-Refines q (claiming k) a m s b h = absurd b
  begun-Refines q panicked a m s b h = absurd b
  begun-Refines q (handling k) a m s b h = absurd b
  begun-Refines q (storing k x res) a m s b h = absurd b
  begun-Refines q (unlocking k res) a m s b h = absurd b

  wrap-four :
      (q : Request) (a : A) (s : S)
      → wrap r handler content_type error_body answered answered answered answered q (a, s)
        ≡ four q (
            step r handler content_type error_body answered q
              (begin r handler content_type error_body q)
              (a, s))
  unfolding wrap four
  wrap-four q a s = refl

  wrap-Refines :
      (q : Request) (a : A) (m : Done) (s : S)
      → Holds m s
      → Refines
          (spec q a m)
          (wrap r handler content_type error_body answered answered answered answered q (a, s))
  unfolding spec
  wrap-Refines q a m s h =
      rw (wrap-four q a s)
        (begun-Refines q (begin r handler content_type error_body q) a m s (begin-IsBegun q) h)

  -- Requests one after the other: what each ends with, and the state after them.
  unfoldable pub serve : List Request → A → S → List Phase × A × S
  serve [] a s = ([], a, s)
  serve (q ∷ qs) a s =
      let (p, a', s') =
        wrap r handler content_type error_body answered answered answered answered q (a, s) in
      let (ps, b, t) = serve qs a' s' in (p ∷ ps, b, t)

  unfoldable pub spec_serve : List Request → A → Done → List Phase × A × Done
  spec_serve [] a m = ([], a, m)
  spec_serve (q ∷ qs) a m =
      let (p, a', m') = spec q a m in let (ps, b, n) = spec_serve qs a' m' in (p ∷ ps, b, n)

  -- Requests that come one after the other, with a Redis that answers and no key expired, refine the
  -- abstract middleware from every state in which Redis holds the abstract records and no lock: each
  -- request ends with the response that it gives (the handler's for the first request of a key, its replay
  -- for every later one), the handlers have had the same effects, and Redis holds its records again.
  pub serve-refines :
      (qs : List Request) (a : A) (m : Done) (s : S)
      → Holds m s
      → ((serve qs a s).0 ≡ (spec_serve qs a m).0)
        × ((serve qs a s).1 ≡ (spec_serve qs a m).1)
        × Holds (spec_serve qs a m).2 (serve qs a s).2
  unfolding serve spec_serve
  serve-refines [] a m s h = (refl, refl, h)
  serve-refines (q ∷ qs) a m s h =
      let (same, app, held) = wrap-Refines q a m s h in
      let (ps, b, kept) =
        serve-refines qs (spec q a m).1 (spec q a m).2
          (wrap r handler content_type error_body answered answered answered answered q (a, s)).2
          held in
      rw (same, app) (ap (λ x. (spec q a m).0 ∷ x) ps, b, kept)
