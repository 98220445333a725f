-- ===== src/Api/Chain.antt =====
-- The stack of `NewHandler` (internal/httpapi/wire.go): the idempotency middleware of pkg/idem runs
-- outside of `BearerAuth`, which runs the routes.
use yaxter.Common.{
  ℕ, ◌≤◌, ◌≡◌, refl, ap, ◌∙◌, true, false, Option, none, some, List, [], ◌∷◌, ◌==◌, Result, arith,
}
use yaxter.Common.Decimal.{Text}
use yaxter.Events.{codes}
use yaxter.Idem.Http.{Response, new_writer, sent, Action, sets, writes_header, writes, perform_all}
use yaxter.Idem.{
  Record, Request, Store, Phase, getting, done, mutating, begin, replay, act_all, record_of,
}
use yaxter.Idem.Recording.{replay-recorded, new_recorder, act_all-writer, IsOrderly}
use yaxter.Idem.Once.{Done, Holds, serve, spec, spec_serve, serve-refines, put_done}
use yaxter.Api.{Reply, json, failure, empty, status, Authorization, bearer_auth}

module _ {B : Type 0} (content_type : ℕ) (encode : B → Text) (error_json : Text → Text) where
  -- `writeJSON`
  abbrev pub write_json : ℕ → Text → List Action
  write_json status body =
      sets content_type (codes "application/json") ∷ writes_header status ∷ writes body ∷ []

  -- A reply, with `writeError` for errors.
  abbrev pub written : Reply B → List Action
  written (json n b) = write_json n (encode b)
  written (failure n code) = write_json n (error_json code)
  written (empty n) = writes_header n ∷ []

  abbrev pub written_all : {A : Type 0} → Reply B × A → List Action × A
  written_all (reply, a) = (written reply, a)

  -- `BearerAuth` around the routes, on what a request carries: its token, and what the route reads.
  unfoldable pub authenticated :
      {T U A : Type 0}
      → (T → Result (Unit {0}) U)
      → (ℕ → Authorization T)
      → (Option U → ℕ → A → Reply B × A)
      → ℕ
      → A
      → List Action × A
  authenticated verify auth_of route p a =
      written_all (bearer_auth verify (auth_of p) a (λ u s. route u p s))

  pub written-IsOrderly :
      (reply : Reply B) → 100 ≤ status reply → status reply ≤ 999 → IsOrderly false (written reply)
  written-IsOrderly (json n b) h h' = (refl, (refl, h, h', refl))
  written-IsOrderly (failure n c) h h' = (refl, (refl, h, h', refl))
  written-IsOrderly (empty n) h h' = (refl, h, h', refl)

-- A request that the idempotency middleware looks at, with its key.
abbrev pub IsKeyed : ℕ → Request → Type 0
IsKeyed k q = (mutating q.method ≡ true) × (q.skip ≡ false) × (q.key ≡ some k)

module _ {A S : Type 0} (r : Store S) (handler : ℕ → A → List Action × A) (content_type : ℕ)
    (error_body : Text → Text → Text) where
  begin-keyed :
      (q : Request) (k : ℕ) → IsKeyed k q → begin r handler content_type error_body q ≡ getting k
  unfolding begin
  begin-keyed q k (m, s, h) = rw (m, s, h) refl

  spec-first :
      (q : Request) (k : ℕ) (a : A) (m : Done)
      → IsKeyed k q
      → m k ≡ none
      → spec r handler content_type error_body q a m ≡ (
        done (sent (act_all (handler q.payload a).0 (new_recorder q.header)).writer),
        (handler q.payload a).1,
        put_done k (record_of (act_all (handler q.payload a).0 (new_recorder q.header))) m,
      )
  unfolding spec
  spec-first q k a m keyed fresh = rw (begin-keyed q k keyed, fresh) refl

  spec-again :
      (q : Request) (k : ℕ) (x : Record) (a : A) (m : Done)
      → IsKeyed k q
      → spec r handler content_type error_body q a (put_done k x m)
        ≡ (replay r handler content_type error_body q.header x, a, put_done k x m)
  unfolding spec
  spec-again q k x a m keyed =
      let same : (k == k) ≡ true = ground arith in rw (begin-keyed q k keyed, same) refl

  spec_serve-two :
      (q q' : Request) (k : ℕ) (a : A) (m : Done)
      → IsKeyed k q
      → IsKeyed k q'
      → m k ≡ none
      → let rec = act_all (handler q.payload a).0 (new_recorder q.header) in
        ((spec_serve r handler content_type error_body (q ∷ q' ∷ []) a m).0
          ≡ done (sent rec.writer)
            ∷ replay r handler content_type error_body q'.header (record_of rec)
            ∷ [])
        × ((spec_serve r handler content_type error_body (q ∷ q' ∷ []) a m).1
            ≡ (handler q.payload a).1)
  unfolding spec_serve
  spec_serve-two q q' k a m keyed keyed' fresh =
      let rec = act_all (handler q.payload a).0 (new_recorder q.header) in
      rw
        (
          spec-first q k a m keyed fresh,
          spec-again q' k (record_of rec) (handler q.payload a).1 m keyed',
        )
        (refl, refl)

  -- What two requests with one key come to: `first` is what the handler sends to the first.
  abbrev pub Replays : Response → A → List Phase × A × S → Type 0
  Replays first a (phases, a', s) =
      (again : Response) × (phases ≡ done first ∷ done again ∷ [])
      × (again.status ≡ first.status)
      × (again.body ≡ first.body)
      × (a' ≡ a)

  pub serve-Replays :
      (q q' : Request) (k : ℕ) (a : A) (m : Done) (s : S)
      → Holds r handler content_type error_body m s
      → m k ≡ none
      → IsKeyed k q
      → IsKeyed k q'
      → IsOrderly false (handler q.payload a).0
      → Replays
          (sent (perform_all (handler q.payload a).0 (new_writer q.header)))
          (handler q.payload a).1
          (serve r handler content_type error_body (q ∷ q' ∷ []) a s)
  unfolding new_recorder
  serve-Replays q q' k a m s held fresh keyed keyed' orderly =
      let refined = serve-refines r handler content_type error_body (q ∷ q' ∷ []) a m s held in
      let acts = (handler q.payload a).0 in
      let (phases, app) = spec_serve-two q q' k a m keyed keyed' fresh in
      let (again, replayed, status, body, headers) =
        replay-recorded r handler content_type error_body q.header q'.header acts orderly in
      let same = ap sent (act_all-writer acts (new_recorder q.header)) in
      (
        again,
        refined.0
            ∙ phases
            ∙ ap (λ p. done (sent (act_all acts (new_recorder q.header)).writer) ∷ p ∷ []) replayed
            ∙ ap (λ w. done w ∷ done again ∷ []) same,
        status ∙ ap (λ w. w.status) same,
        body ∙ ap (λ w. w.body) same,
        refined.1 ∙ app,
      )
