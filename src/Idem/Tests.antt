-- ===== src/Idem/Tests.antt =====
-- The theorems on idempotency keys at concrete requests, with Redis as functions.
use yaxter.Common.{ℕ, ◌+◌, ◌≡◌, ◌≤◌, refl, false, none, some, List, [], ◌∷◌, ◌++◌, arith}
use yaxter.Common.Decimal.{Text}
use yaxter.Redis.{answered, refused, lost}
use yaxter.Idem.Http.{Headers, set_header, Response, sent, Action, sets, writes_header, writes}
use yaxter.Idem.{
  act, act_all, record_of, get, post, mutating, Request, done, replay, begin, step, wrap,
}
use yaxter.Idem.Sample.{Db, db}
use yaxter.Idem.Recording.{new_recorder, replay-recorded}
use yaxter.Idem.Once.{Holds, serve, spec_serve, serve-refines}
use yaxter.Idem.Exclusion.{
  Event, goes, expires, IsTimely, move, holders, starting, moves, late, moves-exclusive,
}
use yaxter.Idem.Again.{slow, moves-twice, moves-expired}

-- The handler counts its runs, and answers 201 with its payload.
abbrev answers : ℕ → List Action
answers n = sets 1 (n ∷ []) ∷ writes_header 201 ∷ writes (n ∷ []) ∷ writes (7 ∷ []) ∷ []

abbrev count_run : ℕ → ℕ → List Action × ℕ
count_run n runs = (answers n, runs + 1)

abbrev outer : ℕ → Headers
outer id = set_header 9 (id ∷ []) (λ n. [])

abbrev error_text : Text → Text → Text
error_text code message = code

abbrev request : ℕ → Request
request id = record { method = post; skip = false; key = some 5; header = outer id; payload = 3 }

abbrev empty : Db
empty = ((λ k. none), λ k. false)

replay-recorded_example :
    let first = sent (act_all (answers 3) (new_recorder (outer 1))).writer in
    (again : Response) × (replay db count_run 1 error_text
        (outer 2)
        (record_of (act_all (answers 3) (new_recorder (outer 1))))
      ≡ done again)
    × (again.status ≡ first.status)
    × (again.body ≡ first.body)
    × ((name : ℕ) → again.header name ≡ outer 2 name ++ first.header name)
replay-recorded_example =
    replay-recorded db count_run 1 error_text (outer 1) (outer 2) (answers 3)
      (refl, (refl, omega arith, omega arith, refl))

abbrev two_requests : List Request
two_requests = request 1 ∷ record (request 2) { method = get } ∷ request 3 ∷ []

serve-refines_example :
    ((serve db count_run 1 error_text two_requests 0 empty).0
      ≡ (spec_serve db count_run 1 error_text two_requests 0 (λ k. none)).0)
    × ((serve db count_run 1 error_text two_requests 0 empty).1
        ≡ (spec_serve db count_run 1 error_text two_requests 0 (λ k. none)).1)
    × Holds db count_run 1 error_text
        (spec_serve db count_run 1 error_text two_requests 0 (λ k. none)).2
        (serve db count_run 1 error_text two_requests 0 empty).2
serve-refines_example =
    serve-refines db count_run 1 error_text two_requests 0 (λ k. none) empty (λ k. (refl, refl))

-- The two POST requests have run the handler once, the GET a second time.
serve-runs : (serve db count_run 1 error_text two_requests 0 empty).1 ≡ 2
unfolding serve wrap step begin mutating act_all act replay
serve-runs = refl

-- The DEL of the second request fails, and the lock that stays behind expires.
abbrev schedule : List Event
schedule =
    goes 0 answered
    ∷ goes 1 answered
    ∷ goes 1 answered
    ∷ goes 0 lost
    ∷ goes 1 answered
    ∷ goes 1 answered
    ∷ goes 1 refused
    ∷ expires 5
    ∷ []

moves-exclusive_example :
    holders 5
      (moves db count_run 1 error_text schedule
        (starting db count_run 1 error_text (request 1 ∷ request 2 ∷ []))
        0
        empty).0
    ≤ 1
unfolding IsTimely move step begin mutating
moves-exclusive_example =
    moves-exclusive db count_run 1 error_text 5 schedule (request 1 ∷ request 2 ∷ []) 0 empty
      ((λ e. refl), tt)

moves-expired_example :
    holders 5
      (moves db count_run 1 error_text
        (slow 5)
        (starting db count_run 1 error_text (request 1 ∷ request 2 ∷ []))
        0
        empty).0
    ≡ 2
unfolding begin mutating
moves-expired_example =
    moves-expired db count_run 1 error_text 5 (request 1) (request 2) 0 empty refl refl refl refl

moves-twice_example :
    (moves db count_run 1 error_text late
      (starting db count_run 1 error_text (request 1 ∷ request 2 ∷ []))
      0
      empty).1
    ≡ 2
unfolding begin mutating
moves-twice_example =
    moves-twice db count_run 1 error_text 5 (request 1) (request 2) 0 empty refl refl refl refl
