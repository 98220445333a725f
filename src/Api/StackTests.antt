-- ===== src/Api/StackTests.antt =====
-- Two requests with one Idempotency-Key through the stack of the server.
use yaxter.Common.{
  ℕ, ◌+◌, ◌≡◌, refl, false, Option, none, some, [], ◌∷◌, ◌==◌, if◌then◌else◌, Result, ok, err,
  arith,
}
use yaxter.Common.Decimal.{Text}
use yaxter.Idem.Sample.{Db, db}
use yaxter.Idem.Http.{Response}
use yaxter.Idem.{Request, post, mutating, done}
use yaxter.Api.{Reply, json, Authorization, absent, bearer, bearer_auth}
use yaxter.Api.Chain.{authenticated, Replays}
use yaxter.Api.SharedKeys.{
  serve_chain, first_sent, serve_chain-shared_key, serve_chain-unauthorized,
}

-- The token 5 is that of the user 4. The payload is the token, and 0 is none.
abbrev check : ℕ → Result (Unit {0}) ℕ
check t = if t == 5 then ok 4 else err tt

abbrev token : ℕ → Authorization ℕ
token p = if p == 0 then absent else bearer p

abbrev text_of : Option ℕ → Text
text_of none = []
text_of (some u) = u ∷ []

-- The route counts its runs.
abbrev whoami : Option ℕ → ℕ → ℕ → Reply (Option ℕ) × ℕ
whoami u p runs = (json 201 u, runs + 1)

abbrev request : ℕ → Request
request p = record { method = post; skip = false; key = some 8; header = λ n. []; payload = p }

abbrev empty : Db
empty = ((λ k. none), λ k. false)

serve_chain-shared_key_example :
    Replays db
      (authenticated 1 text_of (λ c. c) check token whoami)
      1
      (λ c m. c)
      (first_sent db 1 text_of
        (λ c. c)
        (λ c m. c)
        check
        token
        whoami
        (request 5)
        (json 201 (some 4)))
      1
      (serve_chain db 1 text_of
        (λ c. c)
        (λ c m. c)
        check
        token
        whoami
        (request 5 ∷ request 0 ∷ [])
        0
        empty)
unfolding bearer_auth mutating
serve_chain-shared_key_example =
    serve_chain-shared_key db 1 text_of (λ c. c) (λ c m. c) check token whoami (request 5)
      (request 0) 8 0 (λ k. none) empty (λ k. (refl, refl)) refl (refl, refl, refl)
      (refl, refl, refl) (omega arith) (omega arith)

serve_chain-unauthorized_example :
    (first again : Response) × ((serve_chain db 1 text_of
        (λ c. c)
        (λ c m. c)
        check
        token
        whoami
        (request 6 ∷ request 5 ∷ [])
        0
        empty).0
      ≡ done first ∷ done again ∷ [])
    × (first.status ≡ 401)
    × (again.status ≡ 401)
    × ((serve_chain db 1 text_of
          (λ c. c)
          (λ c m. c)
          check
          token
          whoami
          (request 6 ∷ request 5 ∷ [])
          0
          empty).1
        ≡ 0)
unfolding mutating
serve_chain-unauthorized_example =
    serve_chain-unauthorized db 1 text_of (λ c. c) (λ c m. c) check token whoami (request 6)
      (request 5) 8 6 0 (λ k. none) empty (λ k. (refl, refl)) refl (refl, refl, refl)
      (refl, refl, refl) refl refl
