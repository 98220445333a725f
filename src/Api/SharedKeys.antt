-- ===== src/Api/SharedKeys.antt =====
-- Requests with one Idempotency-Key through the stack of `NewHandler`: the key is looked at before the
-- token.
use yaxter.Common.{ℕ, ◌≤◌, ◌≡◌, ap, ◌∙◌, Option, none, List, [], ◌∷◌, Result, err, arith}
use yaxter.Common.Decimal.{Text}
use yaxter.Events.{codes}
use yaxter.Idem.Http.{Response, new_writer, sent, perform, perform_all}
use yaxter.Idem.{Request, Store, Phase, done}
use yaxter.Idem.Once.{Done, Holds, serve}
use yaxter.Api.{Reply, failure, status, Authorization, bearer, bearer_auth}
use yaxter.Api.Access.{bearer_auth-verified}
use yaxter.Api.Chain.{written, written-IsOrderly, authenticated, IsKeyed, Replays, serve-Replays}

module _ {A S B T U : Type 0} (r : Store S) (content_type : ℕ) (encode : B → Text)
    (error_json : Text → Text) (error_body : Text → Text → Text) (verify : T → Result (Unit {0}) U)
    (auth_of : ℕ → Authorization T) (route : Option U → ℕ → A → Reply B × A) where
  -- The idempotency middleware around `BearerAuth` around the routes, on requests that come one after
  -- the other.
  unfoldable pub serve_chain : List Request → A → S → List Phase × A × S
  serve_chain qs a s =
      serve r (authenticated content_type encode error_json verify auth_of route) content_type
        error_body qs a s

  -- What `BearerAuth` and the routes reply to a request, and leave.
  abbrev pub reply_of : Request → A → Reply B × A
  reply_of q a = bearer_auth verify (auth_of q.payload) a (λ u s. route u q.payload s)

  -- The response that this is sent as.
  abbrev pub first_sent : Request → Reply B → Response
  first_sent q reply =
      sent (perform_all (written content_type encode error_json reply) (new_writer q.header))

  -- Two requests that come one after the other with one key, for which Redis holds no record and no
  -- lock: the second is answered with the status and the body of the first, and only the first has
  -- an effect. This holds for all callers, so also when the second request comes from another
  -- user, or without a token, or with one that is not valid. The status of the first is from 100
  -- to 999.
  pub serve_chain-shared_key :
      (q q' : Request) (k : ℕ) (a : A) (m : Done) (s : S)
      → Holds r
          (authenticated content_type encode error_json verify auth_of route)
          content_type
          error_body
          m
          s
      → m k ≡ none
      → IsKeyed k q
      → IsKeyed k q'
      → 100 ≤ status (reply_of q a).0
      → status (reply_of q a).0 ≤ 999
      → Replays r
          (authenticated content_type encode error_json verify auth_of route)
          content_type
          error_body
          (first_sent q (reply_of q a).0)
          (reply_of q a).1
          (serve_chain (q ∷ q' ∷ []) a s)
  unfolding serve_chain authenticated
  serve_chain-shared_key q q' k a m s held fresh keyed keyed' low high =
      serve-Replays r (authenticated content_type encode error_json verify auth_of route)
        content_type error_body q q' k a m s held fresh keyed keyed'
        (written-IsOrderly content_type encode error_json (reply_of q a).0 low high)

  -- A request whose token is not valid, as one that has expired, is answered with 401, and so is the
  -- next request with the same key, also if its token is valid: the routes run for neither, and the
  -- state stays as it was. Redis holds no record and no lock for the key before.
  pub serve_chain-unauthorized :
      (q q' : Request) (k : ℕ) (t : T) (a : A) (m : Done) (s : S)
      → Holds r
          (authenticated content_type encode error_json verify auth_of route)
          content_type
          error_body
          m
          s
      → m k ≡ none
      → IsKeyed k q
      → IsKeyed k q'
      → auth_of q.payload ≡ bearer t
      → verify t ≡ err tt
      → (first again : Response) × ((serve_chain (q ∷ q' ∷ []) a s).0
          ≡ done first ∷ done again ∷ [])
        × (first.status ≡ 401)
        × (again.status ≡ 401)
        × ((serve_chain (q ∷ q' ∷ []) a s).1 ≡ a)
  unfolding perform_all perform
  serve_chain-unauthorized q q' k t a m s held fresh keyed keyed' has bad =
      let reply : reply_of q a ≡ (failure 401 (codes "invalid_token"), a) =
        ap (λ x. bearer_auth verify x a (λ u s'. route u q.payload s')) has
        ∙ bearer_auth-verified verify t a (λ u s'. route u q.payload s') bad in
      let ends = ap (λ x. status x.0) reply in
      let (again, phases, same, body, kept) =
        serve_chain-shared_key q q' k a m s held fresh keyed keyed' (ground arith) (ground arith) in
      let first = ap (λ x. (first_sent q x.0).status) reply in
      (
        first_sent q (reply_of q a).0,
        again,
        phases,
        first,
        same ∙ first,
        kept ∙ ap (λ x. x.1) reply,
      )
