-- ===== src/Idem.antt =====
-- pkg/idem/idem.go: the Idempotency-Key middleware. Every Redis command of a request is one step,
-- so that duplicates interleave between them.
pub mod Http
pub mod Recording
pub mod Once
pub mod Exclusion
pub mod Again
pub mod Sample
mod Tests
use yaxter.Common.{
  ℕ, ◌+◌, ◌≡◌, Bool, true, false, not, ◌||◌, ◌&&◌, Option, none, some, List, [], ◌∷◌, ◌++◌, ltb,
  ◌==◌, if◌then◌else◌,
}
use yaxter.Common.Decimal.{Text}
use yaxter.Events.{codes}
use yaxter.Redis.{Outcome, answered, refused, lost}
use Http.{
  Headers, set_header, Response, Writer, new_writer, write_header, write, sent, Action, sets,
  writes_header, writes, perform_all,
}

-- `record`
pub record Record : Type 0 where
  pub status : ℕ
  pub header : Headers
  pub body : Text

-- `recorder`: the writer below it, the status and the buffer.
pub record Recorder : Type 0 where
  pub writer : Writer
  pub status : ℕ
  pub buf : Text

-- `WriteHeader` and `Write` of the recorder, and the header map that it shares with the writer.
unfoldable pub act : Action → Recorder → Recorder
act (sets k v) r = record r {
  writer = record (r.writer) { header = set_header k v r.writer.header };
}
act (writes_header n) r = record { writer = write_header n r.writer; status = n; buf = r.buf }
act (writes p) r = record {
  writer = write p r.writer;
  status = if r.status == 0 then 200 else r.status;
  buf = r.buf ++ p;
}

unfoldable pub act_all : List Action → Recorder → Recorder
act_all [] r = r
act_all (x ∷ xs) r = act_all xs (act x r)

-- `record{Status: rec.status, Header: rec.Header().Clone(), Body: rec.buf.Bytes()}`
abbrev pub record_of : Recorder → Record
record_of r = record { status = r.status; header = r.writer.header; body = r.buf }

pub data Method : Type 0 where
  get head options post put patch delete : Method

-- `mutating`
unfoldable pub mutating : Method → Bool
mutating post = true
mutating put = true
mutating patch = true
mutating delete = true
mutating method = false

-- A request: its method, whether `m.skip` exempts it, the key if it is a UUID, the response headers
-- that outer middlewares have set, and what the handler reads of it.
pub record Request : Type 0 where
  pub method : Method
  pub skip : Bool
  pub key : Option ℕ
  pub header : Headers
  pub payload : ℕ

-- The keys `idem:{key}` and `idem:{key}:lock` of Redis. `find` is what GET finds: a record, or a text
-- that is none.
pub record Store (S : Type 0) : Type 0 where
  pub find : ℕ → S → Option (Option Record)
  pub set : ℕ → Record → S → S
  pub locked : ℕ → S → Bool
  pub lock : ℕ → S → S
  pub unlock : ℕ → S → S
  pub find_set :
      (i j : ℕ) (x : Record) (s : S)
      → find i (set j x s) ≡ (if i == j then some (some x) else find i s)
  pub find_lock : (i j : ℕ) (s : S) → find i (lock j s) ≡ find i s
  pub find_unlock : (i j : ℕ) (s : S) → find i (unlock j s) ≡ find i s
  pub locked_set : (i j : ℕ) (x : Record) (s : S) → locked i (set j x s) ≡ locked i s
  pub locked_lock : (i j : ℕ) (s : S) → locked i (lock j s) ≡ (i == j || locked i s)
  pub locked_unlock : (i j : ℕ) (s : S) → locked i (unlock j s) ≡ (not (i == j) && locked i s)

-- Where a request stands: before the GET, the SETNX, the handler, the SET, the DEL, or at its end
-- with the response; `panicked`: the server's `WriteHeader` refuses the status.
pub data Phase : Type 0 where
  getting claiming : ℕ → Phase
  passing : Phase
  handling : ℕ → Phase
  storing : ℕ → Record → Response → Phase
  unlocking : ℕ → Response → Phase
  done : Response → Phase
  panicked : Phase

-- `content_type` numbers the header, `json` is its value, and `error_body` is the JSON of an error.
module _ {A S : Type 0} (r : Store S) (handler : ℕ → A → List Action × A) (content_type : ℕ)
    (error_body : Text → Text → Text) where
  -- `writeJSONError`
  unfoldable pub write_json_error : Headers → ℕ → Text → Text → Response
  write_json_error h status code message = sent (
      write (error_body code message)
        (write_header status (new_writer (set_header content_type (codes "application/json") h))))

  -- The replay of a stored record: its headers are added to those of the request.
  unfoldable pub replay : Headers → Record → Phase
  replay h x =
      if ltb x.status 100 || ltb 999 x.status
      then panicked
      else done (sent (write x.body (write_header x.status (new_writer (λ n. h n ++ x.header n)))))

  -- Up to the first call of Redis.
  unfoldable pub begin : Request → Phase
  begin q = if not (mutating q.method) || q.skip then passing else elim q.key [
    | none ↦ done (
        write_json_error q.header 400 (codes "invalid_idempotency_key")
          (codes "Idempotency-Key header must be a UUID"))
    | some k ↦ getting k
  ]

  found : Request → ℕ → Option (Option Record) → Phase
  found q k none = claiming k
  found q k (some none) = claiming k
  found q k (some (some x)) = replay q.header x

  unavailable : Request → Phase
  unavailable q = done (
      write_json_error q.header 500 (codes "idempotency_unavailable")
        (codes "idempotency store unavailable"))

  -- SETNX. The TTL of the lock is a step of its own, `expires` in Idem/Exclusion.
  claimed : Request → ℕ → S → Phase × S
  claimed q k s =
      if r.locked k s
      then (
        done (
            write_json_error q.header 409 (codes "request_in_flight")
              (codes "a request with this Idempotency-Key is already being processed")),
        s,
      )
      else (handling k, r.lock k s)

  -- The handler on the recorder.
  handled : Request → ℕ → List Action → Phase
  handled q k acts =
      let rec = act_all acts (record { writer = new_writer q.header; status = 0; buf = [] }) in
      storing k (record_of rec) (sent rec.writer)

  -- The handler on the writer itself.
  passed : Request → List Action → Phase
  passed q acts = done (sent (perform_all acts (new_writer q.header)))

  -- One step of `Wrap`, a command of Redis that ends as the outcome says or the handler.
  unfoldable pub step : Outcome → Request → Phase → A × S → Phase × A × S
  unfolding found unavailable claimed handled passed
  step answered q (getting k) (a, s) = (found q k (r.find k s), a, s)
  step refused q (getting k) (a, s) = (claiming k, a, s)
  step lost q (getting k) (a, s) = (claiming k, a, s)
  step answered q (claiming k) (a, s) = let (p, s') = claimed q k s in (p, a, s')
  step refused q (claiming k) (a, s) = (unavailable q, a, s)
  step lost q (claiming k) (a, s) = (unavailable q, a, (claimed q k s).1)
  step o q passing (a, s) = let (acts, a') = handler q.payload a in (passed q acts, a', s)
  step o q (handling k) (a, s) = let (acts, a') = handler q.payload a in (handled q k acts, a', s)
  step refused q (storing k x res) (a, s) = (unlocking k res, a, s)
  step answered q (storing k x res) (a, s) = (unlocking k res, a, r.set k x s)
  step lost q (storing k x res) (a, s) = (unlocking k res, a, r.set k x s)
  step refused q (unlocking k res) (a, s) = (done res, a, s)
  step answered q (unlocking k res) (a, s) = (done res, a, r.unlock k s)
  step lost q (unlocking k res) (a, s) = (done res, a, r.unlock k s)
  step o q (done res) (a, s) = (done res, a, s)
  step o q panicked (a, s) = (panicked, a, s)

  -- `Wrap` for a request that no other one interrupts, with the outcomes of its five steps.
  unfoldable pub wrap : Outcome → Outcome → Outcome → Outcome → Request → A × S → Phase × A × S
  wrap o₁ o₂ o₃ o₄ q w =
      let (p₁, a₁, s₁) = step o₁ q (begin q) w in
      let (p₂, a₂, s₂) = step o₂ q p₁ (a₁, s₁) in
      let (p₃, a₃, s₃) = step answered q p₂ (a₂, s₂) in
      let (p₄, a₄, s₄) = step o₃ q p₃ (a₃, s₃) in step o₄ q p₄ (a₄, s₄)
