-- ===== src/Idem/Http.antt =====
-- What pkg/idem uses of net/http: the headers and the writer of a response.
use yaxter.Common.{
  ℕ, Bool, true, false, Option, none, some, List, [], ◌∷◌, ◌++◌, ◌==◌, if◌then◌else◌,
}
use yaxter.Common.Decimal.{Text}

-- `http.Header`: the values of each name. Names are numbered.
abbrev pub Headers : Type 0
Headers = ℕ → List Text

abbrev pub set_header : ℕ → Text → Headers → Headers
set_header k v h n = if n == k then v ∷ [] else h n

-- A response as the client gets it.
pub record Response : Type 0 where
  pub status : ℕ
  pub header : Headers
  pub body : Text

-- `http.ResponseWriter`: the header map; the status and the headers that are sent, once they are; the
-- body.
pub record Writer : Type 0 where
  pub header : Headers
  pub head : Option (ℕ × Headers)
  pub body : Text

abbrev pub new_writer : Headers → Writer
new_writer h = record { header = h; head = none; body = [] }

abbrev pub is_none {ℓ} : {A : Type ℓ} → Option A → Bool
is_none none = true
is_none (some a) = false

-- `WriteHeader` of the server: the first call counts.
abbrev pub write_header : ℕ → Writer → Writer
write_header n w = if is_none w.head then record w { head = some (n, w.header) } else w

-- `Write` of the server, which sends the status 200 first if none has been sent.
abbrev pub write : Text → Writer → Writer
write p w = record (write_header 200 w) { body = w.body ++ p }

-- What is sent in the end: a handler that writes nothing gets the status 200.
abbrev pub sent_head : Option (ℕ × Headers) → Headers → Text → Response
sent_head none h body = record { status = 200; header = h; body = body }
sent_head (some (n, h')) h body = record { status = n; header = h'; body = body }

abbrev pub sent : Writer → Response
sent w = sent_head w.head w.header w.body

-- What a handler does with its writer.
pub data Action : Type 0 where
  sets : ℕ → Text → Action
  writes_header : ℕ → Action
  writes : Text → Action

unfoldable pub perform : Action → Writer → Writer
perform (sets k v) w = record w { header = set_header k v w.header }
perform (writes_header n) w = write_header n w
perform (writes p) w = write p w

-- `next.ServeHTTP` on a writer.
unfoldable pub perform_all : List Action → Writer → Writer
perform_all [] w = w
perform_all (x ∷ xs) w = perform_all xs (perform x w)
