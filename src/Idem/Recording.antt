-- ===== src/Idem/Recording.antt =====
-- The recorder: the client gets what it would get without it, and what is stored is what was sent.
use yaxter.Common.{
  ℕ, ◌≤◌, ◌≡◌, refl, sym, ap, ◌∙◌, Bool, true, false, none, some, List, [], ◌∷◌, ◌++◌, arith,
}
use mathlib.Core.Path.{subst}
use yaxter.Common.Decimal.{Text}
use yaxter.Idem.Http.{
  Headers, Response, new_writer, write_header, write, sent, Action, sets, writes_header, writes,
  perform, perform_all,
}
use yaxter.Idem.{Record, Recorder, act, act_all, record_of, replay, done, Store}

act-writer : (x : Action) (r : Recorder) → (act x r).writer ≡ perform x r.writer
unfolding act perform
act-writer (sets k v) r = refl
act-writer (writes_header n) r = refl
act-writer (writes p) r = refl

-- The recorder is transparent: the writer below it ends as it does without the recorder.
pub act_all-writer :
    (xs : List Action) (r : Recorder) → (act_all xs r).writer ≡ perform_all xs r.writer
unfolding act_all perform_all
act_all-writer [] r = refl
act_all-writer (x ∷ xs) r = act_all-writer xs (act x r) ∙ ap (perform_all xs) (act-writer x r)

-- A handler that sets its headers first, then sends one status from 100 to 999, or none, and then its
-- body; it sends a status or a body. The flag says whether the status is sent.
abbrev pub IsOrderly : Bool → List Action → Type 0
IsOrderly headed [] = headed ≡ true
IsOrderly headed (sets k v ∷ xs) = (headed ≡ false) × IsOrderly headed xs
IsOrderly headed (writes_header n ∷ xs) =
    (headed ≡ false) × (100 ≤ n) × (n ≤ 999) × IsOrderly true xs
IsOrderly headed (writes p ∷ xs) = IsOrderly true xs

-- What the recorder has noted so far.
abbrev Notes : Bool → Recorder → Type 0
Notes false r = (r.writer.head ≡ none) × (r.status ≡ 0) × (r.buf ≡ r.writer.body)
Notes true r =
    (r.writer.head ≡ some (r.status, r.writer.header))
    × (r.buf ≡ r.writer.body)
    × (100 ≤ r.status)
    × (r.status ≤ 999)

act_all-Notes :
    (headed : Bool) (xs : List Action) (r : Recorder)
    → IsOrderly headed xs
    → Notes headed r
    → Notes true (act_all xs r)
unfolding act_all act
act_all-Notes headed [] r o n = subst (λ b. Notes b r) o n
act_all-Notes true (sets k v ∷ xs) r o n = absurd (ground arith)
act_all-Notes false (sets k v ∷ xs) r o n =
    act_all-Notes false xs (act (sets k v) r) o.1 (ground arith)
act_all-Notes true (writes_header m ∷ xs) r o n = absurd (ground arith)
act_all-Notes false (writes_header m ∷ xs) r o n =
    act_all-Notes true xs (act (writes_header m) r) o.3 (ground arith, ground arith, o.1, o.2)
act_all-Notes true (writes p ∷ xs) r o n =
    act_all-Notes true xs (act (writes p) r) o
      (ground arith, ground arith, ground arith, ground arith)
act_all-Notes false (writes p ∷ xs) r o n =
    act_all-Notes true xs (act (writes p) r) o
      (ground arith, ground arith, ground arith, ground arith)

unfoldable pub new_recorder : Headers → Recorder
new_recorder h = record { writer = new_writer h; status = 0; buf = [] }

unfoldable pub response_of : Record → Response
response_of x = record { status = x.status; header = x.header; body = x.body }

sent-Notes : (r : Recorder) → Notes true r → sent r.writer ≡ response_of (record_of r)
unfolding response_of
sent-Notes r n = rw (n.0, n.1) refl

module _ {A S : Type 0} (r : Store S) (handler : ℕ → A → List Action × A) (content_type : ℕ)
    (error_body : Text → Text → Text) where
  -- The replay of the record of such a handler has the status and the body that were sent first. Of each
  -- header it has the values that outer middlewares have set for the replay and, after them, all that were
  -- sent first, those of outer middlewares included, so that a header that they set stands there twice.
  pub replay-recorded :
      (h h' : Headers) (xs : List Action)
      → IsOrderly false xs
      → let first = sent (act_all xs (new_recorder h)).writer in
        (again : Response) × (replay r handler content_type error_body h'
            (record_of (act_all xs (new_recorder h)))
          ≡ done again)
        × (again.status ≡ first.status)
        × (again.body ≡ first.body)
        × ((name : ℕ) → again.header name ≡ h' name ++ first.header name)
  unfolding replay new_recorder response_of
  replay-recorded h h' xs o =
      let rec = act_all xs (new_recorder h) in
      let n = act_all-Notes false xs (new_recorder h) o (refl, refl, refl) in
      let same = sent-Notes rec n in
      (
        sent (
            write rec.buf
              (write_header rec.status (new_writer (λ k. h' k ++ rec.writer.header k)))),
        ground arith,
        sym (ap (λ x. x.status) same),
        sym (ap (λ x. x.body) same),
        λ name. ap (λ x. h' name ++ x.header name) (sym same),
      )
