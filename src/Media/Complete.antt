-- ===== src/Media/Complete.antt =====
-- What a successful `Complete` means.
use yaxter.Common.{
  ℕ, ◌≡◌, Bool, true, false, Option, none, some, ◌∷◌, ◌==◌, if◌then◌else◌, length, ok, ◌>>=◌, ◌>>◌,
  guard, arith, Bool-cases, Result-cases, is_ok, is_err, inl, inr,
}
use yaxter.Common.Decimal.{Text}
use yaxter.Events.{Message, codes, emit, emit-ok, event_key, uploaded}
use yaxter.Media.{
  Status, status_uploaded, Row, Db, Error, Objects, upload_key, Env, find_own, set_status, row,
  length_of, type_name, flip, is_pending, complete,
}

-- The event of an upload.
abbrev pub message : Env → Row → Message
message e r = record {
  id = e.fresh_id;
  topic = codes "media.v1";
  key = event_key r.id;
  payload = record {
    event_id = e.fresh_id;
    payload = uploaded r.id r.owner_id (type_name r.content_type) r.size_bytes;
  };
}

row-some : (fails : Bool) (o : Option Row) (r : Row) → row fails o ≡ ok r → o ≡ some r
row-some true o r h = absurd (ground arith)
row-some false none r h = absurd (ground arith)
row-some false (some q) r h = ground arith

flip-ok :
    (e : Env) (r : Row) (db db' : Db) (st : Status)
    → flip e r db ≡ ok (db', st)
    → (st ≡ status_uploaded)
      × (db' ≡ record {
        media = set_status status_uploaded r.id db.media;
        outbox = message e r ∷ db.outbox;
      })
unfolding flip
flip-ok e r db db' st h =
    let p = uploaded r.id r.owner_id (type_name r.content_type) r.size_bytes in
    elim (Result-cases
      (emit (e.fails 4) (e.fails 5) e.fresh_id (codes "media.v1") (event_key r.id) p db.outbox)) [
        | is_err x q ↦ absurd (ground arith)
        | is_ok o q ↦
            let one =
              emit-ok (e.fails 4) (e.fails 5) e.fresh_id (codes "media.v1") (event_key r.id) p
                db.outbox o q in
            (ground arith, ground arith)
      ]

abbrev Uploaded : Env → Row → Db → Db → Status → Option Text → Type 0
Uploaded e r db db' st none = ⊥
Uploaded e r db db' st (some x) =
    (length x ≡ r.size_bytes)
    × (st ≡ status_uploaded)
    × (db' ≡ record {
      media = set_status status_uploaded r.id db.media;
      outbox = message e r ∷ db.outbox;
    })

check-Uploaded :
    (fails : Bool) (e : Env) (r : Row) (db db' : Db) (st : Status) (x : Option Text)
    → (length_of fails x >>= λ actual.
        guard (actual == r.size_bytes) Error.size_mismatch >> flip e r db)
      ≡ ok (db', st)
    → Uploaded e r db db' st x
check-Uploaded true e r db db' st x h = absurd (ground arith)
check-Uploaded false e r db db' st none h = absurd (ground arith)
check-Uploaded false e r db db' st (some x) h = elim (Bool-cases (length x == r.size_bytes)) [
  | inl same ↦
      let (status, tables) = flip-ok e r db db' st (rw same at h) in (ground arith, status, tables)
  | inr other ↦ absurd (ground arith)
]

module _ {S : Type 0} (o : Objects S) where
  abbrev pub Completed : Env → ℕ → S → Db → Db → Status → Option Row → Type 0
  Completed e id s db db' st none = ⊥
  Completed e id s db db' st (some r) =
      if is_pending r.status
      then Uploaded e r db db' st (o.find (upload_key id) s)
      else (db' ≡ db) × (st ≡ r.status)

  -- When `Complete` succeeds, the caller owns the medium. If it was pending, the object is in the store
  -- with exactly the declared size, the row is `uploaded` and one `MediaUploaded` event is added to
  -- the outbox; else nothing changed, and the answer is the status that the row has.
  pub complete-Completed :
      (e : Env) (owner id : ℕ) (s : S) (db db' : Db) (st : Status)
      → complete o e owner id s db ≡ ok (db', st)
      → Completed e id s db db' st (find_own id owner db.media)
  unfolding complete
  complete-Completed e owner id s db db' st h =
      elim (Result-cases (row (e.fails 0) (find_own id owner db.media))) [
        | is_err x q ↦ absurd (ground arith)
        | is_ok r q ↦
            let found = row-some (e.fails 0) (find_own id owner db.media) r q in
            elim (Bool-cases (is_pending r.status)) [
              | inl pending ↦
                  rw (found, pending)
                    (check-Uploaded (e.fails 1) e r db db' st (o.find (upload_key id) s)
                      (rw (q, pending) at h))
              | inr past ↦ rw (found, past) (ground arith, ground arith)
            ]
      ]
