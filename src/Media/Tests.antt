-- ===== src/Media/Tests.antt =====
-- One upload, with the object store kept as a function.
use yaxter.Common.{
  ℕ, zero, suc, ◌+◌, ◌≡◌, refl, Bool, true, false, not, ◌&&◌, ◌||◌, Option, none, some, List, [],
  ◌∷◌, ◌==◌, if◌then◌else◌, Result, ok, err, arith, length,
}
use yaxter.Common.Decimal.{Text}
use yaxter.Events.{emit}
use yaxter.Media.{
  Status, status_pending, status_uploaded, status_ready, png, Row, Db, no_object, Key, key_eq,
  upload_key, variant_key, Objects, Env, complete, flip, set_status, Image, variants_of, put_all,
  process_uploaded,
}
use yaxter.Media.Complete.{message, Completed, complete-Completed}

abbrev Store : Type 0
Store = Key → Option Text

abbrev objects : Objects Store
objects = record {
  find = λ k s. s k;
  put = λ j x s k. if key_eq k j then some x else s k;
  find_put = λ k j x s. refl;
}

abbrev calm : Env
calm = record { fails = λ n. false; fresh_id = 60 }

abbrev medium : Status → Row
medium st = record { id = 5; owner_id = 1; content_type = png; size_bytes = 3; status = st }

abbrev pending : Db
pending = record { media = medium status_pending ∷ []; outbox = [] }

abbrev landed : Store
landed (upload_key n) = if n == 5 then some (1 ∷ 2 ∷ 3 ∷ []) else none
landed (variant_key m n) = none

abbrev up : Db
up = record {
  media = medium status_uploaded ∷ [];
  outbox = message calm (medium status_pending) ∷ [];
}

complete-landed : complete objects calm 1 5 landed pending ≡ ok (up, status_uploaded)
unfolding complete flip set_status emit yaxter.Common.Decimal.decimal
complete-landed = refl

complete-Completed_example :
    Completed objects calm 5 landed pending up status_uploaded (some (medium status_pending))
complete-Completed_example =
    complete-Completed objects calm 1 5 landed pending up status_uploaded complete-landed

complete-early : complete objects calm 1 5 (λ k. none) pending ≡ err no_object
unfolding complete
complete-early = refl

abbrev image : Text → Image
image x = variants_of ((0, x) ∷ (1, []) ∷ [])

abbrev after_process : Result (Unit {0}) (Unit {0}) × Store × List Row
after_process = process_uploaded objects image calm (λ n. false) 5 landed up.media

-- The row is ready, and it stays as it was when the second variant cannot be stored.
process-ready : after_process.2 ≡ medium status_ready ∷ []
unfolding process_uploaded put_all set_status
process-ready = refl

process-failing :
    (process_uploaded objects image calm (λ n. n == 1) 5 landed up.media).2
    ≡ medium status_uploaded ∷ []
unfolding process_uploaded put_all
process-failing = refl

-- Two calls of `Complete` that both saw the row pending: the second one, after the worker, takes the
-- status back from `ready`, since its UPDATE does not ask for the status.
flip-late :
    flip
      (record { fails = λ n. false; fresh_id = 61 })
      (medium status_pending)
      (record { media = medium status_ready ∷ []; outbox = [] })
    ≡ ok (
      record {
        media = medium status_uploaded ∷ [];
        outbox =
            message (record { fails = λ n. false; fresh_id = 61 }) (medium status_pending) ∷ [];
      },
      status_uploaded,
    )
unfolding flip set_status emit yaxter.Common.Decimal.decimal
flip-late = refl
