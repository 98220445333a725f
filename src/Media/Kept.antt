-- ===== src/Media/Kept.antt =====
-- `ProcessUploaded` that fails leaves the rows as they were.
use yaxter.Common.{
  ℕ, ◌≡◌, sym, ap, Bool, true, false, Option, none, some, List, err, arith, Bool-cases, inl, inr,
}
use yaxter.Common.Decimal.{Text}
use yaxter.Media.{
  Status, status_ready, status_failed, Row, Objects, upload_key, Env, find_row, is_uploaded, Image,
  variants_of, not_image, broken, put_all, marked, stored, processed, loaded, with_row,
  process_uploaded,
}

module _ {S : Type 0} (o : Objects S) (process_image : Text → Image) where
  marked-err :
      (fails : Bool) (st : Status) (id : ℕ) (s s' : S) (rows rows' : List Row)
      → marked o process_image fails st id s rows ≡ (err tt, s', rows')
      → rows' ≡ rows
  unfolding marked
  marked-err true st id s s' rows rows' h = sym (ap (λ q. q.2) h)
  marked-err false st id s s' rows rows' h = absurd (ground (arith, ap (λ q. q.0) h))

  stored-err :
      (e : Env) (id : ℕ) (s' : S) (rows rows' : List Row) (p : Bool × S)
      → stored o process_image e id rows p ≡ (err tt, s', rows')
      → rows' ≡ rows
  unfolding stored
  stored-err e id s' rows rows' (false, s1) h = sym (ap (λ q. q.2) h)
  stored-err e id s' rows rows' (true, s1) h =
      marked-err (e.fails 2) status_ready id s1 s' rows rows' h

  processed-err :
      (e : Env) (puts : ℕ → Bool) (id : ℕ) (s s' : S) (rows rows' : List Row) (i : Image)
      → processed o process_image e puts id s rows i ≡ (err tt, s', rows')
      → rows' ≡ rows
  unfolding processed
  processed-err e puts id s s' rows rows' broken h = sym (ap (λ q. q.2) h)
  processed-err e puts id s s' rows rows' not_image h =
      marked-err (e.fails 2) status_failed id s s' rows rows' h
  processed-err e puts id s s' rows rows' (variants_of vs) h =
      stored-err e id s' rows rows' (put_all o process_image puts id vs s) h

  loaded-err :
      (e : Env) (puts : ℕ → Bool) (id : ℕ) (s s' : S) (rows rows' : List Row) (x : Option Text)
      → loaded o process_image e puts id s rows x ≡ (err tt, s', rows')
      → rows' ≡ rows
  unfolding loaded
  loaded-err e puts id s s' rows rows' none h = sym (ap (λ q. q.2) h)
  loaded-err e puts id s s' rows rows' (some raw) h = elim (Bool-cases (e.fails 1)) [
    | inl bad ↦ sym (ap (λ q. q.2) (rw bad at h))
    | inr good ↦ processed-err e puts id s s' rows rows' (process_image raw) (rw good at h)
  ]

  with_row-err :
      (e : Env) (puts : ℕ → Bool) (id : ℕ) (s s' : S) (rows rows' : List Row) (x : Option Row)
      → with_row o process_image e puts id s rows x ≡ (err tt, s', rows')
      → rows' ≡ rows
  unfolding with_row
  with_row-err e puts id s s' rows rows' none h = sym (ap (λ q. q.2) h)
  with_row-err e puts id s s' rows rows' (some r) h = elim (Bool-cases (is_uploaded r.status)) [
    | inl up ↦ loaded-err e puts id s s' rows rows' (o.find (upload_key id) s) (rw up at h)
    | inr done ↦ absurd (ground (arith, ap (λ q. q.0) (rw done at h)))
  ]

  pub process_uploaded-err :
      (e : Env) (puts : ℕ → Bool) (id : ℕ) (s s' : S) (rows rows' : List Row)
      → process_uploaded o process_image e puts id s rows ≡ (err tt, s', rows')
      → rows' ≡ rows
  unfolding process_uploaded
  process_uploaded-err e puts id s s' rows rows' h = elim (Bool-cases (e.fails 0)) [
    | inl bad ↦ sym (ap (λ q. q.2) (rw bad at h))
    | inr good ↦ with_row-err e puts id s s' rows rows' (find_row id rows) (rw good at h)
  ]
