-- ===== src/Media/Process.antt =====
-- What `ProcessUploaded` means: a medium is `ready` only once all its variants are stored, and a
-- failure changes no row.
use yaxter.Common.{ℕ, ◌≡◌, Option, none, some, List, if◌then◌else◌, Result, ok, err, All}
use yaxter.Common.Decimal.{Text}
use yaxter.Common.Sort.{DistinctKeys}
use yaxter.Media.{
  status_ready, status_failed, Row, Objects, upload_key, variant_key, find_row, set_status,
  is_uploaded, Image, variants_of, not_image, broken,
}

abbrev pub name_of : ℕ × Text → ℕ
name_of (n, x) = n

module _ {S : Type 0} (o : Objects S) (process_image : Text → Image) where
  -- What is left of an uploaded medium, given what became of its bytes.
  abbrev OutcomeOf : ℕ → S → S → List Row → List Row → Image → Type 0
  OutcomeOf id s s' rows rows' broken = ⊥
  OutcomeOf id s s' rows rows' not_image = (s' ≡ s) × (rows' ≡ set_status status_failed id rows)
  OutcomeOf id s s' rows rows' (variants_of vs) =
      (rows' ≡ set_status status_ready id rows)
      × (DistinctKeys name_of vs → All (λ v. o.find (variant_key (name_of v) id) s' ≡ some v.1) vs)

  abbrev Bytes : ℕ → S → S → List Row → List Row → Option Text → Type 0
  Bytes id s s' rows rows' none = ⊥
  Bytes id s s' rows rows' (some raw) = OutcomeOf id s s' rows rows' (process_image raw)

  abbrev pub Processed : ℕ → S → S → List Row → List Row → Option Row → Type 0
  Processed id s s' rows rows' none = ⊥
  Processed id s s' rows rows' (some r) =
      if is_uploaded r.status
      then Bytes id s s' rows rows' (o.find (upload_key id) s)
      else (s' ≡ s) × (rows' ≡ rows)

  -- What either result means.
  abbrev pub Ended : ℕ → S → List Row → Result (Unit {0}) (Unit {0}) × S × List Row → Type 0
  Ended id s rows (ok t, s', rows') = Processed id s s' rows rows' (find_row id rows)
  Ended id s rows (err x, s', rows') = rows' ≡ rows
