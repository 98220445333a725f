-- ===== src/Api/Media.antt =====
-- internal/httpapi/media_handlers.go. The operations of the service are arguments.
use yaxter.Common.{ℕ, Bool, Option, none, some, if◌then◌else◌, Result, ok, err}
use yaxter.Common.Int.{ℤ}
use yaxter.Common.Decimal.{Text}
use yaxter.Events.{codes}
use yaxter.Media.{Error, bad_type, too_large, not_found, size_mismatch, no_object, Status}
use yaxter.Api.{Reply, json, failure, as_user, with_id, format_id}
use yaxter.Api.Urls.{media_url}

-- The links of a media object that is ready.
pub record Urls : Type 0 where
  pub feed : Text
  pub orig : Text
  pub thumb : Text

-- `Media` of the API.
pub record MediaBody : Type 0 where
  pub id : Text
  pub status : Status
  pub urls : Option Urls

-- `toAPI`; `is_ready` is the test `m.Status == "ready"`.
unfoldable pub to_api : (Status → Bool) → Text → ℕ → Status → MediaBody
to_api is_ready base id status = record {
  id = format_id id;
  status = status;
  urls =
      if is_ready status
      then some (record {
        feed = media_url base (codes "feed") id;
        orig = media_url base (codes "orig") id;
        thumb = media_url base (codes "thumb") id;
      })
      else none;
}

module _ {B : Type 0} where
  abbrev pub create_error : Error → Reply B
  create_error bad_type = failure 400 (codes "validation_failed")
  create_error too_large = failure 400 (codes "validation_failed")
  create_error e = failure 500 (codes "internal")

  abbrev pub get_error : Error → Reply B
  get_error not_found = failure 404 (codes "not_found")
  get_error e = failure 500 (codes "internal")

  abbrev pub complete_error : Error → Reply B
  complete_error not_found = failure 404 (codes "not_found")
  complete_error no_object = failure 409 (codes "not_uploaded")
  complete_error size_mismatch = failure 409 (codes "size_mismatch")
  complete_error e = failure 500 (codes "internal")

  abbrev pub got : Result Error B → Reply B
  got (ok m) = json 200 m
  got (err e) = get_error e

module _ {B S : Type 0} where
  abbrev pub created : Result Error B × S → Reply B × S
  created (ok t, s) = (json 201 t, s)
  created (err e, s) = (create_error e, s)

  create_body : {T : Type 0} → (ℕ → T → S → Result Error B × S) → ℕ → Option T → S → Reply B × S
  create_body create uid none s = (failure 400 (codes "malformed_body"), s)
  create_body create uid (some q) s = created (create uid q s)

  -- `Create`; the ticket is the body.
  unfoldable pub create_media :
      {T : Type 0} → (ℕ → T → S → Result Error B × S) → Option ℕ → Option T → S → Reply B × S
  unfolding create_body
  create_media create user body s = as_user user s (λ uid. create_body create uid body s)

  -- `Get`
  unfoldable pub get_media : (ℕ → ℤ → Result Error B) → Option ℕ → Text → S → Reply B × S
  get_media get user id s =
      as_user user s
        (λ uid. with_id id (failure 404 (codes "not_found")) s (λ n. (got (get uid n), s)))

  abbrev pub completed : Result Error B × S → Reply B × S
  completed (ok m, s) = (json 200 m, s)
  completed (err e, s) = (complete_error e, s)

  -- `Complete`
  unfoldable pub complete_media :
      (ℕ → ℤ → S → Result Error B × S) → Option ℕ → Text → S → Reply B × S
  complete_media complete user id s =
      as_user user s
        (λ uid. with_id id (failure 404 (codes "not_found")) s (λ n. completed (complete uid n s)))
