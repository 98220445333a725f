-- ===== src/Media.antt =====
-- internal/media/service.go and worker.go: the states of an uploaded image, from the ticket to the
-- processed variants. The object store is an interface; decoding and encoding an image is an argument.
pub mod Complete
pub mod Kept
pub mod Process
mod Tests
use yaxter.Common.{
  ℕ, zero, suc, ◌+◌, ◌≡◌, Bool, true, false, not, ◌&&◌, ◌||◌, Option, none, some, List, [], ◌∷◌,
  leb, ltb, ◌==◌, if◌then◌else◌, any, length, Result, ok, err, ◌>>=◌, ◌>>◌, guard,
}
use yaxter.Common.Decimal.{Text}
use yaxter.Events.{Message, EmitError, codes, emit, event_key, uploaded}

pub data Status : Type 0 where
  status_pending status_uploaded status_ready status_failed : Status

pub data ContentType : Type 0 where
  jpeg png webp other_type : ContentType

-- A row of `media`.
pub record Row : Type 0 where
  pub id : ℕ
  pub owner_id : ℕ
  pub content_type : ContentType
  pub size_bytes : ℕ
  pub status : Status

pub record Db : Type 0 where
  pub media : List Row
  pub outbox : List Message

pub data Error : Type 0 where
  bad_type too_large not_found size_mismatch no_object unavailable : Error
  emit_failed : EmitError → Error

-- `uploadKey` and `variantKey`
pub data Key : Type 0 where
  upload_key : ℕ → Key
  variant_key : ℕ → ℕ → Key

abbrev pub key_eq : Key → Key → Bool
key_eq (upload_key a) (upload_key b) = a == b
key_eq (variant_key n a) (variant_key m b) = n == m && a == b
key_eq (upload_key a) (variant_key m b) = false
key_eq (variant_key n a) (upload_key b) = false

-- The object store: an object is there after it was put, and other objects are as before.
pub record Objects (S : Type 0) : Type 0 where
  pub find : Key → S → Option Text
  pub put : Key → Text → S → S
  pub find_put :
      (k j : Key) (x : Text) (s : S)
      → find k (put j x s) ≡ (if key_eq k j then some x else find k s)

-- Which call fails, and the id that `s.ids.Next()` gives.
pub record Env : Type 0 where
  pub fails : ℕ → Bool
  pub fresh_id : ℕ

-- `allowedTypes`
abbrev pub is_allowed : ContentType → Bool
is_allowed jpeg = true
is_allowed png = true
is_allowed webp = true
is_allowed other_type = false

abbrev pub max_size_bytes : ℕ
max_size_bytes = 5242880

-- `Create`: a row may be left behind when the link cannot be signed. A size is not negative here.
unfoldable pub create : Env → ℕ → ContentType → ℕ → List Row → Result Error ℕ × List Row
create e owner type size rows =
    if not (is_allowed type)
    then (err bad_type, rows)
    else if size == 0 || ltb max_size_bytes size
    then (err too_large, rows)
    else if e.fails 0 || any (λ r. r.id == e.fresh_id) rows
    then (err unavailable, rows)
    else (
      if e.fails 1 then err unavailable else ok e.fresh_id,
      record {
        id = e.fresh_id;
        owner_id = owner;
        content_type = type;
        size_bytes = size;
        status = status_pending;
      }
          ∷ rows,
    )

-- `SELECT … FROM media WHERE id = $1 AND owner_id = $2`
abbrev pub find_own : ℕ → ℕ → List Row → Option Row
find_own id owner [] = none
find_own id owner (r ∷ rs) =
    if r.id == id && r.owner_id == owner then some r else find_own id owner rs

abbrev pub find_row : ℕ → List Row → Option Row
find_row id [] = none
find_row id (r ∷ rs) = if r.id == id then some r else find_row id rs

-- `UPDATE media SET status = … WHERE id = $1`
unfoldable pub set_status : Status → ℕ → List Row → List Row
set_status st id [] = []
set_status st id (r ∷ rs) =
    (if r.id == id then record r { status = st } else r) ∷ set_status st id rs

abbrev pub row : Bool → Option Row → Result Error Row
row true o = err unavailable
row false none = err not_found
row false (some r) = ok r

abbrev pub lift : Result EmitError (List Message) → Result Error (List Message)
lift (ok outbox) = ok outbox
lift (err e) = err (emit_failed e)

abbrev pub length_of : Bool → Option Text → Result Error ℕ
length_of true o = err unavailable
length_of false none = err no_object
length_of false (some x) = ok (length x)

abbrev pub type_name : ContentType → Text
type_name jpeg = codes "image/jpeg"
type_name png = codes "image/png"
type_name webp = codes "image/webp"
type_name other_type = []

-- The transaction of `Complete`.
unfoldable pub flip : Env → Row → Db → Result Error (Db × Status)
flip e r db = do
  guard (not (e.fails 2)) unavailable
  guard (not (e.fails 3)) unavailable
  outbox ← lift (
      emit (e.fails 4) (e.fails 5) e.fresh_id (codes "media.v1") (event_key r.id)
        (uploaded r.id r.owner_id (type_name r.content_type) r.size_bytes) db.outbox)
  guard (not (e.fails 6)) unavailable
  ok (record { media = set_status status_uploaded r.id db.media; outbox = outbox }, status_uploaded)

abbrev pub is_pending : Status → Bool
is_pending status_pending = true
is_pending status_uploaded = false
is_pending status_ready = false
is_pending status_failed = false

abbrev pub is_uploaded : Status → Bool
is_uploaded status_pending = false
is_uploaded status_uploaded = true
is_uploaded status_ready = false
is_uploaded status_failed = false

module _ {S : Type 0} (o : Objects S) where
  -- `Complete`
  unfoldable pub complete : Env → ℕ → ℕ → S → Db → Result Error (Db × Status)
  complete e owner id s db = do
    r ← row (e.fails 0) (find_own id owner db.media)
    if is_pending r.status
        then (length_of (e.fails 1) (o.find (upload_key id) s) >>= λ actual.
            guard (actual == r.size_bytes) size_mismatch >> flip e r db)
        else ok (db, r.status)

-- `Get`
unfoldable pub get : Bool → ℕ → ℕ → List Row → Result Error Status
get fails owner id rows = row fails (find_own id owner rows) >>= λ r. ok r.status

-- What `ProcessImage` makes of the bytes: the variants, by the number of their name.
pub data Image : Type 0 where
  variants_of : List (ℕ × Text) → Image
  not_image broken : Image

module _ {S : Type 0} (o : Objects S) (process_image : Text → Image) where
  -- The loop over the variants; Go's map order is arbitrary, and names are distinct.
  unfoldable pub put_all : (ℕ → Bool) → ℕ → List (ℕ × Text) → S → Bool × S
  put_all fails id [] s = (true, s)
  put_all fails id ((n, x) ∷ vs) s =
      if fails n then (false, s) else put_all fails id vs (o.put (variant_key n id) x s)

  marked : Bool → Status → ℕ → S → List Row → Result (Unit {0}) (Unit {0}) × S × List Row
  marked fails st id s rows = if fails then (err tt, s, rows) else (ok tt, s, set_status st id rows)

  stored : Env → ℕ → List Row → Bool × S → Result (Unit {0}) (Unit {0}) × S × List Row
  unfolding marked
  stored e id rows (false, s) = (err tt, s, rows)
  stored e id rows (true, s) = marked (e.fails 2) status_ready id s rows

  processed :
      Env → (ℕ → Bool) → ℕ → S → List Row → Image → Result (Unit {0}) (Unit {0}) × S × List Row
  unfolding marked stored
  processed e puts id s rows broken = (err tt, s, rows)
  processed e puts id s rows not_image = marked (e.fails 2) status_failed id s rows
  processed e puts id s rows (variants_of vs) = stored e id rows (put_all puts id vs s)

  loaded :
      Env
      → (ℕ → Bool)
      → ℕ
      → S
      → List Row
      → Option Text
      → Result (Unit {0}) (Unit {0}) × S × List Row
  unfolding processed
  loaded e puts id s rows none = (err tt, s, rows)
  loaded e puts id s rows (some raw) =
      if e.fails 1 then (err tt, s, rows) else processed e puts id s rows (process_image raw)

  with_row :
      Env → (ℕ → Bool) → ℕ → S → List Row → Option Row → Result (Unit {0}) (Unit {0}) × S × List Row
  unfolding loaded
  with_row e puts id s rows none = (err tt, s, rows)
  with_row e puts id s rows (some r) =
      if is_uploaded r.status
      then loaded e puts id s rows (o.find (upload_key id) s)
      else (ok tt, s, rows)

  -- `ProcessUploaded`; `puts` says which variant's upload fails.
  unfoldable pub process_uploaded :
      Env → (ℕ → Bool) → ℕ → S → List Row → Result (Unit {0}) (Unit {0}) × S × List Row
  unfolding with_row
  process_uploaded e puts id s rows =
      if e.fails 0 then (err tt, s, rows) else with_row e puts id s rows (find_row id rows)
