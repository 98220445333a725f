-- ===== src/Auth/Base64.antt =====
-- `base64.RawStdEncoding` of encoding/base64, on lists of bytes.
use yaxter.Common.{
  map, ℕ, ◌+◌, ◌-◌, ◌*◌, ◌/◌, ◌%◌, ◌<◌, ◌≡◌, ◌≢◌, refl, ap, ◌∙◌, false, not, ◌||◌, ◌&&◌, Option,
  none, some, List, [], ◌∷◌, ◌==◌, ltb, leb, if◌then◌else◌, arith, All, filter,
}
use yaxter.Common.Decimal.{Text}

-- The alphabet.
unfoldable pub char_of : ℕ → ℕ
char_of n =
    if ltb n 26
    then b'A' + n
    else if ltb n 52
    then b'a' + (n - 26)
    else if ltb n 62
    then b'0' + (n - 52)
    else if n == 62
    then b'+'
    else b'/'

unfoldable pub value_of : ℕ → Option ℕ
value_of c =
    if leb b'A' c && leb c b'Z'
    then some (c - b'A')
    else if leb b'a' c && leb c b'z'
    then some (c - b'a' + 26)
    else if leb b'0' c && leb c b'9'
    then some (c - b'0' + 52)
    else if c == b'+'
    then some 62
    else if c == b'/'
    then some 63
    else none

-- Three bytes are four values of six bits; the last values of one or two bytes are padded by zeros.
unfoldable pub sextets : Text → List ℕ
sextets [] = []
sextets (a ∷ []) = (a / 4) ∷ (a % 4 * 16) ∷ []
sextets (a ∷ b ∷ []) = (a / 4) ∷ (a % 4 * 16 + b / 16) ∷ (b % 16 * 4) ∷ []
sextets (a ∷ b ∷ c ∷ rest) =
    (a / 4) ∷ (a % 4 * 16 + b / 16) ∷ (b % 16 * 4 + c / 64) ∷ (c % 64) ∷ sextets rest

-- `EncodeToString`
unfoldable pub encode : Text → Text
encode s = map char_of (sextets s)

unfoldable pub values : Text → Option (List ℕ)
values [] = some []
values (c ∷ cs) = elim (value_of c) [
  | none ↦ none
  | some v ↦ elim (values cs) [ none ↦ none | some vs ↦ some (v ∷ vs) ]
]

-- The bytes of groups of four values; the bits left over at the end are not looked at.
unfoldable pub bytes : List ℕ → Option Text
bytes [] = some []
bytes (x ∷ []) = none
bytes (x ∷ y ∷ []) = some ((x * 4 + y / 16) ∷ [])
bytes (x ∷ y ∷ z ∷ []) = some ((x * 4 + y / 16) ∷ (y % 16 * 16 + z / 4) ∷ [])
bytes (x ∷ y ∷ z ∷ w ∷ rest) = elim (bytes rest) [
  | none ↦ none
  | some bs ↦ some ((x * 4 + y / 16) ∷ (y % 16 * 16 + z / 4) ∷ (z % 4 * 64 + w) ∷ bs)
]

decoded : Option (List ℕ) → Option Text
decoded none = none
decoded (some vs) = bytes vs

-- `DecodeString`, which passes over line ends.
unfoldable pub decode : Text → Option Text
unfolding decoded
decode s = decoded (values (filter (λ c. not (c == 10 || c == 13)) s))

value_of-char_of : (n : ℕ) → n < 64 → value_of (char_of n) ≡ some n
unfolding value_of char_of
value_of-char_of n h = ground arith

-- A character of the alphabet is no line end and no dollar sign.
pub char_of-plain :
    (n : ℕ) → n < 64 → ((char_of n == 10 || char_of n == 13) ≡ false) × (char_of n ≢ b'$')
unfolding char_of
char_of-plain n h = (ground arith, λ e. ground arith)

abbrev pub IsByte : ℕ → Type 0
IsByte b = b < 256

abbrev IsSextet : ℕ → Type 0
IsSextet v = v < 64

sextets-IsSextet : (s : Text) → All IsByte s → All IsSextet (sextets s)
unfolding sextets
sextets-IsSextet [] h = tt
sextets-IsSextet (a ∷ []) h = (omega arith, (omega arith, tt))
sextets-IsSextet (a ∷ b ∷ []) h = (omega arith, (omega arith, (omega arith, tt)))
sextets-IsSextet (a ∷ b ∷ c ∷ rest) h =
    (omega arith, (omega arith, (omega arith, (omega arith, sextets-IsSextet rest h.1.1.1))))

first_byte : (a x : ℕ) → x < 16 → a / 4 * 4 + (a % 4 * 16 + x) / 16 ≡ a
first_byte a x h = omega arith

second_byte : (y b x : ℕ) → b < 256 → x < 4 → (y * 16 + b / 16) % 16 * 16 + (b % 16 * 4 + x) / 4 ≡ b
second_byte y b x h k = omega arith

third_byte : (z c : ℕ) → c < 256 → (z * 4 + c / 64) % 4 * 64 + c % 64 ≡ c
third_byte z c h = omega arith

bytes-cons :
    (x y z w : ℕ) (vs : List ℕ) {bs : Text}
    → bytes vs ≡ some bs
    → bytes (x ∷ y ∷ z ∷ w ∷ vs)
      ≡ some ((x * 4 + y / 16) ∷ (y % 16 * 16 + z / 4) ∷ (z % 4 * 64 + w) ∷ bs)
unfolding bytes
bytes-cons x y z w vs h = ground arith

bytes-sextets : (s : Text) → All IsByte s → bytes (sextets s) ≡ some s
unfolding bytes sextets
bytes-sextets [] h = refl
bytes-sextets (a ∷ []) h =
    let y : a / 4 * 4 + a % 4 * 16 / 16 ≡ a = omega arith in ap (λ x. some (x ∷ [])) y
bytes-sextets (a ∷ b ∷ []) h =
    let y = first_byte a (b / 16) (omega arith) in
    let z : (a % 4 * 16 + b / 16) % 16 * 16 + b % 16 * 4 / 4 ≡ b = omega arith in rw (y, z) refl
bytes-sextets (a ∷ b ∷ c ∷ rest) h =
    let y = first_byte a (b / 16) (omega arith) in
    let z = second_byte (a % 4) b (c / 64) (omega arith) (omega arith) in
    let w = third_byte (b % 16) c (omega arith) in
    bytes-cons (a / 4) (a % 4 * 16 + b / 16) (b % 16 * 4 + c / 64) (c % 64) (sextets rest)
      (bytes-sextets rest h.1.1.1)
    ∙ rw (y, z, w) refl

values-cons :
    (c : ℕ) (cs : Text) {v : ℕ} {vs : List ℕ}
    → value_of c ≡ some v
    → values cs ≡ some vs
    → values (c ∷ cs) ≡ some (v ∷ vs)
unfolding values
values-cons c cs h k = ground arith

values-map : (vs : List ℕ) → All IsSextet vs → values (map char_of vs) ≡ some vs
unfolding values
values-map [] h = refl
values-map (v ∷ vs) h =
    values-cons (char_of v) (map char_of vs) (value_of-char_of v h.0) (values-map vs h.1)

filter-map :
    (vs : List ℕ)
    → All IsSextet vs
    → filter (λ c. not (c == 10 || c == 13)) (map char_of vs) ≡ map char_of vs
filter-map [] h = refl
filter-map (v ∷ vs) h = rw ((char_of-plain v h.0).0, filter-map vs h.1) refl

-- Decoding gives back every list of bytes that was encoded.
pub decode-encode : (s : Text) → All IsByte s → decode (encode s) ≡ some s
unfolding decode encode
decode-encode s h =
    let fits = sextets-IsSextet s h in
    ap (λ t. decoded (values t)) (filter-map (sextets s) fits)
    ∙ ap decoded (values-map (sextets s) fits)
    ∙ bytes-sextets s h

map-plain : (vs : List ℕ) → All IsSextet vs → All (λ c. c ≢ b'$') (map char_of vs)
map-plain [] h = tt
map-plain (v ∷ vs) h = ((char_of-plain v h.0).1, map-plain vs h.1)

-- No dollar sign is in an encoded text.
pub encode-plain : (s : Text) → All IsByte s → All (λ c. c ≢ b'$') (encode s)
unfolding encode
encode-plain s h = map-plain (sextets s) (sextets-IsSextet s h)
