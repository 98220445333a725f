-- ===== src/Auth/Password.antt =====
-- internal/auth/password.go: password hashes as PHC strings. Argon2 is a parameter.
pub mod Verify
use yaxter.Common.{
  ℕ, zero, suc, ◌+◌, ◌-◌, ◌*◌, ◌^◌, ◌≡◌, Bool, true, false, not, ◌||◌, ◌&&◌, Option, none, some,
  List, [], ◌∷◌, ◌++◌, ◌==◌, ltb, leb, if◌then◌else◌, Result, ok, err, length, All,
}
use yaxter.Common.Decimal.{Text, is_digit, decimal}
use yaxter.Events.{codes}
use yaxter.Auth.Base64.{encode, decode, IsByte}

abbrev pub argon_time : ℕ
argon_time = 1

-- In KiB.
abbrev pub argon_memory : ℕ
argon_memory = 64 * 1024

abbrev pub argon_threads : ℕ
argon_threads = 4

abbrev pub argon_key_len : ℕ
argon_key_len = 32

-- `argon2.IDKey`: of the password, the salt, the time, the memory, the threads and the length.
pub record Argon : Type 0 where
  pub id_key : Text → Text → ℕ → ℕ → ℕ → ℕ → Text
  pub id_key-bytes : (p salt : Text) (t m n len : ℕ) → All IsByte (id_key p salt t m n len)
  pub length-id_key : (p salt : Text) (t m n len : ℕ) → length (id_key p salt t m n len) ≡ len

-- `argon2.IDKey` panics for a time, a number of threads or a key length of 0.
abbrev pub panics : ℕ → ℕ → ℕ → Bool
panics time threads len = time == 0 || threads == 0 || len == 0

-- `strings.Split` at one byte.
split_first : ℕ → Text → List Text → List Text
split_first c t [] = (c ∷ t) ∷ []
split_first c t (p ∷ ps) = (c ∷ p) ∷ ps

unfoldable pub split : ℕ → Text → List Text
unfolding split_first
split sep [] = [] ∷ []
split sep (c ∷ cs) =
    let rest = split sep cs in if c == sep then [] ∷ rest else split_first c cs rest

-- `subtle.ConstantTimeCompare`
unfoldable pub same_text : Text → Text → Bool
same_text [] [] = true
same_text [] (d ∷ ds) = false
same_text (c ∷ cs) [] = false
same_text (c ∷ cs) (d ∷ ds) = c == d && same_text cs ds

-- The literal text of a format.
unfoldable pub expect : Text → Text → Option Text
expect [] s = some s
expect (c ∷ cs) [] = none
expect (c ∷ cs) (d ∷ s) = let rest = expect cs s in if c == d then rest else none

-- The digits of a `%d`, at least one, and what is left.
unfoldable pub digits : ℕ → Bool → Text → Option (ℕ × Text)
digits acc seen [] = if seen then some (acc, []) else none
digits acc seen (c ∷ cs) =
    let rest = digits (acc * 10 + (c - b'0')) true cs in
    if is_digit c then rest else if seen then some (acc, c ∷ cs) else none

-- A value that does not fit the variable is an error.
fitting : ℕ → Option (ℕ × Text) → Option (ℕ × Text)
fitting bound none = none
fitting bound (some x) = if ltb x.0 bound then some x else none

field : Text → ℕ → Text → Option (ℕ × Text)
field literal bound s = elim (expect literal s) [
  | none ↦ none
  | some rest ↦ fitting bound (digits 0 false rest)
]

-- `fmt.Sscanf(parts[3], "m=%d,t=%d,p=%d", &memory, &time, &threads)`, of fields without spaces.
unfoldable pub scan_params : Text → Option (ℕ × ℕ × ℕ)
unfolding field fitting
scan_params s = elim (field (codes "m=") (2 ^ 32) s) [
  | none ↦ none
  | some (memory, s₁) ↦ elim (field (codes ",t=") (2 ^ 32) s₁) [
    | none ↦ none
    | some (time, s₂) ↦ elim (field (codes ",p=") (2 ^ 8) s₂) [
      | none ↦ none
      | some (threads, s₃) ↦ some (memory, time, threads)
    ]
  ]
]

abbrev pub params : Text
params =
    codes "m="
    ++ (decimal argon_memory
        ++ (codes ",t=" ++ (decimal argon_time ++ (codes ",p=" ++ decimal argon_threads))))

module _ (a : Argon) where
  abbrev pub key_of : Text → Text → Text
  key_of password salt = a.id_key password salt argon_time argon_memory argon_threads argon_key_len

  -- `fmt.Sprintf("$argon2id$v=19$m=%d,t=%d,p=%d$%s$%s", …)`
  unfoldable pub phc : Text → Text → Text
  phc salt key =
      b'$' ∷ codes "argon2id"
      ++ (b'$' ∷ codes "v=19" ++ (b'$' ∷ params ++ (b'$' ∷ encode salt ++ (b'$' ∷ encode key))))

  -- `HashPassword`, with the salt of `rand.Read` (`none`: it fails).
  unfoldable pub hash_password : Text → Option Text → Result (Unit {0}) Text
  hash_password password none = err tt
  hash_password password (some salt) = ok (phc salt (key_of password salt))

  compare_key : Text → ℕ × ℕ × ℕ → Text → Option Text → Option (Result (Unit {0}) Bool)
  compare_key password (memory, time, threads) salt none = some (err tt)
  compare_key password (memory, time, threads) salt (some want) =
      if panics time threads (length want)
      then none
      else some (ok (same_text (a.id_key password salt time memory threads (length want)) want))

  decode_key : Text → ℕ × ℕ × ℕ → Option Text → Text → Option (Result (Unit {0}) Bool)
  decode_key password ps none key = some (err tt)
  decode_key password ps (some salt) key = compare_key password ps salt (decode key)

  decode_salt : Text → Option (ℕ × ℕ × ℕ) → Text → Text → Option (Result (Unit {0}) Bool)
  decode_salt password none salt key = some (err tt)
  decode_salt password (some ps) salt key = decode_key password ps (decode salt) key

  verify_parts : Text → List Text → Option (Result (Unit {0}) Bool)
  verify_parts password (p₀ ∷ name ∷ version ∷ ps ∷ salt ∷ key ∷ []) =
      if same_text name (codes "argon2id")
      then decode_salt password (scan_params ps) salt key
      else some (err tt)
  verify_parts password parts = some (err tt)

  -- `VerifyPassword`; `none`: it panics.
  unfoldable pub verify_password : Text → Text → Option (Result (Unit {0}) Bool)
  unfolding verify_parts decode_salt decode_key compare_key
  verify_password password encoded = verify_parts password (split b'$' encoded)
