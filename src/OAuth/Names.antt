-- ===== src/OAuth/Names.antt =====
-- The search for a free username ends, with a name that nobody has.
use yaxter.Common.{
  ℕ, zero, suc, ◌+◌, ◌≤◌, ◌<◌, ◌≡◌, refl, ◌⊎◌, Bool, true, false, Option, none, some, List, [], ◌∷◌,
  ◌++◌, Result, ok, err, if◌then◌else◌, All, arith, Bool-cases, Option-cases, inl, inr, ltb, length,
  drop, length-take,
}
use mathlib.Core.Path.{subst}
use yaxter.Common.Member.{All-take}
use yaxter.Common.Decimal.{
  Text, AllDigits, digits_from, decimal, digits_from-decimal, decimal-AllDigits,
}
use yaxter.OAuth.Accounts.{Account, Db, Error, Env, Identity}
use yaxter.OAuth.Create.{
  create_user, create_searched, free_name, base_of, text_eq, candidate, is_taken, sanitize, is_word,
  clip,
}

-- A text that CITEXT compares equal to digits is those digits.
text_eq-digits : (s t : Text) → AllDigits t → text_eq s t ≡ true → s ≡ t
unfolding text_eq
text_eq-digits [] [] d h = refl
text_eq-digits [] (c ∷ t) d h = absurd (ground arith)
text_eq-digits (c ∷ s) [] d h = absurd (ground arith)
text_eq-digits (c ∷ s) (c' ∷ t) d h =
    let rest = text_eq-digits s t d.1 (ground arith) in
    let head : c ≡ c' = ground arith in rw (head, rest) refl

text_eq-drop :
    (s base rest : Text)
    → text_eq s (base ++ rest) ≡ true
    → text_eq (drop (length base) s) rest ≡ true
unfolding text_eq
text_eq-drop s [] rest h = h
text_eq-drop [] (b ∷ base) rest h = absurd (ground arith)
text_eq-drop (c ∷ s) (b ∷ base) rest h = text_eq-drop s base rest (ground arith)

abbrev value_or : Option ℕ → ℕ
value_or none = 0
value_or (some n) = n

-- The number at the end of a username that begins like the base.
number_of : Text → Text → ℕ
number_of base name = value_or (digits_from 0 (drop 1 (drop (length base) name)))

number_of-candidate :
    (base name : Text) (i : ℕ) → text_eq name (candidate base i) ≡ true → number_of base name ≡ i
unfolding number_of candidate
number_of-candidate base name i h =
    tail (drop (length base) name) (text_eq-drop name base (b'_' ∷ decimal i) h)
  where
    tail :
        (s : Text) → text_eq s (b'_' ∷ decimal i) ≡ true → value_or (digits_from 0 (drop 1 s)) ≡ i
    tail [] e = absurd (unfold text_eq in ground arith)
    tail (c ∷ s) e =
        let digits =
          text_eq-digits s (decimal i) (decimal-AllDigits i) (unfold text_eq in ground arith) in
        rw (digits, digits_from-decimal i) refl

-- The largest of these numbers.
pub largest : Text → List Account → ℕ
largest base [] = 0
largest base (u ∷ us) =
    let m = largest base us in
    if ltb m (number_of base u.username) then number_of base u.username else m

is_taken-le-largest :
    (base : Text) (i : ℕ) (us : List Account)
    → is_taken (candidate base i) us ≡ true
    → i ≤ largest base us
unfolding is_taken largest
is_taken-le-largest base i [] h = absurd (ground arith)
is_taken-le-largest base i (u ∷ us) h =
    ground (arith, number_of-candidate base u.username i, is_taken-le-largest base i us)

abbrev pub IsSome {ℓ} : {A : Type ℓ} → Option A → Type 0
IsSome none = ⊥
IsSome (some a) = Unit

module _ (fails : ℕ → Bool) (base : Text) (us : List Account) where
  later_round :
      (f i : ℕ)
      → largest base us < i + f
      → IsSome (free_name (suc f) fails base (suc i) (candidate base i) us)
  unfolding free_name
  later_round zero i h = let free = is_taken-le-largest base i us in ground (arith, free)
  later_round (suc f) i h = ground (arith, later_round f (suc i))

  -- The first round asks for the base, and round `i + 2` for the base with `i + 1`.
  pub free_name-returns :
      (username : Text) → IsSome (free_name (suc (suc (largest base us))) fails base 1 username us)
  unfolding free_name
  free_name-returns username = ground (arith, later_round (largest base us) 1)

  -- A name that is found is free, and is the first one or the base with a number.
  abbrev pub IsFresh : Text → Option (Result Error Text) → Type 0
  IsFresh first none = Unit
  IsFresh first (some (err x)) = Unit
  IsFresh first (some (ok name)) =
      (is_taken name us ≡ false) × ((name ≡ first) ⊎ ((i : ℕ) × (name ≡ candidate base i)))

  IsFresh-next :
      (first : Text) (i : ℕ) (o : Option (Result Error Text))
      → IsFresh (candidate base i) o
      → IsFresh first o
  IsFresh-next first i none h = tt
  IsFresh-next first i (some (err x)) h = tt
  IsFresh-next first i (some (ok name)) (free, inl same) = (free, inr (i, same))
  IsFresh-next first i (some (ok name)) (free, inr other) = (free, inr other)

  pub free_name-IsFresh :
      (f i : ℕ) (username : Text) → IsFresh username (free_name f fails base i username us)
  unfolding free_name
  free_name-IsFresh zero i username = tt
  free_name-IsFresh (suc f) i username =
      let later = IsFresh-next username i _ (free_name-IsFresh f (suc i) (candidate base i)) in
      elim (Bool-cases (fails i)) [
        | inl broken ↦ rw broken tt
        | inr works ↦ elim (Bool-cases (is_taken username us)) [
          | inl taken ↦ rw (works, taken) later
          | inr free ↦ rw (works, free) (free, inl refl)
        ]
      ]

sanitize-words : (s : Text) → All (λ c. is_word c ≡ true) (sanitize s)
unfolding sanitize
sanitize-words [] = tt
sanitize-words (c ∷ s) = (ground arith, sanitize-words s)

clip-bounds :
    (s : Text)
    → All (λ c. is_word c ≡ true) s
    → (3 ≤ length (clip s)) × (length (clip s) ≤ 24) × All (λ c. is_word c ≡ true) (clip s)
unfolding clip
clip-bounds s words = elim (Bool-cases (ltb (length s) 3)) [
  | inl short ↦ rw short (omega arith, omega arith, (refl, (refl, (refl, (refl, tt)))))
  | inr enough ↦ elim (Bool-cases (ltb 24 (length s))) [
    | inl long ↦
        rw (enough, long)
          (
            ground (arith, length-take 24 s),
            ground (arith, length-take 24 s),
            All-take (λ c. is_word c ≡ true) 24 s words,
          )
    | inr fits ↦ rw (enough, fits) (ground arith, ground arith, words)
  ]
]

-- The base of the username is 3 to 24 characters long, and all of them are letters, digits or
-- underscores of ASCII, whatever the provider's login is.
pub base_of-bounds :
    (login : Text)
    → (3 ≤ length (base_of login))
      × (length (base_of login) ≤ 24)
      × All (λ c. is_word c ≡ true) (base_of login)
unfolding base_of
base_of-bounds login = clip-bounds (sanitize login) (sanitize-words login)

-- `createUser` returns, whatever the login and the table: the loop ends after at most two rounds more
-- than the largest number at the end of a username that begins like the base.
pub create_user-returns :
    (e : Env) (lookups : ℕ → Bool) (p : ℕ) (ident : Identity) (db : Db)
    → IsSome (create_user (suc (suc (largest (base_of ident.login) db.users))) e lookups p ident db)
unfolding create_user create_searched
create_user-returns e lookups p ident db =
    let base = base_of ident.login in
    let found = free_name-returns lookups base db.users base in
    elim (Bool-cases (e.fails 20)) [
      | inl broken ↦ rw broken tt
      | inr works ↦
          elim (Option-cases
            (free_name (suc (suc (largest base db.users))) lookups base 1 base db.users)) [
              | inl q ↦ absurd (subst IsSome q found)
              | inr (name, q) ↦ rw (works, q, create_searched) tt
            ]
    ]
