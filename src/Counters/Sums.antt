-- ===== src/Counters/Sums.antt =====
-- The sums of deltas: what is stored of a tweet and what is buffered.
use yaxter.Common.{
  ℕ, ◌≡◌, refl, ap, sym, ◌∙◌, Bool, true, false, ◌||◌, none, some, List, [], ◌∷◌, ◌==◌,
  if◌then◌else◌, arith, Bool-cases, inl, inr,
}
use yaxter.Common.Dict.{Dict, insert, lookup_or, lookup}
use yaxter.Common.Int.{ℤ, pos, ◌+ℤ◌, eq_of_parts, +ℤ_parts}
use yaxter.Counters.{Delta, zero_delta, ◌⊕◌, Row, update, send_batch}

+ℤ_assoc : (a b c : ℤ) → a +ℤ b +ℤ c ≡ a +ℤ (b +ℤ c)
+ℤ_assoc a b c =
    eq_of_parts (a +ℤ b +ℤ c) (a +ℤ (b +ℤ c))
      (omega (arith, +ℤ_parts a b, +ℤ_parts (a +ℤ b) c, +ℤ_parts b c, +ℤ_parts a (b +ℤ c)))

+ℤ_comm : (a b : ℤ) → a +ℤ b ≡ b +ℤ a
+ℤ_comm a b = eq_of_parts (a +ℤ b) (b +ℤ a) (omega (arith, +ℤ_parts a b, +ℤ_parts b a))

+ℤ_zero : (a : ℤ) → a +ℤ pos 0 ≡ a
+ℤ_zero a = eq_of_parts (a +ℤ pos 0) a (omega (arith, +ℤ_parts a (pos 0)))

delta_ext : (a b : Delta) → a.likes ≡ b.likes → a.retweets ≡ b.retweets → a ≡ b
delta_ext a b p q = λ i. record { likes = p i; retweets = q i }

pub ⊕_assoc : (a b c : Delta) → a ⊕ b ⊕ c ≡ a ⊕ (b ⊕ c)
unfolding ◌⊕◌
⊕_assoc a b c =
    delta_ext (a ⊕ b ⊕ c) (a ⊕ (b ⊕ c)) (+ℤ_assoc a.likes b.likes c.likes)
      (+ℤ_assoc a.retweets b.retweets c.retweets)

pub ⊕_comm : (a b : Delta) → a ⊕ b ≡ b ⊕ a
unfolding ◌⊕◌
⊕_comm a b = delta_ext (a ⊕ b) (b ⊕ a) (+ℤ_comm a.likes b.likes) (+ℤ_comm a.retweets b.retweets)

pub ⊕_zero : (a : Delta) → a ⊕ zero_delta ≡ a
unfolding ◌⊕◌
⊕_zero a = delta_ext (a ⊕ zero_delta) a (+ℤ_zero a.likes) (+ℤ_zero a.retweets)

pub zero_⊕ : (a : Delta) → zero_delta ⊕ a ≡ a
zero_⊕ a = ⊕_comm zero_delta a ∙ ⊕_zero a

pub ⊕_swap : (a b c : Delta) → a ⊕ b ⊕ c ≡ a ⊕ c ⊕ b
⊕_swap a b c = ⊕_assoc a b c ∙ ap (λ x. a ⊕ x) (⊕_comm b c) ∙ sym (⊕_assoc a c b)

-- What the buffer holds for a tweet.
abbrev pub buffered : ℕ → Dict Delta → Delta
buffered t [] = zero_delta
buffered t ((k, d) ∷ ds) = if t == k then d ⊕ buffered t ds else buffered t ds

-- The columns of a tweet.
abbrev pub stored : ℕ → List Row → Delta
stored t [] = zero_delta
stored t (r ∷ rs) = if r.id == t then r.counted else stored t rs

abbrev pub has_tweet : ℕ → List Row → Bool
has_tweet t [] = false
has_tweet t (r ∷ rs) = r.id == t || has_tweet t rs

-- One delta, if it is for the tweet.
abbrev pub only : ℕ → ℕ → Delta → Delta
only t k d = if t == k then d else zero_delta

lookup_or-other :
    (k j : ℕ) (c : Delta) (ds : Dict Delta)
    → (k == j) ≡ false
    → lookup_or zero_delta k ((j, c) ∷ ds) ≡ lookup_or zero_delta k ds
lookup_or-other k j c ds h =
    let same : lookup k ((j, c) ∷ ds) ≡ lookup k ds = rw h refl in
    ap (λ o. elim o [ none ↦ zero_delta | some v ↦ v ]) same

buffered-other :
    (t k j : ℕ) (c v : Delta) (ds : Dict Delta)
    → (k == j) ≡ false
    → buffered t (insert k v ((j, c) ∷ ds))
      ≡ (if t == j then c ⊕ buffered t (insert k v ds) else buffered t (insert k v ds))
buffered-other t k j c v ds h = rw h refl

-- `deltas[k] += d`
pub buffered-insert :
    (t k : ℕ) (d : Delta) (ds : Dict Delta)
    → buffered t (insert k (lookup_or zero_delta k ds ⊕ d) ds) ≡ buffered t ds ⊕ only t k d
buffered-insert t k d [] = ground (arith, zero_⊕ d, ⊕_zero d, ⊕_zero zero_delta)
buffered-insert t k d ((j, c) ∷ ds) = elim (Bool-cases (k == j)) [
  | inl this ↦ rw this (
      ground
        (arith, ⊕_swap c (buffered t ds) d, ⊕_zero (buffered t ds), ⊕_swap c d (buffered t ds)))
  | inr other ↦
      ap (λ v. buffered t (insert k (v ⊕ d) ((j, c) ∷ ds))) (lookup_or-other k j c ds other)
      ∙ buffered-other t k j c (lookup_or zero_delta k ds ⊕ d) ds other
      ∙ rw (buffered-insert t k d ds) (ground (arith, ⊕_assoc c (buffered t ds) (only t k d)))
]

pub has_tweet-update :
    (t k : ℕ) (d : Delta) (rs : List Row) → has_tweet t (update k d rs) ≡ has_tweet t rs
unfolding update
has_tweet-update t k d [] = refl
has_tweet-update t k d (r ∷ rs) = ground (arith, has_tweet-update t k d rs)

stored-update :
    (t k : ℕ) (d : Delta) (rs : List Row)
    → has_tweet t rs ≡ true
    → stored t (update k d rs) ≡ stored t rs ⊕ only t k d
unfolding update
stored-update t k d [] h = absurd (ground arith)
stored-update t k d (r ∷ rs) h =
    ground (arith, stored-update t k d rs, ⊕_zero r.counted, ⊕_zero (stored t rs))

pub has_tweet-send_batch :
    (t : ℕ) (ds : Dict Delta) (rs : List Row) → has_tweet t (send_batch ds rs) ≡ has_tweet t rs
unfolding send_batch
has_tweet-send_batch t [] rs = refl
has_tweet-send_batch t ((k, d) ∷ ds) rs =
    has_tweet-send_batch t ds (update k d rs) ∙ has_tweet-update t k d rs

-- A batch adds to each tweet what was buffered for it.
pub stored-send_batch :
    (t : ℕ) (ds : Dict Delta) (rs : List Row)
    → has_tweet t rs ≡ true
    → stored t (send_batch ds rs) ≡ stored t rs ⊕ buffered t ds
unfolding send_batch
stored-send_batch t [] rs h = sym (⊕_zero (stored t rs))
stored-send_batch t ((k, d) ∷ ds) rs h =
    let rest = stored-send_batch t ds (update k d rs) (has_tweet-update t k d rs ∙ h) in
    let one = stored-update t k d rs h in
    ground (arith, rest, one, ⊕_assoc (stored t rs) d (buffered t ds), ⊕_zero (stored t rs))
