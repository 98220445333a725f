-- ===== src/Common/Member.antt =====
-- Membership in a list.
use yaxter.Common.{
  ℕ, suc, zero, ◌≡◌, refl, sym, ap, ◌∙◌, true, List, [], ◌∷◌, ◌++◌, ◌==◌, take, map, contains, All,
  arith, Bool-cases, ◌⊎◌, inl, inr,
}
use yaxter.Common.Sort.{has_key, DistinctKeys}

module _ {A : Type 0} where
  abbrev pub In : A → List A → Type 0
  In a [] = ⊥
  In a (x ∷ xs) = (a ≡ x) ⊎ In a xs

  pub All-of_In : (P : A → Type 0) (xs : List A) → ((a : A) → In a xs → P a) → All P xs
  All-of_In P [] h = tt
  All-of_In P (x ∷ xs) h = (h x (inl refl), All-of_In P xs (λ a i. h a (inr i)))

  pub In-left : (a : A) (xs ys : List A) → In a xs → In a (xs ++ ys)
  In-left a [] ys i = absurd i
  In-left a (x ∷ xs) ys (inl p) = inl p
  In-left a (x ∷ xs) ys (inr i) = inr (In-left a xs ys i)

  pub In-right : (a : A) (xs ys : List A) → In a ys → In a (xs ++ ys)
  In-right a [] ys i = i
  In-right a (x ∷ xs) ys i = inr (In-right a xs ys i)

  pub All-take : (P : A → Type 0) (n : ℕ) (xs : List A) → All P xs → All P (take n xs)
  All-take P zero xs h = tt
  All-take P (suc n) [] h = tt
  All-take P (suc n) (x ∷ xs) h = (h.0, All-take P n xs h.1)

  module _ (key : A → ℕ) where
    has_key-In : (a : A) (xs : List A) → In a xs → has_key key (key a) xs ≡ true
    has_key-In a [] i = absurd i
    has_key-In a (x ∷ xs) (inl p) = ground (arith, ap key p)
    has_key-In a (x ∷ xs) (inr i) = ground (arith, has_key-In a xs i)

    -- A key stands for one element.
    pub In-unique :
        (a b : A) (xs : List A) → DistinctKeys key xs → In a xs → In b xs → key a ≡ key b → a ≡ b
    In-unique a b [] d i j e = absurd i
    In-unique a b (x ∷ xs) d (inl p) (inl q) e = p ∙ sym q
    In-unique a b (x ∷ xs) d (inl p) (inr j) e =
        absurd (ground (arith, has_key-In b xs j, d.0, ap key p))
    In-unique a b (x ∷ xs) d (inr i) (inl q) e =
        absurd (ground (arith, has_key-In a xs i, d.0, ap key q))
    In-unique a b (x ∷ xs) d (inr i) (inr j) e = In-unique a b xs d.1 i j e

    pub contains-In :
        (k : ℕ) (xs : List A) → contains k (map key xs) ≡ true → (a : A) × In a xs × (k ≡ key a)
    contains-In k [] h = absurd (ground arith)
    contains-In k (x ∷ xs) h = elim (Bool-cases (k == key x)) [
      | inl this ↦ (x, inl refl, ground arith)
      | inr other ↦ let (a, i, e) = contains-In k xs (ground arith) in (a, inr i, e)
    ]

pub In-map : {A B : Type 0} (f : A → B) (a : A) (xs : List A) → In a xs → In (f a) (map f xs)
In-map f a [] i = absurd i
In-map f a (x ∷ xs) (inl p) = inl (ap f p)
In-map f a (x ∷ xs) (inr i) = inr (In-map f a xs i)
