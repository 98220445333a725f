-- ===== src/Timeline/Merge.antt =====
-- `mergeDesc` gives the ids of its argument, each once and newest first.
use yaxter.Common.{
  ℕ, ◌≡◌, refl, sym, ap, ◌∙◌, true, false, not, ◌&&◌, ◌||◌, List, [], ◌∷◌, ◌==◌, contains, arith,
  Bool-cases, inl, inr,
}
use yaxter.Common.Sort.{
  sort_desc, Descending, DistinctKeys, has_key, has_key-sort_desc, sort_desc-Descending,
}
use yaxter.Timeline.{unique, id_key, merge_desc}

pub has_key-contains : (i : ℕ) (xs : List ℕ) → has_key id_key i xs ≡ contains i xs
has_key-contains i [] = refl
has_key-contains i (x ∷ xs) = ap (λ b. i == x || b) (has_key-contains i xs)

contains-unique :
    (i : ℕ) (seen xs : List ℕ)
    → contains i (unique seen xs) ≡ (contains i xs && not (contains i seen))
contains-unique i seen [] = refl
contains-unique i seen (x ∷ xs) = elim (Bool-cases (contains x seen)) [
  | inl old ↦ rw old (elim (Bool-cases (i == x)) [
    | inl same ↦
        let at : i ≡ x = ground arith in
        let old' : contains i seen ≡ true = ap (λ j. contains j seen) at ∙ old in
        ground (arith, contains-unique i seen xs)
    | inr differ ↦ ground (arith, contains-unique i seen xs)
  ])
  | inr new ↦ rw new (elim (Bool-cases (i == x)) [
    | inl same ↦
        let at : i ≡ x = ground arith in
        let new' : contains i seen ≡ false = ap (λ j. contains j seen) at ∙ new in
        ground (arith, contains-unique i (x ∷ seen) xs)
    | inr differ ↦ ground (arith, contains-unique i (x ∷ seen) xs)
  ])
]

unique-DistinctKeys : (seen xs : List ℕ) → DistinctKeys id_key (unique seen xs)
unique-DistinctKeys seen [] = tt
unique-DistinctKeys seen (x ∷ xs) = elim (Bool-cases (contains x seen)) [
  | inl old ↦ rw old (unique-DistinctKeys seen xs)
  | inr new ↦ rw new (
    has_key-contains x (unique (x ∷ seen) xs) ∙ ground (arith, contains-unique x (x ∷ seen) xs),
    unique-DistinctKeys (x ∷ seen) xs,
  )
]

-- `mergeDesc` gives exactly the ids of its argument, strictly descending, so each only once.
pub merge_desc-Descending :
    (ids : List ℕ)
    → Descending id_key (merge_desc ids) × ((i : ℕ) → contains i (merge_desc ids) ≡ contains i ids)
unfolding merge_desc
merge_desc-Descending ids = (
  sort_desc-Descending id_key (unique [] ids) (unique-DistinctKeys [] ids),
  λ i.
      sym (has_key-contains i (sort_desc id_key (unique [] ids)))
      ∙ has_key-sort_desc id_key i (unique [] ids)
      ∙ has_key-contains i (unique [] ids)
      ∙ ground (arith, contains-unique i [] ids),
)
