-- ===== src/Timeline/Visible.antt =====
-- The tweets of a list of ids that are still there.
use yaxter.Common.{
  ℕ, ◌<◌, ◌≡◌, refl, sym, ap, ◌∙◌, List, [], ◌∷◌, if◌then◌else◌, drop, filter, All, arith,
  Bool-cases, inl, inr,
}
use mathlib.Core.Path.{subst}
use yaxter.Common.Sort.{Descending}
use yaxter.Paging.{before}
use yaxter.Timeline.{id_key}
use yaxter.Timeline.Hydrate.{Got, got, missing, failure}

module _ {T : Type 0} (key : T → ℕ) (get : ℕ → Got T) where
  -- What an answer adds to the list.
  abbrev pub visible_of : Got T → List T → List T
  visible_of missing rest = rest
  visible_of failure rest = rest
  visible_of (got t) rest = t ∷ rest

  -- The tweets that are there, in the order of their ids.
  abbrev pub visible : List ℕ → List T
  visible [] = []
  visible (id ∷ ids) = visible_of (get id) (visible ids)

  -- An answer is a tweet of the id that was asked for, or that there is none.
  abbrev pub Answer : ℕ → Got T → Type 0
  Answer id missing = Unit
  Answer id failure = ⊥
  Answer id (got t) = (key t ≡ id) × (0 < id)

  -- The part of one answer.
  visible_of-filter :
      (c id : ℕ) (o : Got T) (rest : List T) (rest' : List T)
      → Answer id o
      → rest' ≡ filter (before key c) rest
      → (if before id_key c id then visible_of o rest' else rest')
        ≡ filter (before key c) (visible_of o rest)
  visible_of-filter c id missing rest rest' a h = ground arith
  visible_of-filter c id failure rest rest' a h = absurd a
  visible_of-filter c id (got t) rest rest' a h =
      let same : before key c t ≡ before id_key c id = ap (before id_key c) a.0 in
      elim (Bool-cases (before id_key c id)) [
        | inl keep ↦ rw (keep, same ∙ keep) (ap (λ r. t ∷ r) h)
        | inr drop ↦ rw (drop, same ∙ drop) h
      ]

  pub visible-filter :
      (c : ℕ) (ids : List ℕ)
      → ((id : ℕ) → Answer id (get id))
      → visible (filter (before id_key c) ids) ≡ filter (before key c) (visible ids)
  visible-filter c [] a = refl
  visible-filter c (id ∷ ids) a =
      let one =
        visible_of-filter c id (get id) (visible ids) (visible (filter (before id_key c) ids))
          (a id) (visible-filter c ids a) in
      elim (Bool-cases (before id_key c id)) [
        | inl keep ↦ rw keep (rw keep at one)
        | inr drop ↦ rw drop (rw drop at one)
      ]

  All-visible_of :
      (P : ℕ → Type 0) (id : ℕ) (o : Got T) (rest : List T)
      → Answer id o
      → P id
      → All (λ t. P (key t)) rest
      → All (λ t. P (key t)) (visible_of o rest)
  All-visible_of P id missing rest a p h = h
  All-visible_of P id failure rest a p h = absurd a
  All-visible_of P id (got t) rest a p h = (subst P (sym a.0) p, h)

  All-visible :
      (P : ℕ → Type 0) (ids : List ℕ)
      → ((id : ℕ) → Answer id (get id))
      → All P ids
      → All (λ t. P (key t)) (visible ids)
  All-visible P [] a h = tt
  All-visible P (id ∷ ids) a h =
      All-visible_of P id (get id) (visible ids) (a id) h.0 (All-visible P ids a h.1)

  visible_of-Descending :
      (id : ℕ) (o : Got T) (rest : List T)
      → Answer id o
      → All (λ t. key t < id) rest
      → Descending key rest
      → Descending key (visible_of o rest)
  visible_of-Descending id missing rest a h d = d
  visible_of-Descending id failure rest a h d = absurd a
  visible_of-Descending id (got t) rest a h d =
      (subst (λ n. All (λ u. key u < n) rest) (sym a.0) h, d)

  pub visible-Descending :
      (ids : List ℕ)
      → ((id : ℕ) → Answer id (get id))
      → Descending id_key ids
      → Descending key (visible ids)
  visible-Descending [] a d = tt
  visible-Descending (id ∷ ids) a d =
      visible_of-Descending id (get id) (visible ids) (a id) (All-visible (λ n. n < id) ids a d.0)
        (visible-Descending ids a d.1)

  positive-visible_of :
      (id : ℕ) (o : Got T) (rest : List T)
      → Answer id o
      → All (λ t. 0 < key t) rest
      → All (λ t. 0 < key t) (visible_of o rest)
  positive-visible_of id missing rest a h = h
  positive-visible_of id failure rest a h = absurd a
  positive-visible_of id (got t) rest a h = (subst (λ n. 0 < n) (sym a.0) a.1, h)

  pub positive-visible :
      (ids : List ℕ) → ((id : ℕ) → Answer id (get id)) → All (λ t. 0 < key t) (visible ids)
  positive-visible [] a = tt
  positive-visible (id ∷ ids) a =
      positive-visible_of id (get id) (visible ids) (a id) (positive-visible ids a)
