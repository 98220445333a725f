-- ===== src/Sharding/Groups/Calls.antt =====
-- Each cluster that owns a key is called once, with its own keys in the order in which they came.
use yaxter.Common.{
  ℕ, ◌≡◌, refl, sym, ◌∙◌, ap, Option, none, some, List, [], ◌∷◌, ◌++◌, map, ◌==◌, if◌then◌else◌,
  arith, filter, any, count, count-append, All, Bool-cases, inl, inr,
}
use mathlib.Core.List.{append-nil, append_assoc}
use yaxter.Common.Dict.{lookup, lookup_or, lookup-insert}
use yaxter.Sharding.Groups.{Groups, add_key, group_from, calls}

-- One key goes to the end of its own group.
add_key-lookup :
    (o k : ℕ) (g : Groups) (pi : ℕ)
    → lookup_or [] pi (add_key o k g).groups
      ≡ (if o == pi then lookup_or [] pi g.groups ++ k ∷ [] else lookup_or [] pi g.groups)
add_key-lookup o k g pi =
    ground (arith, lookup-insert pi o (lookup_or [] o g.groups ++ k ∷ []) g.groups)

-- After some keys, the group of `pi` holds those of its keys that came, in order.
group_from-lookup :
    (owner : ℕ → ℕ) (ks : List ℕ) (g : Groups) (pi : ℕ)
    → lookup_or [] pi (group_from owner ks g).groups
      ≡ lookup_or [] pi g.groups ++ filter (λ k. owner k == pi) ks
unfolding group_from
group_from-lookup owner [] g pi = sym (append-nil _)
group_from-lookup owner (k ∷ ks) g pi =
    let rest = group_from-lookup owner ks (add_key (owner k) k g) pi in
    let this = add_key-lookup (owner k) k g pi in
    elim (Bool-cases (owner k == pi)) [
      | inl own ↦ rw (rest, this, own) (append_assoc (lookup_or [] pi g.groups) (k ∷ []) _)
      | inr other ↦ rw (rest, this, other) refl
    ]

abbrev used : Option (List ℕ) → ℕ
used none = 0
used (some ks) = 1

-- A slot stands in the order once if it has a group, and else not at all.
add_key-order :
    (o k : ℕ) (g : Groups) (pi : ℕ)
    → count pi g.order ≡ used (lookup pi g.groups)
    → count pi (add_key o k g).order ≡ used (lookup pi (add_key o k g).groups)
add_key-order o k g pi h = ground (
  arith,
  lookup-insert pi o (lookup_or [] o g.groups ++ k ∷ []) g.groups,
  count-append pi g.order (o ∷ []),
)

group_from-order :
    (owner : ℕ → ℕ) (ks : List ℕ) (g : Groups) (pi : ℕ)
    → count pi g.order ≡ used (lookup pi g.groups)
    → let g' = group_from owner ks g in count pi g'.order ≡ used (lookup pi g'.groups)
unfolding group_from
group_from-order owner [] g pi h = h
group_from-order owner (k ∷ ks) g pi h =
    group_from-order owner ks (add_key (owner k) k g) pi (add_key-order (owner k) k g pi h)

group_from-used :
    (owner : ℕ → ℕ) (ks : List ℕ) (g : Groups) (pi : ℕ)
    → used (lookup pi (group_from owner ks g).groups)
      ≡ (if any (λ k. owner k == pi) ks then 1 else used (lookup pi g.groups))
unfolding group_from
group_from-used owner [] g pi = refl
group_from-used owner (k ∷ ks) g pi = ground (
  arith,
  group_from-used owner ks (add_key (owner k) k g) pi,
  lookup-insert pi (owner k) (lookup_or [] (owner k) g.groups ++ k ∷ []) g.groups,
)

-- The slots of the calls, and their keys.
abbrev pub slots : List (ℕ × List ℕ) → List ℕ
slots [] = []
slots ((pi, ks) ∷ cs) = pi ∷ slots cs

slots-map : (f : ℕ → List ℕ) (order : List ℕ) → slots (map (λ pi. (pi, f pi)) order) ≡ order
slots-map f [] = refl
slots-map f (pi ∷ order) = ap (λ r. pi ∷ r) (slots-map f order)

abbrev HasKeys : (ℕ → ℕ) → List ℕ → ℕ × List ℕ → Type 0
HasKeys owner keys (pi, ks) = ks ≡ filter (λ k. owner k == pi) keys

map-HasKeys :
    (owner : ℕ → ℕ) (keys order : List ℕ) (f : ℕ → List ℕ)
    → ((pi : ℕ) → f pi ≡ filter (λ k. owner k == pi) keys)
    → All (HasKeys owner keys) (map (λ pi. (pi, f pi)) order)
map-HasKeys owner keys [] f h = tt
map-HasKeys owner keys (pi ∷ order) f h = (h pi, map-HasKeys owner keys order f h)

-- The calls that `ForEachShard` makes: a slot is called exactly once if it owns one of the keys,
-- and else not at all, and each call passes all the keys of its slot in their input order.
pub calls-exact :
    (owner : ℕ → ℕ) (keys : List ℕ)
    → ((pi : ℕ)
        → count pi (slots (calls owner keys)) ≡ (if any (λ k. owner k == pi) keys then 1 else 0))
      × All (λ (pi, ks). ks ≡ filter (λ k. owner k == pi) keys) (calls owner keys)
unfolding calls
calls-exact owner keys =
    let empty : Groups = record { groups = []; order = [] } in
    let g = group_from owner keys empty in
    let f = λ (pi : ℕ). lookup_or [] pi g.groups in
    (
      λ pi.
          rw (slots-map f g.order)
            (group_from-order owner keys empty pi refl ∙ group_from-used owner keys empty pi),
      map-HasKeys owner keys g.order f (λ pi. group_from-lookup owner keys empty pi),
    )
