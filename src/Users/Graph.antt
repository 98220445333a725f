-- ===== src/Users/Graph.antt =====
-- The invariant of the follow graph, and what adding or removing an edge does to its degrees.
use yaxter.Common.{
  ℕ, ◌+◌, ◌≡◌, ◌≢◌, refl, Bool, true, false, not, ◌&&◌, ◌||◌, List, [], ◌∷◌, ◌==◌, if◌then◌else◌,
  arith, All, Bool-cases, inl, inr,
}
use yaxter.Common.Int.{ℤ, pos, negsuc, ◌+ℤ◌}
use yaxter.Users.{
  User, Edge, Db, edge_eq, has_edge, add_edge, remove_edge, add_followers, add_following, delta_of,
  changes, write_edge,
}

-- How many edges lead to a node, and from it.
abbrev pub in_degree : ℕ → List Edge → ℕ
in_degree x [] = 0
in_degree x ((a, b) ∷ es) = (if b == x then 1 else 0) + in_degree x es

abbrev pub out_degree : ℕ → List Edge → ℕ
out_degree x [] = 0
out_degree x ((a, b) ∷ es) = (if a == x then 1 else 0) + out_degree x es

-- No edge is stored twice.
abbrev pub Distinct : List Edge → Type 0
Distinct [] = Unit
Distinct ((a, b) ∷ es) = (has_edge a b es ≡ false) × Distinct es

-- The two counters of a row agree with the edges.
abbrev pub Counted : List Edge → User → Type 0
Counted es u =
    (u.followers_count ≡ pos (in_degree u.id es)) × (u.following_count ≡ pos (out_degree u.id es))

-- Between two calls: the counters agree with the edges, the table `followers` holds each edge of
-- `follows` the other way round and no other, no edge is stored twice, and nobody follows oneself.
pub record IsValid (db : Db) : Type 0 where
  pub counted : All (Counted db.follows) db.users
  pub mirrored : (a b : ℕ) → has_edge b a db.followers ≡ has_edge a b db.follows
  pub distinct : Distinct db.follows
  pub distinct_back : Distinct db.followers
  pub irreflexive : (a : ℕ) → has_edge a a db.follows ≡ false

pub has_edge-add_edge :
    (a b c d : ℕ) (es : List Edge)
    → has_edge c d (add_edge a b es) ≡ (edge_eq c d (a, b) || has_edge c d es)
unfolding add_edge
has_edge-add_edge a b c d es = ground arith

pub has_edge-remove_edge :
    (a b c d : ℕ) (es : List Edge)
    → has_edge c d (remove_edge a b es) ≡ (not (edge_eq c d (a, b)) && has_edge c d es)
unfolding remove_edge
has_edge-remove_edge a b c d [] = ground arith
has_edge-remove_edge a b c d ((x, y) ∷ es) = ground (arith, has_edge-remove_edge a b c d es)

add_edge-Distinct : (a b : ℕ) (es : List Edge) → Distinct es → Distinct (add_edge a b es)
unfolding add_edge
add_edge-Distinct a b es h = elim (Bool-cases (has_edge a b es)) [
  | inl old ↦ rw old h
  | inr new ↦ rw new (new, h)
]

remove_edge-Distinct : (a b : ℕ) (es : List Edge) → Distinct es → Distinct (remove_edge a b es)
unfolding remove_edge
remove_edge-Distinct a b [] h = tt
remove_edge-Distinct a b ((x, y) ∷ es) h = elim (Bool-cases (edge_eq a b (x, y))) [
  | inl this ↦ rw this (remove_edge-Distinct a b es h.1)
  | inr other ↦
      rw other
        (ground (arith, has_edge-remove_edge a b x y es, h.0), remove_edge-Distinct a b es h.1)
]

remove_edge-absent : (a b : ℕ) (es : List Edge) → has_edge a b es ≡ false → remove_edge a b es ≡ es
unfolding remove_edge
remove_edge-absent a b [] h = refl
remove_edge-absent a b ((x, y) ∷ es) h = ground (arith, remove_edge-absent a b es)

-- Removing an edge that is there lowers the two degrees of its ends by one.
in_degree-remove_edge :
    (a b x : ℕ) (es : List Edge)
    → Distinct es
    → has_edge a b es ≡ true
    → in_degree x (remove_edge a b es) + (if b == x then 1 else 0) ≡ in_degree x es
unfolding remove_edge
in_degree-remove_edge a b x [] d h = cc
in_degree-remove_edge a b x ((c, e) ∷ es) d h =
    ground (arith, in_degree-remove_edge a b x es d.1, remove_edge-absent a b es, d.0)

out_degree-remove_edge :
    (a b x : ℕ) (es : List Edge)
    → Distinct es
    → has_edge a b es ≡ true
    → out_degree x (remove_edge a b es) + (if a == x then 1 else 0) ≡ out_degree x es
unfolding remove_edge
out_degree-remove_edge a b x [] d h = cc
out_degree-remove_edge a b x ((c, e) ∷ es) d h =
    ground (arith, out_degree-remove_edge a b x es d.1, remove_edge-absent a b es, d.0)

pos_up : (n : ℕ) → pos n +ℤ pos 1 ≡ pos (n + 1)
unfolding ◌+ℤ◌
pos_up n = ground arith

pos_down : (n : ℕ) → pos (n + 1) +ℤ negsuc 0 ≡ pos n
unfolding ◌+ℤ◌
pos_down n = ground arith

-- The two updates of the counters follow a change of the edges that moves the degrees of its ends
-- by `step`.
abbrev Moves : (ℤ → ℤ) → ℕ → ℕ → List Edge → List Edge → Type 0
Moves step a b es es' =
    (x : ℕ)
    → (pos (in_degree x es')
        ≡ (if b == x then step (pos (in_degree x es)) else pos (in_degree x es)))
      × (pos (out_degree x es')
          ≡ (if a == x then step (pos (out_degree x es)) else pos (out_degree x es)))

counters-Counted :
    (delta : ℤ) (a b : ℕ) (es es' : List Edge) (us : List User)
    → Moves (λ n. n +ℤ delta) a b es es'
    → All (Counted es) us
    → All (Counted es') (add_following a delta (add_followers b delta us))
unfolding add_following add_followers
counters-Counted delta a b es es' [] m h = tt
counters-Counted delta a b es es' (u ∷ us) m h =
    (ground (arith, m u.id, h.0), counters-Counted delta a b es es' us m h.1)

add_edge-Moves :
    (a b : ℕ) (es : List Edge)
    → has_edge a b es ≡ false
    → Moves (λ n. n +ℤ pos 1) a b es (add_edge a b es)
unfolding add_edge
add_edge-Moves a b es h =
    λ x. rw h (ground (arith, pos_up (in_degree x es), pos_up (out_degree x es)))

remove_edge-Moves :
    (a b : ℕ) (es : List Edge)
    → Distinct es
    → has_edge a b es ≡ true
    → Moves (λ n. n +ℤ negsuc 0) a b es (remove_edge a b es)
remove_edge-Moves a b es d h = λ x. ground (
  arith,
  in_degree-remove_edge a b x es d h,
  out_degree-remove_edge a b x es d h,
  pos_down (in_degree x (remove_edge a b es)),
  pos_down (out_degree x (remove_edge a b es)),
)

-- One change of the graph, with its counters.
abbrev pub changed : Bool → ℕ → ℕ → Db → Db
changed follow a b db = record db {
  users = add_following a (delta_of follow) (add_followers b (delta_of follow) db.users);
  follows = write_edge follow a b db.follows;
  followers = write_edge follow b a db.followers;
}

pub changed-IsValid :
    (follow : Bool) (a b : ℕ) (db : Db)
    → b ≢ a
    → changes follow a b db.follows ≡ true
    → IsValid db
    → IsValid (changed follow a b db)
unfolding delta_of
changed-IsValid true a b db ne c v = record {
  counted =
      counters-Counted (pos 1) a b db.follows (add_edge a b db.follows) db.users
        (add_edge-Moves a b db.follows (ground arith)) v.counted;
  mirrored = λ c d. ground (
    arith,
    has_edge-add_edge a b c d db.follows,
    has_edge-add_edge b a d c db.followers,
    v.mirrored c d,
  );
  distinct = add_edge-Distinct a b db.follows v.distinct;
  distinct_back = add_edge-Distinct b a db.followers v.distinct_back;
  irreflexive = λ c. ground (arith, has_edge-add_edge a b c c db.follows, v.irreflexive c);
}
changed-IsValid false a b db ne c v = record {
  counted =
      counters-Counted (negsuc 0) a b db.follows (remove_edge a b db.follows) db.users
        (remove_edge-Moves a b db.follows v.distinct c) v.counted;
  mirrored = λ c d. ground (
    arith,
    has_edge-remove_edge a b c d db.follows,
    has_edge-remove_edge b a d c db.followers,
    v.mirrored c d,
  );
  distinct = remove_edge-Distinct a b db.follows v.distinct;
  distinct_back = remove_edge-Distinct b a db.followers v.distinct_back;
  irreflexive = λ c. ground (arith, has_edge-remove_edge a b c c db.follows, v.irreflexive c);
}
