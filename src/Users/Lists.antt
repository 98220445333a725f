-- ===== src/Users/Lists.antt =====
-- internal/users/lists.go: the pages of the followers and of the followees of a user. Pages are told
-- apart by the ids of their rows.
use yaxter.Common.{
  ℕ, suc, ◌+◌, ◌<◌, ◌≡◌, refl, ◌∙◌, Bool, false, not, Option, none, some, List, [], ◌∷◌, Result, ok,
  ◌>>=◌, ◌>>◌, guard, ◌==◌, if◌then◌else◌, arith, All, length, Bool-cases, inl, inr,
}
use yaxter.Common.Sort.{
  sort_desc, has_key, DistinctKeys, has_key-sort_desc, Descending, sort_desc-Descending,
}
use yaxter.Paging.{query, cut_page}
use yaxter.Paging.Client.{collect, collect-sort_desc}
use yaxter.Users.{User, Edge, Db, Error, unavailable, find_id, get_by_username, has_edge}
use yaxter.Users.Graph.{IsValid, Distinct}

pub record Summary : Type 0 where
  pub id : ℕ
  pub username : ℕ
  pub avatar_key : Option ℕ

abbrev summary_of : User → Summary
summary_of u = record { id = u.id; username = u.username; avatar_key = u.avatar_key }

joined : Option User → List Summary → List Summary
joined none rest = rest
joined (some u) rest = summary_of u ∷ rest

-- `FROM followers f JOIN users u ON u.id = f.follower_id WHERE f.followee_id = $1`, and the same for
-- `follows`: the rows of an edge table that start at the owner.
unfoldable pub edge_rows : ℕ → List User → List Edge → List Summary
unfolding joined
edge_rows owner us [] = []
edge_rows owner us ((a, b) ∷ es) =
    if a == owner then joined (find_id b us) (edge_rows owner us es) else edge_rows owner us es

-- `edgePage`; `fails` says which of its two queries fails.
unfoldable pub edge_page :
    (ℕ → Bool) → List Edge → ℕ → ℕ → ℕ → List User → Result Error (List Summary × Option ℕ)
edge_page fails edges name cursor limit us = do
  owner ← get_by_username (fails 0) name us
  guard (not (fails 1)) unavailable
  ok (cut_page Summary.id limit (query Summary.id cursor (limit + 1) (edge_rows owner.id us edges)))

-- `Followers` and `Following`
unfoldable pub followers_page : (ℕ → Bool) → ℕ → ℕ → ℕ → Db → Result Error (List Summary × Option ℕ)
followers_page fails name cursor limit db = edge_page fails db.followers name cursor limit db.users

unfoldable pub following_page : (ℕ → Bool) → ℕ → ℕ → ℕ → Db → Result Error (List Summary × Option ℕ)
following_page fails name cursor limit db = edge_page fails db.follows name cursor limit db.users

find_id-id : (b : ℕ) (us : List User) (u : User) → find_id b us ≡ some u → u.id ≡ b
find_id-id b [] u h = absurd (ground arith)
find_id-id b (v ∷ us) u h = ground (arith, find_id-id b us u)

-- Both ends of every edge are users, as the foreign keys of the two tables see to.
abbrev pub Known : List User → List Edge → Type 0
Known us [] = Unit
Known us ((a, b) ∷ es) = ((u : User) × (find_id b us ≡ some u)) × Known us es

has_key-edge_rows :
    (owner : ℕ) (us : List User) (es : List Edge) (k : ℕ)
    → Known us es
    → has_key Summary.id k (edge_rows owner us es) ≡ has_edge owner k es
unfolding edge_rows
has_key-edge_rows owner us [] k h = refl
has_key-edge_rows owner us ((a, b) ∷ es) k ((u, q), h) =
    rw q (ground (arith, find_id-id b us u q, has_key-edge_rows owner us es k h))

edge_rows-DistinctKeys :
    (owner : ℕ) (us : List User) (es : List Edge)
    → Known us es
    → Distinct es
    → DistinctKeys Summary.id (edge_rows owner us es)
unfolding edge_rows
edge_rows-DistinctKeys owner us [] h d = tt
edge_rows-DistinctKeys owner us ((a, b) ∷ es) ((u, q), h) (new, d) =
    let rest = edge_rows-DistinctKeys owner us es h d in
    elim (Bool-cases (a == owner)) [
      | inl this ↦
          let same = find_id-id b us u q in
          let key = has_key-edge_rows owner us es u.id h in rw (this, q) (ground arith, rest)
      | inr other ↦ rw other rest
    ]

abbrev Found : Option User → Type 0
Found none = Unit
Found (some u) = 0 < u.id

Found-positive : (b : ℕ) (us : List User) → All (λ u. 0 < u.id) us → Found (find_id b us)
Found-positive b [] p = tt
Found-positive b (u ∷ us) p = elim (Bool-cases (u.id == b)) [
  | inl this ↦ rw this p.0
  | inr other ↦ rw other (Found-positive b us p.1)
]

joined-positive :
    (o : Option User) (rest : List Summary)
    → Found o
    → All (λ s. 0 < s.id) rest
    → All (λ s. 0 < s.id) (joined o rest)
unfolding joined
joined-positive none rest f h = h
joined-positive (some u) rest f h = (f, h)

edge_rows-positive :
    (owner : ℕ) (us : List User) (es : List Edge)
    → All (λ u. 0 < u.id) us
    → All (λ s. 0 < s.id) (edge_rows owner us es)
unfolding edge_rows
edge_rows-positive owner us [] p = tt
edge_rows-positive owner us ((a, b) ∷ es) p =
    let rest = edge_rows-positive owner us es p in
    elim (Bool-cases (a == owner)) [
      | inl this ↦
          rw this
            (joined-positive (find_id b us) (edge_rows owner us es) (Found-positive b us p) rest)
      | inr other ↦ rw other rest
    ]

-- The list that a client gets by following the cursors of a user's followers holds exactly the
-- users with an edge in `followers`, each once and newest id first, whatever the page size is: the
-- user exists, the database answers, every edge ends at a user, the graph is
-- valid, and ids and the page size are positive.
pub followers_page-collect :
    (name limit : ℕ) (db : Db) (owner : User)
    → get_by_username false name db.users ≡ ok owner
    → 0 < limit
    → IsValid db
    → Known db.users db.followers
    → All (λ u. 0 < u.id) db.users
    → let rows = edge_rows owner.id db.users db.followers in
      let all = sort_desc Summary.id rows in
      (collect (suc (length rows)) 0 (λ c. followers_page (λ n. false) name c limit db) ≡ ok all)
      × Descending Summary.id all
      × ((k : ℕ) → has_key Summary.id k all ≡ has_edge k owner.id db.follows)
unfolding followers_page edge_page
followers_page-collect name limit db owner found pos v known ids =
    let rows = edge_rows owner.id db.users db.followers in
    let distinct = edge_rows-DistinctKeys owner.id db.users db.followers known v.distinct_back in
    (
      collect-sort_desc Summary.id limit rows (λ c. followers_page (λ n. false) name c limit db)
          (λ c. rw found refl) pos distinct (edge_rows-positive owner.id db.users db.followers ids),
      sort_desc-Descending Summary.id rows distinct,
      λ k.
          has_key-sort_desc Summary.id k rows
          ∙ has_key-edge_rows owner.id db.users db.followers k known
          ∙ v.mirrored k owner.id,
    )
