-- ===== src/Leases/TakenOver.antt =====
-- A node that another process has taken over: what the first one's heartbeat and release do to it.
use yaxter.Common.{
  ℕ, suc, ◌≤◌, ◌≡◌, refl, sym, ap, ◌∙◌, Bool, true, false, Option, none, some, [], ◌∷◌, ◌==◌, leb,
  if◌then◌else◌, arith, ok, err, Bool-cases, inl, inr,
}
use yaxter.Common.Sort.{DistinctKeys, has_key}
use yaxter.Snowflake.{max_node}
use yaxter.Leases.{
  Row, Table, Lease, not_owned, fresh, first_free, upsert, claim_id, claim, beats, heartbeat,
  delete, release,
}
use yaxter.Leases.Claim.{find_node, Holds, HeldBy, find_node-upsert, upsert-done}

-- `node_id` is the primary key.
abbrev pub IsKeyed : Table → Type 0
IsKeyed = DistinctKeys Row.node_id

has_key-upsert :
    (owner now ttl id j : ℕ) (t : Table)
    → (j == id) ≡ false
    → has_key Row.node_id j (upsert owner now ttl id t).1 ≡ has_key Row.node_id j t
unfolding upsert
has_key-upsert owner now ttl id j [] ne = ground arith
has_key-upsert owner now ttl id j (r ∷ t) ne =
    ground (arith, has_key-upsert owner now ttl id j t ne)

upsert-IsKeyed :
    (owner now ttl id : ℕ) (t : Table) → IsKeyed t → IsKeyed (upsert owner now ttl id t).1
unfolding upsert
upsert-IsKeyed owner now ttl id [] d = (refl, tt)
upsert-IsKeyed owner now ttl id (r ∷ t) d =
    ground
      (arith, upsert-IsKeyed owner now ttl id t d.1, has_key-upsert owner now ttl id r.node_id t)

is_owner : ℕ → Option Row → Bool
is_owner owner none = false
is_owner owner (some r) = r.leased_by == owner

beats-absent : (l : Lease) (t : Table) → has_key Row.node_id l.node_id t ≡ false → beats l t ≡ false
beats-absent l [] h = refl
beats-absent l (r ∷ t) h = ground (arith, beats-absent l t)

-- The UPDATE of a heartbeat finds the row of the node and asks for its owner.
beats-is_owner :
    (l : Lease) (t : Table) → IsKeyed t → beats l t ≡ is_owner l.owner (find_node l.node_id t)
unfolding find_node is_owner
beats-is_owner l [] d = refl
beats-is_owner l (r ∷ t) d = elim (Bool-cases (r.node_id == l.node_id)) [
  | inl same ↦
      let absent : beats l t ≡ false = beats-absent l t (ground (arith, same, d.0)) in
      ground (arith, absent)
  | inr other ↦ ground (arith, beats-is_owner l t d.1)
]

delete-absent :
    (id owner : ℕ) (t : Table)
    → has_key Row.node_id id t ≡ false
    → find_node id (delete id owner t) ≡ none
unfolding find_node delete
delete-absent id owner [] h = refl
delete-absent id owner (r ∷ t) h = ground (arith, delete-absent id owner t)

find_node-delete :
    (id owner : ℕ) (t : Table)
    → IsKeyed t
    → find_node id (delete id owner t)
      ≡ (if is_owner owner (find_node id t) then none else find_node id t)
unfolding find_node delete is_owner
find_node-delete id owner [] d = refl
find_node-delete id owner (r ∷ t) d = elim (Bool-cases (r.node_id == id)) [
  | inl same ↦
      let absent = delete-absent id owner t (ground (arith, same, d.0)) in ground (arith, absent)
  | inr other ↦ ground (arith, find_node-delete id owner t d.1)
]

claim_id-inv :
    (owner now ttl n : ℕ) (chosen : Option ℕ) (t : Table)
    → (claim_id owner now ttl chosen t).0 ≡ some n
    → ((upsert owner now ttl n t).0 ≡ true)
      × ((claim_id owner now ttl chosen t).1 ≡ (upsert owner now ttl n t).1)
unfolding claim_id
claim_id-inv owner now ttl n none t h = absurd (ground arith)
claim_id-inv owner now ttl n (some id) t h = elim (Bool-cases (upsert owner now ttl id t).0) [
  | inl done ↦ let same : id ≡ n = ground (arith, done) in rw (sym same) (done, refl)
  | inr kept ↦ absurd (ground (arith, kept))
]

expired :
    (owner until now : ℕ) (o : Option Row)
    → HeldBy owner until o
    → elim o [ none ↦ true | some r ↦ leb r.expires_at now ] ≡ true
    → until ≤ now
expired owner until now none held h = absurd held
expired owner until now (some r) held h = ground arith

-- A process has leased a node until some time, and a second process, with any owner, claims this
-- node; ids of rows are distinct. Then that time has passed. A heartbeat of the first process that
-- the database answers fails if the second owner is another one, but succeeds if the owners are
-- the same text. A release by the first process leaves the row of the second one if the owners
-- differ, but removes it if they are the same, although the second lease has not expired.
pub heartbeat-taken_over :
    (l : Lease) (until other ttl now later : ℕ) (snapshot t : Table)
    → IsKeyed t
    → Holds l.node_id l.owner until t
    → (claim other now ttl snapshot t).0 ≡ some l.node_id
    → (until ≤ now)
      × ((heartbeat false l later (claim other now ttl snapshot t).1).0
          ≡ (if other == l.owner then ok tt else err not_owned))
      × (find_node l.node_id (release false l (claim other now ttl snapshot t).1).1
          ≡ (if other == l.owner then none else some (fresh other now ttl l.node_id)))
unfolding claim heartbeat release is_owner
heartbeat-taken_over l until other ttl now later snapshot t keyed held taken =
    let (done, table) =
      claim_id-inv other now ttl l.node_id (first_free now snapshot (suc max_node) 0) t taken in
    let new = (upsert other now ttl l.node_id t).1 in
    let row : find_node l.node_id new ≡ some (fresh other now ttl l.node_id) =
      ground (arith, find_node-upsert other now ttl l.node_id l.node_id t, done) in
    let keyed' = upsert-IsKeyed other now ttl l.node_id t keyed in
    let beat = beats-is_owner l new keyed' ∙ ap (is_owner l.owner) row in
    let gone = find_node-delete l.node_id l.owner new keyed' in
    (
      expired l.owner until now (find_node l.node_id t) held
          (sym (upsert-done other now ttl l.node_id t) ∙ done),
      rw (table, beat) refl,
      rw table (rw (gone, row) refl),
    )
