-- ===== src/Users/Follow.antt =====
-- What `Follow` and `Unfollow` do: they keep the graph valid, they set exactly the edge that was
-- asked for, and they emit one event when something changed and none otherwise.
use yaxter.Common.{
  ℕ, ◌≡◌, ◌≢◌, refl, Bool, true, false, Option, none, some, List, [], ◌∷◌, ok, if◌then◌else◌, arith,
  ◌⊎◌, Bool-cases, Option-cases, Result-cases, is_ok, is_err, inl, inr,
}
use mathlib.Core.Path.{subst}
use yaxter.Events.{Message, codes, emit, emit-ok, event_key, follow_changed}
use yaxter.Users.{
  User, Edge, Db, Env, CacheKey, find_username, get_by_username, edge_eq, has_edge, delta_of,
  changes, write_edge, stale_keys, apply_change, set_follow,
}
use yaxter.Users.Graph.{IsValid, changed, changed-IsValid, has_edge-add_edge, has_edge-remove_edge}

-- The event of a change.
abbrev pub event_of : Env → ℕ → ℕ → Bool → Message
event_of e follower followee follow = record {
  id = e.fresh_id;
  topic = codes "follows.v1";
  key = event_key followee;
  payload = record { event_id = e.fresh_id; payload = follow_changed follower followee follow };
}

apply_change-ok :
    (threshold : ℕ) (e : Env) (follower : ℕ) (u : User) (follow : Bool) (db db' : Db)
    (keys : List CacheKey)
    → apply_change threshold e follower u follow db ≡ ok (db', keys)
    → (db' ≡ record (changed follow follower u.id db) {
      outbox = event_of e follower u.id follow ∷ db.outbox;
    })
      × (keys ≡ stale_keys threshold u follower (delta_of follow))
unfolding apply_change
apply_change-ok threshold e follower u follow db db' keys h =
    elim (Result-cases (
      emit (e.fails 6) (e.fails 7) e.fresh_id (codes "follows.v1") (event_key u.id)
        (follow_changed follower u.id follow) db.outbox)) [
          | is_err x q ↦ absurd (ground arith)
          | is_ok outbox q ↦
              let one =
                emit-ok (e.fails 6) (e.fails 7) e.fresh_id (codes "follows.v1") (event_key u.id)
                  (follow_changed follower u.id follow) db.outbox outbox q in
              ground arith
        ]

-- The two ways a call succeeds: it changed the edge, or there was nothing to change.
abbrev Succeeded : ℕ → Env → ℕ → Bool → Db → Db → List CacheKey → Option User → Type 0
Succeeded threshold e follower follow db db' keys none = ⊥
Succeeded threshold e follower follow db db' keys (some u) =
    (u.id ≢ follower)
    × ((changes follow follower u.id db.follows ≡ true)
          × (apply_change threshold e follower u follow db ≡ ok (db', keys))
        ⊎ (changes follow follower u.id db.follows ≡ false) × (db' ≡ db) × (keys ≡ []))

set_follow-Succeeded :
    (threshold : ℕ) (e : Env) (follower name : ℕ) (follow : Bool) (db db' : Db)
    (keys : List CacheKey)
    → set_follow threshold e follower name follow db ≡ ok (db', keys)
    → Succeeded threshold e follower follow db db' keys (find_username name db.users)
unfolding set_follow get_by_username
set_follow-Succeeded threshold e follower name follow db db' keys h =
    elim (Option-cases (find_username name db.users)) [
      | inl q ↦ absurd (ground arith)
      | inr (u, q) ↦ elim (Bool-cases (changes follow follower u.id db.follows)) [
        | inl c ↦ rw q (ground arith, inl (c, ground arith))
        | inr c ↦ rw q (ground arith, inr (c, ground arith, ground arith))
      ]
    ]

outbox-IsValid :
    (db : Db) (outbox : List Message) → IsValid db → IsValid (record db { outbox = outbox })
outbox-IsValid db outbox v = record {
  counted = v.counted;
  mirrored = v.mirrored;
  distinct = v.distinct;
  distinct_back = v.distinct_back;
  irreflexive = v.irreflexive;
}

-- A valid follow graph stays valid when `Follow` or `Unfollow` succeeds: the counters of every user
-- still equal the numbers of edges, and the two edge tables still mirror each other.
pub set_follow-IsValid :
    (threshold : ℕ) (e : Env) (follower name : ℕ) (follow : Bool) (db db' : Db)
    (keys : List CacheKey)
    → set_follow threshold e follower name follow db ≡ ok (db', keys)
    → IsValid db
    → IsValid db'
set_follow-IsValid threshold e follower name follow db db' keys h v =
    let s = set_follow-Succeeded threshold e follower name follow db db' keys h in
    elim (Option-cases (find_username name db.users)) [
      | inl q ↦ absurd (subst (Succeeded threshold e follower follow db db' keys) q s)
      | inr (u, q) ↦
          let s' = subst (Succeeded threshold e follower follow db db' keys) q s in
          elim s'.1 [
            | inl (c, a) ↦
                let (d, k) = apply_change-ok threshold e follower u follow db db' keys a in
                rw d (
                  outbox-IsValid (changed follow follower u.id db)
                    (event_of e follower u.id follow ∷ db.outbox)
                    (changed-IsValid follow follower u.id db s'.0 c v))
            | inr (c, same, k) ↦ rw same v
          ]
    ]

-- What a successful call leaves behind, where `followee` is the user of the given name.
abbrev pub Effect : ℕ → Env → ℕ → Bool → Db → Db → List CacheKey → Option User → Type 0
Effect threshold e follower follow db db' keys none = ⊥
Effect threshold e follower follow db db' keys (some followee) =
    (followee.id ≢ follower)
    × ((a b : ℕ)
        → has_edge a b db'.follows
          ≡ (if edge_eq a b (follower, followee.id) then follow else has_edge a b db.follows))
    × (db'.outbox ≡ (
        if changes follow follower followee.id db.follows
        then event_of e follower followee.id follow ∷ db.outbox
        else db.outbox))
    × (keys ≡ (
        if changes follow follower followee.id db.follows
        then stale_keys threshold followee follower (delta_of follow)
        else []))

write_edge-Effect :
    (follow : Bool) (a b c d : ℕ) (es : List Edge)
    → has_edge c d (write_edge follow a b es)
      ≡ (if edge_eq c d (a, b) then follow else has_edge c d es)
write_edge-Effect true a b c d es = ground (arith, has_edge-add_edge a b c d es)
write_edge-Effect false a b c d es = ground (arith, has_edge-remove_edge a b c d es)

kept-Effect :
    (follow : Bool) (a b c d : ℕ) (es : List Edge)
    → changes follow a b es ≡ false
    → has_edge c d es ≡ (if edge_eq c d (a, b) then follow else has_edge c d es)
kept-Effect true a b c d es h = ground arith
kept-Effect false a b c d es h = ground arith

-- When `Follow` or `Unfollow` succeeds, the name is that of a user other than the caller; the edge
-- to that user is there after `Follow` and gone after `Unfollow`, and every other edge is as
-- before; when this changed something, exactly one `FollowChanged` event is added to the outbox and
-- the cached profiles of both users are dropped, and otherwise neither happens.
pub set_follow-Effect :
    (threshold : ℕ) (e : Env) (follower name : ℕ) (follow : Bool) (db db' : Db)
    (keys : List CacheKey)
    → set_follow threshold e follower name follow db ≡ ok (db', keys)
    → Effect threshold e follower follow db db' keys (find_username name db.users)
set_follow-Effect threshold e follower name follow db db' keys h =
    let s = set_follow-Succeeded threshold e follower name follow db db' keys h in
    elim (Option-cases (find_username name db.users)) [
      | inl q ↦ absurd (subst (Succeeded threshold e follower follow db db' keys) q s)
      | inr (u, q) ↦
          let s' = subst (Succeeded threshold e follower follow db db' keys) q s in
          elim s'.1 [
            | inl (c, a) ↦
                let (d, k) = apply_change-ok threshold e follower u follow db db' keys a in
                rw (q, c, d, k)
                  (s'.0, λ x y. write_edge-Effect follow follower u.id x y db.follows, refl, refl)
            | inr (c, same, k) ↦
                rw (q, c, same, k)
                  (s'.0, λ x y. kept-Effect follow follower u.id x y db.follows c, refl, refl)
          ]
    ]
