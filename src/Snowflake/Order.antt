-- ===== src/Snowflake/Order.antt =====
-- Ids grow: within one generator every id is larger than those before it, and two generators with
-- different nodes never issue the same id.
use yaxter.Common.{
  ℕ, zero, suc, ◌+◌, ◌*◌, ◌^◌, ◌≤◌, ◌<◌, ◌≡◌, ◌≢◌, refl, Option, none, some, List, [], ◌∷◌, All,
  arith, inl, inr, Option-cases, ltb, if◌then◌else◌,
}
use yaxter.Common.Bits.{bit_and-ones}
use yaxter.Snowflake.{
  Generator, epoch_ms, max_node, max_seq, pack, await, finish, after_wait, next, issue,
}
use yaxter.Snowflake.Fields.{InRange, pack-eq-sum, pack_fields}

pub record IsValid (g : Generator) : Type 0 where
  pub node_fits : g.node ≤ max_node
  pub seq_fits : g.seq ≤ max_seq

-- The millisecond at which the loop ends, if it does, is later than the last one.
abbrev EndsAfter : ℕ → Option (ℕ × List ℕ) → Type 0
EndsAfter last none = Unit
EndsAfter last (some (now, rest)) = last < now

await-EndsAfter : (clock : List ℕ) (last now : ℕ) → EndsAfter last (await clock last now)
unfolding await
await-EndsAfter [] last now = ground arith
await-EndsAfter (t ∷ ts) last now =
    ground (arith, await-EndsAfter ts last (if ltb t last then last + 1 else t))

-- What one call does: it keeps the node, and goes on to a later millisecond or, in the same one,
-- to the next sequence number.
pub next-advances :
    (g : Generator) (clock : List ℕ) {id : ℕ} {g' : Generator} {rest : List ℕ}
    → g.seq ≤ max_seq
    → next g clock ≡ some (id, g', rest)
    → (id ≡ pack g'.last_ms g'.node g'.seq)
      × (g'.node ≡ g.node)
      × (g'.seq ≤ max_seq)
      × (g.last_ms * 4096 + g.seq < g'.last_ms * 4096 + g'.seq)
unfolding next finish after_wait
next-advances g [] hs h = cc
next-advances g (t ∷ clock) hs h = ground (
  arith,
  bit_and-ones 12 (g.seq + 1) max_seq refl,
  await-EndsAfter clock g.last_ms (if ltb t g.last_ms then g.last_ms else t),
)

-- Two valid packings compare as their milliseconds and sequence numbers do.
pack-lt :
    (n m node s r : ℕ)
    → InRange n
    → InRange m
    → node ≤ max_node
    → s ≤ max_seq
    → r ≤ max_seq
    → n * 4096 + s < m * 4096 + r
    → pack n node s < pack m node r
pack-lt n m node s r hn hm hk hs hr h =
    omega (arith, pack-eq-sum n node s hn hk hs, pack-eq-sum m node r hm hk hr)

-- A call of `Next` at or after the epoch, whose millisecond fits the id's 41 bits, issues an id that
-- is larger than the id of the generator's last millisecond and sequence number, and so than the
-- id before it; the generator stays valid and on its node.
pub next_increases :
    (g : Generator) (clock : List ℕ) {id : ℕ} {g' : Generator} {rest : List ℕ}
    → IsValid g
    → next g clock ≡ some (id, g', rest)
    → InRange g.last_ms
    → InRange g'.last_ms
    → (pack g.last_ms g.node g.seq < id)
      × (id ≡ pack g'.last_ms g'.node g'.seq)
      × (g'.node ≡ g.node)
      × IsValid g'
next_increases g clock {id} {g'} {rest} v h hl hr =
    let (same, node, fits, later) = next-advances g clock v.seq_fits h in
    (
      rw (same, node)
          (pack-lt g.last_ms g'.last_ms g.node g.seq g'.seq hl hr v.node_fits v.seq_fits fits
            later),
      same,
      node,
      record { node_fits = rw node v.node_fits; seq_fits = fits },
    )

-- Readings at or after the epoch leave the generator there, and the readings that are left too.
abbrev pub AfterEpoch : List ℕ → Type 0
AfterEpoch = All (λ t. epoch_ms ≤ t)

abbrev StaysAfterEpoch : Option (ℕ × List ℕ) → Type 0
StaysAfterEpoch none = Unit
StaysAfterEpoch (some (now, rest)) = AfterEpoch rest

await-StaysAfterEpoch :
    (clock : List ℕ) (last now : ℕ) → AfterEpoch clock → StaysAfterEpoch (await clock last now)
unfolding await
await-StaysAfterEpoch [] last now h = ground arith
await-StaysAfterEpoch (t ∷ ts) last now h =
    ground (arith, await-StaysAfterEpoch ts last (if ltb t last then last + 1 else t) h.1)

pub next-AfterEpoch :
    (g : Generator) (clock : List ℕ) {id : ℕ} {g' : Generator} {rest : List ℕ}
    → AfterEpoch clock
    → next g clock ≡ some (id, g', rest)
    → (epoch_ms ≤ g'.last_ms) × AfterEpoch rest
unfolding next finish after_wait
next-AfterEpoch g [] c h = cc
next-AfterEpoch g (t ∷ clock) c h =
    let now = if ltb t g.last_ms then g.last_ms else t in
    ground
      (arith, await-EndsAfter clock g.last_ms now, await-StaysAfterEpoch clock g.last_ms now c.1)

-- Each id is larger than the one before it, and the first is larger than `b`.
abbrev pub IncreasingFrom : ℕ → List ℕ → Type 0
IncreasingFrom b [] = Unit
IncreasingFrom b (x ∷ xs) = (b < x) × IncreasingFrom x xs

abbrev pub Increasing : List ℕ → Type 0
Increasing [] = Unit
Increasing (x ∷ xs) = IncreasingFrom x xs

-- What a run of at least one call consists of.
abbrev pub Issued : ℕ → Generator → List ℕ → List ℕ → Generator → Type 0
Issued n g clock ids last =
    (id : ℕ) × (g' : Generator) × (rest ids' : List ℕ) × (next g clock ≡ some (id, g', rest))
    × (issue n g' rest ≡ some (ids', last))
    × (ids ≡ id ∷ ids')

pub issue-suc :
    (n : ℕ) (g : Generator) (clock ids : List ℕ) (last : Generator)
    → issue (suc n) g clock ≡ some (ids, last)
    → Issued n g clock ids last
unfolding issue
issue-suc n g clock ids last h = elim (Option-cases (next g clock)) [
  | inl stuck ↦ absurd (ground arith)
  | inr ((id, g', rest), now) ↦ elim (Option-cases (issue n g' rest)) [
    | inl stuck ↦ absurd (ground arith)
    | inr ((ids', end), later) ↦ (id, g', rest, ids', now, ground arith, ground arith)
  ]
]

pub issue-le :
    (n : ℕ) (g : Generator) (clock ids : List ℕ) (last : Generator)
    → g.seq ≤ max_seq
    → issue n g clock ≡ some (ids, last)
    → g.last_ms ≤ last.last_ms
issue-le zero g clock ids last v h = unfold issue in ground arith
issue-le (suc n) g clock ids last v h =
    let (id, g', rest, ids', now, later, e) = issue-suc n g clock ids last h in
    let (same, node, fits, more) = next-advances g clock v now in
    omega (arith, issue-le n g' rest ids' last fits later)

issue-IncreasingFrom :
    (n : ℕ) (g : Generator) (clock ids : List ℕ) (last : Generator)
    → IsValid g
    → epoch_ms ≤ g.last_ms
    → last.last_ms < epoch_ms + 2 ^ 41
    → issue n g clock ≡ some (ids, last)
    → IncreasingFrom (pack g.last_ms g.node g.seq) ids
issue-IncreasingFrom zero g clock ids last v lo hi h = unfold issue in ground arith
issue-IncreasingFrom (suc n) g clock ids last v lo hi h =
    let (id, g', rest, ids', now, later, e) = issue-suc n g clock ids last h in
    let (same, node, fits, more) = next-advances g clock v.seq_fits now in
    let le = issue-le n g' rest ids' last fits later in
    let (up, _, _, v') = next_increases g clock v now (lo, omega arith) (omega arith) in
    rw e (up, rw same (issue-IncreasingFrom n g' rest ids' last v' (omega arith) hi later))

-- Any number of calls of one valid generator issue strictly increasing ids, as long as the clock
-- reads no time before the epoch and the last millisecond used fits the id's 41 bits. The clock may
-- stand still or go back.
pub issue-Increasing :
    (n : ℕ) (g : Generator) (clock : List ℕ) {ids : List ℕ} {last : Generator}
    → IsValid g
    → All (λ t. epoch_ms ≤ t) clock
    → issue n g clock ≡ some (ids, last)
    → last.last_ms < epoch_ms + 2 ^ 41
    → Increasing ids
issue-Increasing zero g clock v c h hi = unfold issue in ground arith
issue-Increasing (suc n) g clock {ids} {last} v c h hi =
    let (id, g', rest, ids', now, later, e) = issue-suc n g clock ids last h in
    let (same, node, fits, more) = next-advances g clock v.seq_fits now in
    let v' : IsValid g' = record { node_fits = rw node v.node_fits; seq_fits = fits } in
    let lo = (next-AfterEpoch g clock c now).0 in
    rw (e, same) (issue-IncreasingFrom n g' rest ids' last v' lo hi later)

-- Generators on different nodes never issue the same id, whatever their clocks read in the range.
pub next_distinct :
    (g h : Generator) (clock clock' : List ℕ) {id id' : ℕ} {g' h' : Generator} {rest rest' : List ℕ}
    → IsValid g
    → IsValid h
    → g.node ≢ h.node
    → next g clock ≡ some (id, g', rest)
    → next h clock' ≡ some (id', h', rest')
    → InRange g'.last_ms
    → InRange h'.last_ms
    → id ≢ id'
next_distinct g h clock clock' {id} {id'} {g'} {h'} vg vh ne eg eh rg rh e =
    let (same, node, fits, _) = next-advances g clock vg.seq_fits eg in
    let (same', node', fits', _) = next-advances h clock' vh.seq_fits eh in
    let read = (pack_fields g'.last_ms g'.node g'.seq rg (omega arith) fits).0 in
    let read' = (pack_fields h'.last_ms h'.node h'.seq rh (omega arith) fits').0 in ne (cc)
