-- ===== src/Snowflake/Nodes.antt =====
-- The ids of generators on different nodes.
use yaxter.Common.{
  ℕ, zero, suc, ◌+◌, ◌^◌, ◌≤◌, ◌<◌, ◌≡◌, ◌≢◌, refl, sym, ap, ◌∙◌, false, some, List, [], ◌∷◌, All,
  arith, contains, ◌==◌, Bool-cases, inl, inr,
}
use mathlib.Core.Path.{subst}
use yaxter.Snowflake.{Generator, epoch_ms, node_of, issue}
use yaxter.Snowflake.Fields.{pack_fields}
use yaxter.Snowflake.Order.{IsValid, next-advances, next-AfterEpoch, issue-suc, issue-le}

-- Every id that a valid generator issues carries its node.
issue-node :
    (n : ℕ) (g : Generator) (clock ids : List ℕ) (last : Generator)
    → IsValid g
    → All (λ t. epoch_ms ≤ t) clock
    → issue n g clock ≡ some (ids, last)
    → last.last_ms < epoch_ms + 2 ^ 41
    → All (λ id. node_of id ≡ g.node) ids
issue-node zero g clock ids last v c h hi =
    let none_yet : ids ≡ [] = unfold issue in ground arith in rw none_yet tt
issue-node (suc n) g clock ids last v c h hi =
    let (id, g', rest, ids', now, later, e) = issue-suc n g clock ids last h in
    let (same, node, fits, more) = next-advances g clock v.seq_fits now in
    let v' : IsValid g' = record { node_fits = rw node v.node_fits; seq_fits = fits } in
    let (lo, after) = next-AfterEpoch g clock c now in
    let le = issue-le n g' rest ids' last fits later in
    let read = (pack_fields g'.last_ms g'.node g'.seq (lo, omega arith) v'.node_fits fits).0 in
    let there = issue-node n g' rest ids' last v' after later hi in
    rw e (ap node_of same ∙ (read ∙ node), subst (λ k. All (λ i. node_of i ≡ k) ids') node there)

not_contained :
    (id node : ℕ) (ids : List ℕ)
    → node_of id ≢ node
    → All (λ j. node_of j ≡ node) ids
    → contains id ids ≡ false
not_contained id node [] ne h = refl
not_contained id node (j ∷ ids) ne h = elim (Bool-cases (id == j)) [
  | inl same ↦ let e : id ≡ j = ground arith in absurd (ne (ap node_of e ∙ h.0))
  | inr other ↦ ground (arith, other, not_contained id node ids ne h.1)
]

all_other :
    (node node' : ℕ) (ids ids' : List ℕ)
    → node ≢ node'
    → All (λ id. node_of id ≡ node) ids
    → All (λ id. node_of id ≡ node') ids'
    → All (λ id. contains id ids' ≡ false) ids
all_other node node' [] ids' ne h h' = tt
all_other node node' (id ∷ ids) ids' ne h h' = (
  not_contained id node' ids' (λ e. ne (sym h.0 ∙ e)) h',
  all_other node node' ids ids' ne h.1 h',
)

-- Generators on different nodes, each called any number of times, have no id in common.
pub issue_distinct :
    (n m : ℕ) (g h last last' : Generator) (clock clock' ids ids' : List ℕ)
    → IsValid g
    → IsValid h
    → g.node ≢ h.node
    → All (λ t. epoch_ms ≤ t) clock
    → All (λ t. epoch_ms ≤ t) clock'
    → issue n g clock ≡ some (ids, last)
    → issue m h clock' ≡ some (ids', last')
    → last.last_ms < epoch_ms + 2 ^ 41
    → last'.last_ms < epoch_ms + 2 ^ 41
    → All (λ id. contains id ids' ≡ false) ids
issue_distinct n m g h last last' clock clock' ids ids' vg vh ne cg ch eg eh hi hi' =
    all_other g.node h.node ids ids' ne (issue-node n g clock ids last vg cg eg hi)
      (issue-node m h clock' ids' last' vh ch eh hi')
