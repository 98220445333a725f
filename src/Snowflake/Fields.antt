-- ===== src/Snowflake/Fields.antt =====
-- The three fields of an id do not overlap, so `Node` and `Timestamp` read back what went in.
use yaxter.Common.{ℕ, ◌+◌, ◌-◌, ◌*◌, ◌/◌, ◌%◌, ◌^◌, ◌≤◌, ◌<◌, ◌≡◌, refl, arith, ltb, true, tests}
use yaxter.Common.Bits.{bit_or-add, bit_and-ones}
use yaxter.Snowflake.{epoch_ms, max_node, max_seq, seq_bits, shl, sub64, pack, node_of, timestamp}

-- The readings for which `now - EpochMs` fits the 41 bits that the id has for it.
abbrev pub InRange : ℕ → Type 0
InRange now = (epoch_ms ≤ now) × (now < epoch_ms + 2 ^ 41)

pub pack-eq-sum :
    (now node seq : ℕ)
    → InRange now
    → node ≤ max_node
    → seq ≤ max_seq
    → pack now node seq ≡ (now - epoch_ms) * 2 ^ 22 + node * 2 ^ 12 + seq
unfolding pack
pack-eq-sum now node seq h hn hs =
    let ms : sub64 now epoch_ms ≡ now - epoch_ms = omega arith in
    let high : shl (now - epoch_ms) 22 ≡ (now - epoch_ms) * 2 ^ 22 = omega arith in
    let mid : shl node 12 ≡ node * 2 ^ 12 = omega arith in
    let top = bit_or-add 22 (now - epoch_ms) (node * 2 ^ 12) (omega arith) in
    let whole : (now - epoch_ms) * 2 ^ 22 + node * 2 ^ 12
        ≡ ((now - epoch_ms) * 2 ^ 10 + node) * 2 ^ 12 =
      omega arith in
    rw (ms, high, mid, top, whole)
      (bit_or-add 12 ((now - epoch_ms) * 2 ^ 10 + node) seq (omega arith))

-- An id of a generator with a valid node, issued at a millisecond of the 41-bit range, gives back
-- its node, its millisecond and, in the lowest 12 bits, its sequence number.
pub pack_fields :
    (now node seq : ℕ)
    → InRange now
    → node ≤ max_node
    → seq ≤ max_seq
    → (node_of (pack now node seq) ≡ node)
      × (timestamp (pack now node seq) ≡ now)
      × (pack now node seq % 2 ^ seq_bits ≡ seq)
unfolding node_of timestamp
pack_fields now node seq h hn hs =
    let sum = pack-eq-sum now node seq h hn hs in
    let positive : ltb (pack now node seq) (2 ^ 63) ≡ true = omega tests in
    let mask = bit_and-ones 10 (pack now node seq / 2 ^ 12) max_node refl in
    (rw positive (omega arith), rw positive (omega arith), omega arith)
