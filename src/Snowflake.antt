-- ===== src/Snowflake.antt =====
-- pkg/snowflake/snowflake.go: time-ordered 64-bit ids. An int64 is its bit pattern, a number
-- below 2 ^ 64; the clock is the list of readings (`UnixMilli`, from 1970 on) that the calls take.
pub mod Fields
pub mod Order
pub mod Nodes
pub mod Waiting
mod Tests
use Prim.Native.Nat.{bit_and, bit_or}
use yaxter.Common.{
  ℕ, zero, suc, ◌+◌, ◌-◌, ◌*◌, ◌/◌, ◌%◌, ◌^◌, Bool, Option, none, some, List, [], ◌∷◌, ◌||◌, ltb,
  leb, ◌==◌, if◌then◌else◌,
}

-- `EpochMs`
abbrev pub epoch_ms : ℕ
epoch_ms = 1735689600000

abbrev pub node_bits : ℕ
node_bits = 10

abbrev pub seq_bits : ℕ
seq_bits = 12

-- `(1 << nodeBits) - 1`
abbrev pub max_node : ℕ
max_node = 2 ^ node_bits - 1

-- `(1 << seqBits) - 1`
abbrev pub max_seq : ℕ
max_seq = 2 ^ seq_bits - 1

abbrev pub word : ℕ
word = 2 ^ 64

-- `x << k` and `x - y` on int64, as bit patterns.
abbrev pub shl : ℕ → ℕ → ℕ
shl x k = x * 2 ^ k % word

abbrev pub sub64 : ℕ → ℕ → ℕ
sub64 x y = (x + (word - y)) % word

abbrev pub add64 : ℕ → ℕ → ℕ
add64 x y = (x + y) % word

-- `x >> k` on int64 copies the sign bit.
abbrev pub sar : ℕ → ℕ → ℕ
sar x k = if ltb x (2 ^ 63) then x / 2 ^ k else x / 2 ^ k + (word - 2 ^ (64 - k))

-- The mutex serialises the calls of `Next`, so the state changes by whole calls. The field
-- `clock` is the list of readings that `next` takes.
pub record Generator : Type 0 where
  pub node : ℕ
  pub last_ms : ℕ
  pub seq : ℕ

-- `New`; an int64 node below 0 is a pattern above `max_node`.
unfoldable pub new : ℕ → Option Generator
new node = if ltb max_node node then none else some (record { node = node; last_ms = 0; seq = 0 })

-- `(now-EpochMs)<<(nodeBits+seqBits) | g.node<<seqBits | g.seq`
unfoldable pub pack : ℕ → ℕ → ℕ → ℕ
pack now node seq =
    bit_or (bit_or (shl (sub64 now epoch_ms) (node_bits + seq_bits)) (shl node seq_bits)) seq

-- The inner loop `for now <= g.lastMs`: one clock reading for each round. `none` says that the
-- readings have run out while the loop is still waiting.
unfoldable pub await : List ℕ → ℕ → ℕ → Option (ℕ × List ℕ)
await [] last now = if leb now last then none else some (now, [])
await (t ∷ ts) last now =
    if leb now last then await ts last (if ltb t last then last + 1 else t) else some (now, t ∷ ts)

-- `g.lastMs = now` and the packed id.
unfoldable pub finish : Generator → ℕ → ℕ → List ℕ → ℕ × Generator × List ℕ
finish g now seq clock = (pack now g.node seq, record g { last_ms = now; seq = seq }, clock)

unfoldable pub after_wait : Generator → Option (ℕ × List ℕ) → Option (ℕ × Generator × List ℕ)
after_wait g none = none
after_wait g (some (now, clock)) = some (finish g now 0 clock)

-- `Next`, with the clock readings that it takes; `none` while it waits for a later reading.
unfoldable pub next : Generator → List ℕ → Option (ℕ × Generator × List ℕ)
next g [] = none
next g (t ∷ clock) =
    let now = if ltb t g.last_ms then g.last_ms else t in
    let seq = bit_and (g.seq + 1) max_seq in
    if now == g.last_ms
    then if seq == 0
      then after_wait g (await clock g.last_ms now)
      else some (finish g now seq clock)
    else some (finish g now 0 clock)

-- `Node`
unfoldable pub node_of : ℕ → ℕ
node_of id = bit_and (sar id seq_bits) max_node

-- `Timestamp`, in Unix milliseconds.
unfoldable pub timestamp : ℕ → ℕ
timestamp id = add64 (sar id (node_bits + seq_bits)) epoch_ms

-- A run of `n` calls: the ids in the order in which they are issued, and the generator after them.
unfoldable pub issue : ℕ → Generator → List ℕ → Option (List ℕ × Generator)
issue zero g clock = some ([], g)
issue (suc n) g clock = elim (next g clock) [
  | none ↦ none
  | some (id, g', rest) ↦ elim (issue n g' rest) [
    | none ↦ none
    | some (ids, last) ↦ some (id ∷ ids, last)
  ]
]
