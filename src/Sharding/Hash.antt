-- ===== src/Sharding/Hash.antt =====
-- shard.go, `LogicalShard`: FNV-1a over the eight big-endian bytes of the key, modulo 256. An
-- int64 key is its bit pattern, a number below 2 ^ 64.
use Prim.Native.Nat.{bit_xor}
use yaxter.Common.{ℕ, zero, suc, ◌*◌, ◌/◌, ◌%◌, ◌^◌, ◌<◌, List, [], ◌∷◌, arith}

abbrev pub num_logical_shards : ℕ
num_logical_shards = 256

-- The offset basis and the prime of the standard library's hash/fnv, 64 bits.
abbrev offset64 : ℕ
offset64 = 14695981039346656037

abbrev prime64 : ℕ
prime64 = 1099511628211

-- `binary.BigEndian.PutUint64`: the bytes above the lowest `n` come first.
big_endian : ℕ → ℕ → List ℕ
big_endian zero x = []
big_endian (suc n) x = x / 2 ^ (8 * n) % 256 ∷ big_endian n x

-- `h.Write` on the sum so far.
write : ℕ → List ℕ → ℕ
write h [] = h
write h (b ∷ bs) = write (bit_xor h b * prime64 % 2 ^ 64) bs

unfoldable pub logical_shard : ℕ → ℕ
unfolding big_endian write
logical_shard key = write offset64 (big_endian 8 key) % num_logical_shards

pub logical_shard-lt : (key : ℕ) → logical_shard key < num_logical_shards
unfolding logical_shard
logical_shard-lt key = omega arith
