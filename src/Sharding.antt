-- ===== src/Sharding.antt =====
-- pkg/sharding: 256 logical shards, mapped to physical clusters by a configuration.
pub mod Hash
pub mod Ranges
pub mod ShardMap
pub mod Groups
mod Tests
