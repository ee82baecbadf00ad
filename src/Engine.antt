-- ===== src/Engine.antt =====
-- internal/engine: items, the LRU evictor, the four containers, shards and the cache.
pub mod Item
pub mod Lru
pub mod Hash
pub mod ListValue
pub mod SetValue
pub mod SortedSet
pub mod Pattern
pub mod Shard
pub mod Cache
