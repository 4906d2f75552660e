-- ===== src/Tests/Map.antt =====
-- The hash map with eight buckets, and the identity as its hash.
use async_toolkit.Base.{ℕ}
use async_toolkit.Lockfree.HashMap.{HashMap, empty_map}
use async_toolkit.Lockfree.HashMap

abbrev hash : ℕ → ℕ
hash key = key

-- Keys 1 and 9 share a bucket.
abbrev two_keys : HashMap
two_keys = (HashMap.insert 8 hash (HashMap.insert 8 hash empty_map 1 10).1 9 90).1
