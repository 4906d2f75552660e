-- ===== src/Lockfree.antt =====
-- The containers of include/async_toolkit/lockfree.
pub mod Queue
pub mod BPlusTree
pub mod HashMap
pub mod Bounded
pub mod Channel
pub mod SkipList
