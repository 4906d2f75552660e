-- ===== src/Lockfree/BPlusTree.antt =====
-- `BPlusTree` of include/async_toolkit/lockfree/bptree.hpp, in one thread, with keys that are numbers.
pub mod Arrays
pub mod Leaf
pub mod Internal
pub mod Tree
pub mod Split
pub mod Range
pub mod Siblings
pub mod Merge
pub mod Route
pub mod Contents
pub mod Removal
pub mod Insertion
pub mod Levels
