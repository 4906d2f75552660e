-- ===== src/Lockfree/BPlusTree/Levels.antt =====
-- Where searches go in a B+ tree of several levels, when `merge_internal_node` of
-- include/async_toolkit/lockfree/bptree.hpp goes up its path.
pub mod Asked
pub mod Reach
pub mod Step
pub mod Next
pub mod Plans
pub mod Rounds
pub mod Climb
pub mod Found
pub mod Sound
pub mod Bottom
pub mod Removed
