-- ===== src/Memory.antt =====
-- The memory components: size classes, the caching allocator and the block pool.
pub mod SizeClass
pub mod ThreadCache
pub mod Central
pub mod Allocator
pub mod Pool
pub mod PoolPtr
