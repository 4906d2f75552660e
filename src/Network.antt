-- ===== src/Network.antt =====
-- include/async_toolkit/network/.
pub mod ConnectionPool
pub mod PoolOrder
