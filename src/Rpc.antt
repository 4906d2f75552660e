-- ===== src/Rpc.antt =====
-- include/async_toolkit/rpc/.
pub mod Balancer
pub mod Serializer
