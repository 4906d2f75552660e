-- ===== src/Tests.antt =====
-- Concrete runs of the modelled code, which apply the theorems.
mod Memory
mod Queue
mod Tree
mod Map
mod Scheduler
mod Rpc
mod Services
mod Rebalance
mod Bounded
mod Tasks
