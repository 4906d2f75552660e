-- ===== src/Lockfree/SkipList/Above.antt =====
-- `insert` of a skip list where the new node is higher than the list.
use async_toolkit.Lockfree.SkipList.{SkipList}
