-- ===== src/Lockfree/BPlusTree/Levels/Removed.antt =====
-- `remove` in a tree in order, of any number of levels.
use mathlib.Core.Option
use async_toolkit.Lockfree.BPlusTree.Leaf.{Leaf}
use async_toolkit.Lockfree.BPlusTree.Leaf
use async_toolkit.Lockfree.BPlusTree.Tree.{Tree}
use async_toolkit.Lockfree.BPlusTree.Merge
