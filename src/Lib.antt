-- ===== src/Lib.antt =====
-- A verification library for async_toolkit: models of its headers under include/async_toolkit,
-- and theorems about them. All of the toolkit is templates in headers, so the headers are the
-- program.
--
-- The parts. memory/ hands out blocks: MemoryPool cuts chunks into blocks of one size, Allocator
-- sends small requests through a cache per thread to a central cache and large ones to the
-- operating system. lockfree/ has the containers. scheduler/, executor/ and coroutine/ run tasks
-- on threads, from queues that they lock or that come from lockfree/; graph/ orders tasks by
-- their dependencies. actor/ has actors, which receive from a bounded channel in a thread of
-- their own, and coroutine/ also a pool of threads. simd/ has vectors of numbers. reactor/ has
-- the event loop with its timers, network/ the pool of connections that belongs to it, rpc/ the
-- load balancers, logging/ the logger, which writes in a thread of its own.
--
-- How the files correspond to the code.
-- - Base: numbers, lists, options, and how often a number stands in a list. PriorityQueue:
--   std::priority_queue, for a comparison that is a strict weak order.
-- - Memory/SizeClass, ThreadCache, Central, Allocator: include/async_toolkit/memory/allocator.hpp,
--   class by class (SizeClass, ThreadCache, MemoryStats and CentralCache, BlockHeader and
--   Allocator). Memory/Pool: MemoryPool of include/async_toolkit/memory/memory_pool.hpp;
--   Pool/Chain and Pool/Valid have its free list and its invariant, Pool/History its runs.
--   Memory/PoolPtr: PoolPtr, the owning handle.
-- - Lockfree/Queue: push and pop of include/async_toolkit/lockfree/queue.hpp as moves of threads,
--   one shared access each (`Move`); Queue/Invariant, Moves, Steps and Refines prove what the
--   moves keep. Lockfree/BPlusTree: include/async_toolkit/lockfree/bptree.hpp, with the array
--   loops in Arrays, LeafNode in Leaf, InternalNode in Internal, BPlusTree in Tree, its splits in
--   Split and range_query in Range. BPlusTree/Siblings: what merge_nodes and merge_internal_node
--   do to two neighbours and their parent; Merge: these two functions, and `remove` of the tree;
--   Merge/Moved, Joined and Keeps: a parent whose leaves exchange entries or are joined; Levels:
--   trees of any height, merge_internal_node and `remove` over all levels; Contents, Insertion and
--   Removal: what `find` gives after a change in the whole tree. Lockfree/HashMap:
--   include/async_toolkit/lockfree/hashmap.hpp.
-- - Lockfree/Bounded: include/async_toolkit/lockfree/mpmc_queue.hpp, and Lockfree/Channel:
--   include/async_toolkit/lockfree/mpmc_channel.hpp, both in calls that do not overlap, with weak
--   exchanges that may fail for no reason. Lockfree/SkipList:
--   include/async_toolkit/lockfree/skiplist.hpp, in one thread; Above: nodes that are higher than
--   the list; Row, Lookup, Flat, Calls and Runs: lists where all nodes have level 1, as maps.
-- - Scheduler/Stealing and Batch: include/async_toolkit/scheduler/work_stealing_scheduler.hpp
--   (WorkStealingQueue, submit, worker_loop; submit_batch). Scheduler/Priority:
--   include/async_toolkit/scheduler/priority_scheduler.hpp (Task, schedule, schedule_after,
--   schedule_at, cancel, worker_loop).
-- - Executor: include/async_toolkit/executor/thread_pool_executor.hpp. Coroutine/Scheduler: the
--   Scheduler of include/async_toolkit/coroutine/scheduler.hpp. Coroutine/TaskPool:
--   include/async_toolkit/coroutine/task_pool.hpp. Actor, with Router for the router, the
--   supervisor and the actor system: include/async_toolkit/actor/actor.hpp. Graph:
--   include/async_toolkit/graph/task_graph.hpp.
-- - Reactor: the timers of include/async_toolkit/reactor/event_loop.hpp. Network/ConnectionPool:
--   include/async_toolkit/network/connection_pool.hpp. Logging:
--   include/async_toolkit/logging/async_logger.hpp. Rpc/Balancer, with Ring for the consistent
--   hashing: include/async_toolkit/rpc/load_balancer.hpp. Rpc/Serializer:
--   include/async_toolkit/rpc/serializer.hpp.
-- - Simd: include/async_toolkit/simd/simd_ops.hpp, for vectors of float4, of double2 and of any
--   other kind, with and without SSE.
-- - Tests: runs at concrete inputs.
--
-- State is a record that the operations take and return. A call that holds a mutex is one step,
-- and a run of several threads is the sequence of these steps in any order; the lock-free queue
-- is a step relation instead, with a program counter per thread. Counters of type size_t wrap at
-- 2^64. `none` is undefined behaviour, an exception or a null pointer, as each file says.
-- Numbers stand for tasks, servers, messages, keys and addresses, with 0 the null pointer.
--
-- Fuel. process_timers counts rounds, the logger's finish steps, and the drain of a cancelled
-- queue tasks; their theorems say how much is enough. In the tree descend counts levels, insert
-- rounds and walk leaves: too little fuel is `none`, and the theorem on range queries supposes
-- that the linked leaves end within it. Removal goes up the path that the search came down. In
-- the bounded queue and the channel fuel counts rounds: the failing exchanges and three rounds
-- for a call of the queue, and one for the channel. In the skip list it counts the nodes of one
-- level. Other loops recurse on their lists or counters.
--
-- Parameters: mmap's answers, the two calls between the caches and allocate_new_span, which the
-- repository declares and does not define, hash functions, clocks, random draws, the size of a
-- log entry, how a coroutine's resumptions end, which exchanges fail, which draws of the skip
-- list's level are below one half, which functions of an actor throw, the intrinsics and the
-- arithmetic of the vectors, and the serializer's libraries.
--
-- Not modelled: coroutine frames (include/async_toolkit/coroutine/task.hpp, pipeline.hpp), the
-- interleavings of include/async_toolkit/lockfree/mpmc_queue.hpp, mpmc_channel.hpp, hashmap.hpp,
-- skiplist.hpp and bptree.hpp, sockets and the Windows branches, weak memory orders, and the
-- destructors of the containers.
pub mod Base
pub mod PriorityQueue
pub mod Memory
pub mod Lockfree
pub mod Scheduler
pub mod Executor
pub mod Coroutine
pub mod Graph
pub mod Reactor
pub mod Network
pub mod Logging
pub mod Rpc
pub mod Actor
pub mod Simd
pub mod Tests
