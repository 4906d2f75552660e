-- ===== src/Memory/Pool.antt =====
-- `MemoryPool` of include/async_toolkit/memory/memory_pool.hpp. The blocks of chunk `c` have the
-- addresses `c * per_chunk + 1` to `c * per_chunk + per_chunk`, and 0 is the null pointer: `new`
-- gives chunks that do not overlap. `per_chunk` is `chunk_size / sizeof(Block)`. Each call takes the
-- pool's mutex, so it is one step; the constructor and destructor of `T` do not touch `next`.
pub mod Chain
pub mod Valid
pub mod History
use async_toolkit.Base.{ℕ, zero, suc, ◌+◌, ◌-◌, ◌*◌, ◌==◌, if◌then◌else◌}

-- `block->next`
abbrev pub Links : Type 0
Links = ℕ → ℕ

abbrev pub write : Links → ℕ → ℕ → Links
write next p q a = if a == p then q else next a

pub record MemoryPool : Type 0 where
  pub next : Links
  pub free_list : ℕ
  pub chunks : ℕ

abbrev pub empty_pool : MemoryPool
empty_pool = record { next = λ _. 0; free_list = 0; chunks = 0 }

-- The loop of `allocate_chunk`: `count` blocks from `block` on are linked to their successors.
unfoldable pub link_blocks : (count block : ℕ) → Links → Links
link_blocks zero block next = next
link_blocks (suc k) block next = link_blocks k (block + 1) (write next block (block + 1))

-- The end of `allocate_block`: the first block leaves the free list.
unfoldable pub take_block : MemoryPool → ℕ × MemoryPool
take_block p = (p.free_list, record p { free_list = p.next p.free_list })

module _ (per_chunk : ℕ) where
  unfoldable pub allocate_chunk : MemoryPool → MemoryPool
  allocate_chunk p =
      let first = p.chunks * per_chunk + 1 in
      let linked = link_blocks (per_chunk - 1) first p.next in
      record {
        next = write linked (first + (per_chunk - 1)) p.free_list;
        free_list = first;
        chunks = p.chunks + 1;
      }

  unfoldable pub allocate_block : MemoryPool → ℕ × MemoryPool
  unfolding allocate_chunk take_block
  allocate_block p = take_block (if p.free_list == 0 then allocate_chunk p else p)

unfoldable pub deallocate : ℕ → MemoryPool → MemoryPool
deallocate ptr p =
    if ptr == 0 then p else record p { next = write p.next ptr p.free_list; free_list = ptr }

-- `allocated_size`, with `Chunk::chunk_size` of 64 KB.
unfoldable pub allocated_size : MemoryPool → ℕ
allocated_size p = p.chunks * (64 * 1024)
