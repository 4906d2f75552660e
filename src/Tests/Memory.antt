-- ===== src/Tests/Memory.antt =====
-- The allocator and the memory pool at concrete inputs.
use async_toolkit.Memory.PoolPtr.{
  no_handles, run_owns_once, makes, destroys, move_constructs, move_assigns,
}
use async_toolkit.Memory.PoolPtr
use async_toolkit.Base.{
  count, get_elem?, if◌then◌else◌, length, replicate, ◌==◌, ℕ, zero, suc, ◌+◌, ◌*◌, ◌%◌, ◌^◌, ◌≤◌,
  ◌<◌, ◌≡◌, refl, ◌≢◌, ◌↔◌, false, none, some, List, [], ◌∷◌, arith,
}
use async_toolkit.Memory.ThreadCache.{ThreadCache, cache_size, allocate_defined, IsValid}
use async_toolkit.Memory.ThreadCache
use async_toolkit.Memory.Central.{
  CentralCache, run-counts_history, get_stats, allocates, deallocates,
}
use async_toolkit.Memory.Central
use async_toolkit.Memory.Allocator.{Allocator, BlockHeader}
use async_toolkit.Memory.Pool
use async_toolkit.Memory.Pool.{allocate_block}
use async_toolkit.Memory.Pool.History.{start, Owns, run_fresh}
use async_toolkit.Memory.Pool.History

-- A central cache that numbers the blocks it hands out.
abbrev fetch : ℕ → ℕ → ℕ × ℕ
fetch size_class next = (next, next + 1)

abbrev give_back : ℕ → ℕ → ℕ → ℕ
give_back ptr size_class next = next

abbrev new_cache : ThreadCache
new_cache = record { free_lists = replicate 32 [] }

empty_lists : (n i : ℕ) (l : List ℕ) → get_elem? (replicate n []) i ≡ some l → length l ≤ cache_size
empty_lists zero i l e = cc
empty_lists (suc n) zero l e = ground arith
empty_lists (suc n) (suc i) l e = empty_lists n i l e

new_cache-IsValid : IsValid new_cache
new_cache-IsValid = record { lists = refl; bounded = λ i l e. empty_lists 32 i l e }

allocate_defined_example :
    ((ThreadCache.allocate fetch give_back new_cache 1 24 ≢ none) ↔ ((1 ≤ 24) × (24 ≤ 512)))
    × ((ThreadCache.deallocate fetch give_back new_cache 1 7 24 ≢ none) ↔ ((1 ≤ 24) × (24 ≤ 512)))
allocate_defined_example =
    allocate_defined fetch give_back new_cache 1 7 24 new_cache-IsValid (omega arith)

-- Spans of two blocks.
abbrev new_span : ℕ → List ℕ
new_span size_class = 1 ∷ 2 ∷ []

abbrev calls : List Central.Call
calls = allocates 16 ∷ allocates 128 ∷ deallocates 1 16 ∷ []

abbrev after_calls : CentralCache
after_calls = record {
  spans = λ j.
      if j == 16
      then 1 ∷ 2 ∷ []
      else (if j == 128 then 2 ∷ [] else (if j == 16 then 2 ∷ [] else []));
  stats = record {
    allocated_bytes = 144;
    freed_bytes = 16;
    active_allocations = 1;
    total_allocations = 2;
    fragmentation_bytes = 0;
  };
}

run-counts_history_example :
    ((get_stats after_calls).allocated_bytes ≡ 144 % 2 ^ 64)
    × ((get_stats after_calls).freed_bytes ≡ 16 % 2 ^ 64)
    × ((get_stats after_calls).total_allocations ≡ 2 % 2 ^ 64)
    × (((get_stats after_calls).active_allocations + 1) % 2 ^ 64 ≡ 2 % 2 ^ 64)
unfolding Central.run Central.allocate Central.deallocate Central.take_back Central.refill
    Central.record_allocation Central.record_deallocation
run-counts_history_example = run-counts_history new_span calls after_calls refl

abbrev no_header : BlockHeader
no_header = record { size = 0; original_size = 0; is_huge_page = false; next = 0 }

abbrev new_allocator : Allocator ℕ
new_allocator = record { cache = new_cache; central = 1000; memory = λ p. no_header; unmapped = [] }

abbrev pool_calls : List History.Call
pool_calls = History.allocates ∷ History.deallocates 1 ∷ History.allocates ∷ []

pool_calls-Owns : Owns 2 start pool_calls
unfolding Owns History.step allocate_block Pool.take_block Pool.allocate_chunk Pool.link_blocks
    Pool.deallocate
pool_calls-Owns = (omega arith, tt)

run_fresh_example :
    let s = History.run 2 start pool_calls in
    let t = History.step 2 s History.allocates in
    (0 < (allocate_block 2 s.pool).0)
    × (count (allocate_block 2 s.pool).0 s.live ≡ 0)
    × ((a : ℕ) → count a t.live ≤ 1)
    × (length t.live ≤ t.pool.chunks * 2)
run_fresh_example = run_fresh 1 pool_calls pool_calls-Owns

-- Two allocations from chunks of one block: the second one finds every block out.
abbrev one_out : List History.Call
one_out = History.allocates ∷ []

one_out-Owns : Owns 1 start one_out
unfolding Owns
one_out-Owns = tt

abbrev handle_calls : List PoolPtr.Call
handle_calls = makes 5 ∷ makes 6 ∷ move_assigns 0 1 ∷ move_constructs 0 ∷ destroys 2 ∷ []

run_owns_once_example :
    let h = PoolPtr.run no_handles handle_calls in
    count 6 h.ptrs + count 6 h.returned ≡ count 6 h.made
run_owns_once_example = run_owns_once handle_calls 6 (omega arith)
