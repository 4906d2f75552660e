-- ===== src/Memory/Central.antt =====
-- `MemoryStats` and `CentralCache` of include/async_toolkit/memory/allocator.hpp. Counters are
-- `size_t`. Each operation of the cache runs under its mutex, so it is one step.
use async_toolkit.Base.{
  ℕ, suc, ◌+◌, ◌-◌, ◌%◌, ◌^◌, ◌≡◌, List, [], ◌∷◌, Option, none, some, arith, ◌==◌, inl, inr,
  Option-cases, if◌then◌else◌,
}

pub record MemoryStats : Type 0 where
  pub allocated_bytes : ℕ
  pub freed_bytes : ℕ
  pub active_allocations : ℕ
  pub total_allocations : ℕ
  pub fragmentation_bytes : ℕ

unfoldable pub record_allocation : MemoryStats → ℕ → MemoryStats
record_allocation s size = record s {
  allocated_bytes = (s.allocated_bytes + size) % 2 ^ 64;
  active_allocations = (s.active_allocations + 1) % 2 ^ 64;
  total_allocations = (s.total_allocations + 1) % 2 ^ 64;
}

unfoldable pub record_deallocation : MemoryStats → ℕ → MemoryStats
record_deallocation s size = record s {
  freed_bytes = (s.freed_bytes + size) % 2 ^ 64;
  active_allocations = (s.active_allocations + (2 ^ 64 - 1)) % 2 ^ 64;
}

-- `spans_[k]` is empty for a class that was never seen. The back of a vector comes first.
pub record CentralCache : Type 0 where
  pub spans : ℕ → List ℕ
  pub stats : MemoryStats

abbrev pub no_stats : MemoryStats
no_stats = record {
  allocated_bytes = 0;
  freed_bytes = 0;
  active_allocations = 0;
  total_allocations = 0;
  fragmentation_bytes = 0;
}

abbrev pub empty_cache : CentralCache
empty_cache = record { spans = λ _. []; stats = no_stats }

abbrev with_span : CentralCache → ℕ → List ℕ → CentralCache
with_span c k l = record c { spans = λ j. if j == k then l else c.spans j }

-- `allocate_new_span` is declared and never defined in the repository: its parameter gives the
-- blocks that it leaves in the span.
module _ (new_span : ℕ → List ℕ) where
  -- `back` and `pop_back`; on an empty vector they are undefined behaviour.
  unfoldable pub take_back : CentralCache → ℕ → List ℕ → Option (ℕ × CentralCache)
  unfolding record_allocation
  take_back c size_class [] = none
  take_back c size_class (ptr ∷ rest) =
      let c' = with_span c size_class rest in
      some (ptr, record c' { stats = record_allocation c.stats size_class })

  unfoldable pub refill : CentralCache → ℕ → List ℕ → List ℕ
  refill c size_class [] = new_span size_class
  refill c size_class (ptr ∷ rest) = ptr ∷ rest

  unfoldable pub allocate : CentralCache → ℕ → Option (ℕ × CentralCache)
  unfolding take_back refill
  allocate c size_class = take_back c size_class (refill c size_class (c.spans size_class))

unfoldable pub deallocate : CentralCache → ℕ → ℕ → CentralCache
unfolding record_deallocation
deallocate c ptr size_class =
    let c' = with_span c size_class (ptr ∷ c.spans size_class) in
    record c' { stats = record_deallocation c.stats size_class }

-- `get_stats`, a copy of the counters.
unfoldable pub get_stats : CentralCache → MemoryStats
get_stats c = c.stats

-- A history of calls, in the order in which they take the mutex.
pub data Call : Type 0 where
  allocates : (size_class : ℕ) → Call
  deallocates : (ptr size_class : ℕ) → Call

module _ (new_span : ℕ → List ℕ) where
  unfoldable pub run : CentralCache → List Call → Option CentralCache
  run c [] = some c
  run c (allocates k ∷ calls) = elim (allocate new_span c k) [
    | none ↦ none
    | some (ptr, c') ↦ run c' calls
  ]
  run c (deallocates ptr k ∷ calls) = run (deallocate c ptr k) calls

-- What a history asks for, in unbounded numbers.
abbrev pub count_allocations : List Call → ℕ
count_allocations [] = 0
count_allocations (allocates k ∷ calls) = suc (count_allocations calls)
count_allocations (deallocates ptr k ∷ calls) = count_allocations calls

abbrev pub count_deallocations : List Call → ℕ
count_deallocations [] = 0
count_deallocations (allocates k ∷ calls) = count_deallocations calls
count_deallocations (deallocates ptr k ∷ calls) = suc (count_deallocations calls)

abbrev pub bytes_in : List Call → ℕ
bytes_in [] = 0
bytes_in (allocates k ∷ calls) = k + bytes_in calls
bytes_in (deallocates ptr k ∷ calls) = bytes_in calls

abbrev pub bytes_out : List Call → ℕ
bytes_out [] = 0
bytes_out (allocates k ∷ calls) = bytes_out calls
bytes_out (deallocates ptr k ∷ calls) = k + bytes_out calls

-- The counters are those of the history, modulo 2^64.
abbrev pub Counts : MemoryStats → MemoryStats → List Call → Type 0
Counts s s' calls =
    (s'.allocated_bytes ≡ (s.allocated_bytes + bytes_in calls) % 2 ^ 64)
    × (s'.freed_bytes ≡ (s.freed_bytes + bytes_out calls) % 2 ^ 64)
    × (s'.total_allocations ≡ (s.total_allocations + count_allocations calls) % 2 ^ 64)
    × ((s'.active_allocations + count_deallocations calls) % 2 ^ 64
        ≡ (s.active_allocations + count_allocations calls) % 2 ^ 64)

abbrev Fits : MemoryStats → Type 0
Fits s =
    (s.allocated_bytes % 2 ^ 64 ≡ s.allocated_bytes)
    × (s.freed_bytes % 2 ^ 64 ≡ s.freed_bytes)
    × (s.total_allocations % 2 ^ 64 ≡ s.total_allocations)

module _ (new_span : ℕ → List ℕ) where
  take_back-stats :
      (c : CentralCache) (k ptr : ℕ) (c' : CentralCache) (l : List ℕ)
      → take_back new_span c k l ≡ some (ptr, c')
      → c'.stats ≡ record_allocation c.stats k
  unfolding take_back
  take_back-stats c k ptr c' [] e = cc
  take_back-stats c k ptr c' (p ∷ l) e = ground arith

  allocate-stats :
      (c : CentralCache) (k ptr : ℕ) (c' : CentralCache)
      → allocate new_span c k ≡ some (ptr, c')
      → c'.stats ≡ record_allocation c.stats k
  unfolding allocate
  allocate-stats c k ptr c' e = take_back-stats c k ptr c' _ e

record_allocation-Fits : (s : MemoryStats) (k : ℕ) → Fits s → Fits (record_allocation s k)
unfolding record_allocation
record_allocation-Fits s k f = omega arith

record_deallocation-Fits : (s : MemoryStats) (k : ℕ) → Fits s → Fits (record_deallocation s k)
unfolding record_deallocation
record_deallocation-Fits s k f = omega arith

Counts-allocates :
    (s s' : MemoryStats) (k : ℕ) (calls : List Call)
    → Counts (record_allocation s k) s' calls
    → Counts s s' (allocates k ∷ calls)
unfolding record_allocation
Counts-allocates s s' k calls h = omega arith

Counts-deallocates :
    (s s' : MemoryStats) (ptr k : ℕ) (calls : List Call)
    → Counts (record_deallocation s k) s' calls
    → Counts s s' (deallocates ptr k ∷ calls)
unfolding record_deallocation
Counts-deallocates s s' ptr k calls h = omega arith

module _ (new_span : ℕ → List ℕ) where
  run-Counts :
      (c c' : CentralCache) (calls : List Call)
      → Fits c.stats
      → run new_span c calls ≡ some c'
      → Counts c.stats c'.stats calls
  unfolding run deallocate
  run-Counts c c' [] f e = ground arith
  run-Counts c c' (allocates k ∷ calls) f e = elim (Option-cases (allocate new_span c k)) [
    | inl fails ↦ absurd (ground arith)
    | inr ((ptr, d), ok) ↦
        let stepped = allocate-stats new_span c k ptr d ok in
        Counts-allocates c.stats c'.stats k calls (
          rw (← stepped) (
            run-Counts d c' calls (rw stepped (record_allocation-Fits c.stats k f))
              (rw (ok, run) at e)))
  ]
  run-Counts c c' (deallocates ptr k ∷ calls) f e =
      Counts-deallocates c.stats c'.stats ptr k calls
        (run-Counts (deallocate c ptr k) c' calls (record_deallocation-Fits c.stats k f) e)

  -- After any history from the empty cache that takes no block from an empty span, the counters are
  -- those of the history modulo 2^64: the bytes handed out, the bytes taken back, the number of
  -- allocations, and as active the number of allocations less that of deallocations.
  pub run-counts_history :
      (calls : List Call) (c : CentralCache)
      → run new_span empty_cache calls ≡ some c
      → ((get_stats c).allocated_bytes ≡ bytes_in calls % 2 ^ 64)
        × ((get_stats c).freed_bytes ≡ bytes_out calls % 2 ^ 64)
        × ((get_stats c).total_allocations ≡ count_allocations calls % 2 ^ 64)
        × (((get_stats c).active_allocations + count_deallocations calls) % 2 ^ 64
            ≡ count_allocations calls % 2 ^ 64)
  unfolding get_stats
  run-counts_history calls c e = omega (arith, run-Counts empty_cache c calls (omega arith) e)
