-- ===== src/Memory/Allocator.antt =====
-- `BlockHeader`, `HugePageAllocator` and `Allocator` of include/async_toolkit/memory/allocator.hpp,
-- for one thread: its thread-local cache and the memory in front of its blocks. The answers of
-- `mmap` are arguments, `munmap` is a log of its calls.
use async_toolkit.Base.{
  ℕ, ◌+◌, ◌-◌, ◌%◌, ◌^◌, ◌≤◌, ◌<◌, ◌≡◌, ◌≢◌, Bool, true, List, ◌∷◌, Option, some, arith, ltb, ◌==◌,
  if◌then◌else◌, map-eq-some, ==-false, ltb-false, ==-refl, ◌>>=◌, ap, sym, lt→ltb,
}
use mathlib.Core.Option
use async_toolkit.Memory.SizeClass.{medium_max, get_size_class}
use async_toolkit.Memory.ThreadCache.{ThreadCache}
use async_toolkit.Memory.ThreadCache

pub record BlockHeader : Type 0 where
  pub size : ℕ
  pub original_size : ℕ
  pub is_huge_page : Bool
  pub next : ℕ

-- `sizeof(BlockHeader)`: two `size_t`, a `bool` with its padding, and a pointer.
abbrev pub header_bytes : ℕ
header_bytes = 32

-- What a read of a header finds at each address, whether one was written there or not; `unmapped`
-- holds the calls of `munmap`, latest first.
pub record Allocator (C : Type 0) : Type 0 where
  pub cache : ThreadCache
  pub central : C
  pub memory : ℕ → BlockHeader
  pub unmapped : List (ℕ × ℕ)

abbrev pub write : (ℕ → BlockHeader) → ℕ → BlockHeader → ℕ → BlockHeader
write m p h a = if a == p then h else m a

module _ {C : Type 0} (fetch_from_central_cache : ℕ → C → ℕ × C)
    (return_to_central_cache : ℕ → ℕ → C → C) where
  -- `allocate_huge`, with `base` the answer of `mmap`.
  unfoldable pub allocate_huge : ℕ → Allocator C → ℕ → ℕ × Allocator C
  allocate_huge base a size =
      let total_size = (size + header_bytes) % 2 ^ 64 in
      if base == 0 then (0, a) else (
        base + header_bytes,
        record a {
          memory =
              write a.memory base
                (record { size = size; original_size = total_size; is_huge_page = true; next = 0 });
        },
      )

  -- The part of `allocate` for the thread cache; `none` is undefined behaviour there.
  unfoldable pub allocate_small : Allocator C → ℕ → Option (ℕ × Allocator C)
  allocate_small a size =
      Option.map (λ (p, t, c). (p, record a { cache = t; central = c }))
        (ThreadCache.allocate fetch_from_central_cache return_to_central_cache a.cache a.central
          (get_size_class size))

  unfoldable pub allocate : ℕ → Allocator C → ℕ → Option (ℕ × Allocator C)
  unfolding allocate_huge allocate_small
  allocate base a size =
      if ltb medium_max size then some (allocate_huge base a size) else allocate_small a size

  unfoldable pub deallocate_huge : Allocator C → ℕ → Allocator C
  deallocate_huge a ptr =
      let header = a.memory (ptr - header_bytes) in
      record a { unmapped = (ptr - header_bytes, header.original_size) ∷ a.unmapped }

  unfoldable pub deallocate_small : Allocator C → ℕ → ℕ → Option (Allocator C)
  deallocate_small a ptr size =
      Option.map (λ (t, c). record a { cache = t; central = c })
        (ThreadCache.deallocate fetch_from_central_cache return_to_central_cache a.cache a.central
          ptr size)

  -- The `size` argument is not read.
  unfoldable pub deallocate : Allocator C → ℕ → ℕ → Option (Allocator C)
  unfolding deallocate_huge deallocate_small
  deallocate a ptr size =
      if ptr == 0
      then some a
      else (let header = a.memory (ptr - header_bytes) in
          if header.is_huge_page
          then some (deallocate_huge a ptr)
          else deallocate_small a ptr header.size)

  -- A block above the limit of the size classes is unmapped whole when it is given back, under the
  -- address and length it was mapped with, and the caches are as before, if its length with the
  -- header fits in 64 bits and `mmap` gave an address above 0.
  pub huge_round_trip :
      (base size : ℕ) (a : Allocator C)
      → medium_max < size
      → size + header_bytes < 2 ^ 64
      → 0 < base
      → (allocate base a size >>= λ (p, a'). deallocate a' p size)
        ≡ some (record (allocate_huge base a size).1 {
          unmapped = (base, size + header_bytes) ∷ a.unmapped;
        })
  unfolding allocate deallocate
  huge_round_trip base size a big fits pos =
      let back : base + header_bytes - header_bytes ≡ base = omega arith in
      let whole : (size + header_bytes) % 2 ^ 64 ≡ size + header_bytes = omega arith in
      rw (lt→ltb _ _ big, ==-false base 0 (omega arith))
        (rw (==-false (base + header_bytes) 0 (omega arith), back, ==-refl base) (rw whole))

  -- A block that is not null, for up to 65536 bytes, comes from the thread cache without a header:
  -- `allocate` leaves that memory as it was, and `deallocate` then goes by whatever stood in front
  -- of the block. It unmaps the block if a header read there says so, and else takes the size class
  -- from the size that it reads there.
  pub small_header_unwritten :
      (base size : ℕ) (a a' : Allocator C) (p : ℕ)
      → size ≤ medium_max
      → p ≢ 0
      → allocate base a size ≡ some (p, a')
      → let found = a.memory (p - header_bytes) in
        (a'.memory ≡ a.memory)
        × (deallocate a' p size ≡ (
            if found.is_huge_page
            then some
                (record a' { unmapped = (p - header_bytes, found.original_size) ∷ a.unmapped })
            else deallocate_small a' p found.size))
  unfolding allocate deallocate
  small_header_unwritten base size a a' p small ne e =
      let ((q, t, c), _, made) = map-eq-some _ _ (rw (ltb-false medium_max size small) at e) in
      let same : a'.memory ≡ a.memory = ap (λ (r : ℕ × Allocator C). r.1.memory) (sym made) in
      let log : a'.unmapped ≡ a.unmapped = ap (λ (r : ℕ × Allocator C). r.1.unmapped) (sym made) in
      (same, rw (==-false p 0 ne, same, log))
