-- ===== src/Memory/Pool/Valid.antt =====
-- The invariant of the pool: every block of every chunk is either in the free list or with the
-- client, and in one place only. Kept by `allocate_block` and `deallocate`.
use async_toolkit.Base.{
  ==-false, count, count-remove, if◌then◌else◌, leb, length, length-remove, remove, ◌==◌, ℕ, zero,
  suc, ◌+◌, ◌-◌, ◌*◌, ◌<◌, ◌≡◌, refl, sym, subst, true, false, ◌&&◌, List, [], ◌∷◌, arith,
}
use async_toolkit.Memory.Pool.{MemoryPool, allocate_chunk, take_block, allocate_block, deallocate}
use async_toolkit.Memory.Pool.Chain.{
  Chain, blocks_from, count-blocks_from, Chain-write, link_blocks_lem, Chain-blocks_from,
}

-- 1 for the address of a block of some chunk, else 0.
abbrev pub in_pool : ℕ → MemoryPool → ℕ → ℕ
in_pool per_chunk p a = if leb 1 a && leb a (p.chunks * per_chunk) then 1 else 0

pub record IsValid (per_chunk : ℕ) (p : MemoryPool) (live free : List ℕ) : Type 0 where
  pub chain : Chain p.next p.free_list free
  pub balance : (a : ℕ) → count a free + count a live ≡ in_pool per_chunk p a
  pub sizes : length free + length live ≡ p.chunks * per_chunk

length-blocks_from : (f k : ℕ) → length (blocks_from f k) ≡ k
length-blocks_from f zero = refl
length-blocks_from f (suc k) = omega (arith, length-blocks_from (f + 1) k)

module _ (m : ℕ) where
  abbrev n : ℕ
  n = suc m

  allocate_chunk-Chain :
      (p : MemoryPool)
      → p.free_list ≡ 0
      → Chain
          (allocate_chunk n p).next
          (allocate_chunk n p).free_list
          (blocks_from (p.chunks * n + 1) n)
  unfolding allocate_chunk
  allocate_chunk-Chain p e =
      Chain-blocks_from m (p.chunks * n + 1) _ (omega arith)
        (λ a l h. ground (arith, link_blocks_lem (n - 1) (p.chunks * n + 1) p.next a))
        (ground arith)

  allocate_chunk-IsValid :
      (p : MemoryPool) (live : List ℕ)
      → p.free_list ≡ 0
      → IsValid n p live []
      → IsValid n (allocate_chunk n p) live (blocks_from (p.chunks * n + 1) n)
  unfolding allocate_chunk
  allocate_chunk-IsValid p live e v = record {
    chain = allocate_chunk-Chain p e;
    balance = λ a. ground (arith, count-blocks_from a (p.chunks * n + 1) n, v.balance a);
    sizes = omega (arith, v.sizes, length-blocks_from (p.chunks * n + 1) n);
  }

  take_block-IsValid :
      (p : MemoryPool) (live : List ℕ) (x : ℕ) (free : List ℕ)
      → IsValid n p live (x ∷ free)
      → ((take_block p).0 ≡ x)
        × (0 < x)
        × (count x live ≡ 0)
        × IsValid n (take_block p).1 (x ∷ live) free
  unfolding take_block
  take_block-IsValid p live x free v =
      let (e, pos, rest) = v.chain in
      (
        e,
        pos,
        ground (arith, v.balance x),
        record {
          chain = rw e rest;
          balance = λ a. omega (arith, v.balance a);
          sizes = omega (arith, v.sizes);
        },
      )

  -- The state that `take_block` meets: at least one block is free.
  refill-IsValid :
      (p : MemoryPool) (live free : List ℕ)
      → IsValid n p live free
      → (x : ℕ) × (rest : List ℕ) × IsValid n
          (if p.free_list == 0 then allocate_chunk n p else p)
          live
          (x ∷ rest)
  refill-IsValid p live [] v = (
    p.chunks * n + 1,
    blocks_from (p.chunks * n + 1 + 1) m,
    let exhausted : (p.free_list == 0) ≡ true = ground (arith, v.chain) in
        rw exhausted (allocate_chunk-IsValid p live v.chain v),
  )
  refill-IsValid p live (x ∷ free) v =
      (x, free, rw (==-false p.free_list 0 (omega (arith, v.chain))) v)

  -- What `allocate_block` gives, for a pool and its client's blocks `live`.
  pub record Allocated (p : MemoryPool) (live : List ℕ) : Type 0 where
    pub free : List ℕ
    pub positive : 0 < (allocate_block n p).0
    pub fresh : count (allocate_block n p).0 live ≡ 0
    pub valid : IsValid n (allocate_block n p).1 ((allocate_block n p).0 ∷ live) free

  pub allocate_block-Allocated :
      (p : MemoryPool) (live free : List ℕ) → IsValid n p live free → Allocated p live
  unfolding allocate_block
  allocate_block-Allocated p live free v =
      let (x, rest, ready) = refill-IsValid p live free v in
      let (e, pos, new, valid) = take_block-IsValid _ live x rest ready in
      record {
        free = rest;
        positive = rw e pos;
        fresh = rw e new;
        valid =
            subst
              (λ y.
                IsValid n (take_block (if p.free_list == 0 then allocate_chunk n p else p)).1
                  (y ∷ live) rest)
              (sym e) valid;
      }

module _ (m : ℕ) where
  -- A new chunk is taken only when the client holds every block.
  pub allocate_block-grows :
      (p : MemoryPool) (live free : List ℕ)
      → IsValid (suc m) p live free
      → p.chunks < (allocate_block (suc m) p).1.chunks
      → length live ≡ p.chunks * suc m
  unfolding allocate_block
  allocate_block-grows p live [] v grew = omega (arith, v.sizes)
  allocate_block-grows p live (x ∷ free) v grew =
      let some_free : (p.free_list == 0) ≡ false = ground (arith, v.chain) in absurd (ground arith)

pub deallocate-IsValid :
    (n : ℕ) (p : MemoryPool) (live free : List ℕ) (b : ℕ)
    → IsValid n p live free
    → 0 < count b live
    → IsValid n (deallocate b p) (remove b live) (b ∷ free)
unfolding deallocate
deallocate-IsValid n p live free b v held =
    rw (==-false b 0 (ground (arith, v.balance 0, v.balance b))) (record {
      chain = (
        refl,
        ground (arith, v.balance b),
        ground (arith, Chain-write p.next p.free_list b p.free_list free, v.balance b),
      );
      balance = λ a. ground (arith, v.balance a, count-remove a b live);
      sizes = omega (arith, v.sizes, length-remove b live held);
    })
