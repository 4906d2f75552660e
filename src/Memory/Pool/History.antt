-- ===== src/Memory/Pool/History.antt =====
-- Histories of a pool: calls of `allocate_block` and `deallocate` in the order in which they take
-- the mutex, with the blocks that the client holds.
use async_toolkit.Base.{
  count, length, remove, ℕ, suc, ◌*◌, ◌≤◌, ◌<◌, ◌≡◌, refl, List, [], ◌∷◌, arith,
}
use async_toolkit.Memory.Pool.{MemoryPool, empty_pool, allocate_block, deallocate, allocated_size}
use async_toolkit.Memory.Pool.Valid.{
  IsValid, allocate_block-Allocated, allocate_block-grows, deallocate-IsValid,
}

pub data Call : Type 0 where
  allocates : Call
  deallocates : ℕ → Call

-- The pool, and the blocks that were handed out and have not come back, latest first.
pub record Client : Type 0 where
  pub pool : MemoryPool
  pub live : List ℕ

abbrev pub start : Client
start = record { pool = empty_pool; live = [] }

module _ (per_chunk : ℕ) where
  unfoldable pub step : Client → Call → Client
  step s allocates =
      let (b, p) = allocate_block per_chunk s.pool in record { pool = p; live = b ∷ s.live }
  step s (deallocates b) = record { pool = deallocate b s.pool; live = remove b s.live }

  unfoldable pub run : Client → List Call → Client
  unfolding step
  run s [] = s
  run s (c ∷ cs) = run (step s c) cs

  -- The client gives back only what it holds.
  unfoldable pub Owns : Client → List Call → Type 0
  Owns s [] = Unit
  Owns s (allocates ∷ cs) = Owns (step s allocates) cs
  Owns s (deallocates b ∷ cs) = (0 < count b s.live) × Owns (step s (deallocates b)) cs

abbrev Good : ℕ → Client → Type 0
Good n s = (free : List ℕ) × IsValid n s.pool s.live free

start-Good : (n : ℕ) → Good n start
start-Good n = ([], record { chain = refl; balance = λ a. ground arith; sizes = omega arith })

module _ (m : ℕ) where
  run-Good :
      (s : Client) (cs : List Call)
      → Good (suc m) s
      → Owns (suc m) s cs
      → Good (suc m) (run (suc m) s cs)
  unfolding run Owns
  run-Good s [] g o = g
  run-Good s (allocates ∷ cs) g o =
      let made = allocate_block-Allocated m s.pool s.live g.0 g.1 in
      run-Good (step (suc m) s allocates) cs (made.free, made.valid) o
  run-Good s (deallocates b ∷ cs) g o =
      run-Good (step (suc m) s (deallocates b)) cs
        (b ∷ g.0, deallocate-IsValid (suc m) s.pool s.live g.0 b g.1 o.0) o.1

  -- After any history in which the client gives back only blocks that it holds, the next block that
  -- the pool hands out is not null, is not one the client holds, and no block the client then holds
  -- stands twice; and there are never more blocks out than the chunks have.
  pub run_fresh :
      (cs : List Call)
      → Owns (suc m) start cs
      → let s = run (suc m) start cs in
        let t = step (suc m) s allocates in
        (0 < (allocate_block (suc m) s.pool).0)
        × (count (allocate_block (suc m) s.pool).0 s.live ≡ 0)
        × ((a : ℕ) → count a t.live ≤ 1)
        × (length t.live ≤ t.pool.chunks * suc m)
  unfolding step
  run_fresh cs o =
      let (free, valid) = run-Good start cs (start-Good (suc m)) o in
      let made = allocate_block-Allocated m _ _ free valid in
      (
        made.positive,
        made.fresh,
        λ a. ground (arith, made.valid.balance a),
        omega (arith, made.valid.sizes),
      )

  -- After any history in which the client gives back only blocks that it holds, the pool takes a
  -- new chunk only when every block of its chunks is out.
  pub grows_only_when_full :
      (cs : List Call)
      → Owns (suc m) start cs
      → allocated_size (run (suc m) start cs).pool
        < allocated_size (allocate_block (suc m) (run (suc m) start cs).pool).1
      → length (run (suc m) start cs).live ≡ (run (suc m) start cs).pool.chunks * suc m
  unfolding allocated_size
  grows_only_when_full cs o grew =
      let (free, valid) = run-Good start cs (start-Good (suc m)) o in
      allocate_block-grows m _ _ free valid (omega arith)
