-- ===== src/Memory/Pool/Chain.antt =====
-- The free list of the pool as a list of addresses, and the chain that `allocate_chunk` builds.
use async_toolkit.Base.{
  count, if◌then◌else◌, leb, ltb, ℕ, zero, suc, ◌+◌, ◌≤◌, ◌<◌, ◌≡◌, refl, sym, ◌∙◌, subst, ◌&&◌,
  List, [], ◌∷◌, arith,
}
use async_toolkit.Memory.Pool.{Links, write, link_blocks}

-- From `p` the links lead through the blocks `xs` to null.
abbrev pub Chain : Links → ℕ → List ℕ → Type 0
Chain next p [] = p ≡ 0
Chain next p (x ∷ xs) = (p ≡ x) × (0 < x) × Chain next (next x) xs

-- The `k` blocks from `f` on.
abbrev pub blocks_from : ℕ → ℕ → List ℕ
blocks_from f zero = []
blocks_from f (suc k) = f ∷ blocks_from (f + 1) k

pub count-blocks_from :
    (a f k : ℕ) → count a (blocks_from f k) ≡ (if leb f a && ltb a (f + k) then 1 else 0)
count-blocks_from a f zero = ground arith
count-blocks_from a f (suc k) = ground (arith, count-blocks_from a (f + 1) k)

-- A write to a block that is not in the chain leaves the chain.
pub Chain-write :
    (next : Links) (p b q : ℕ) (xs : List ℕ)
    → count b xs ≡ 0
    → Chain next p xs
    → Chain (write next b q) p xs
Chain-write next p b q [] h c = c
Chain-write next p b q (x ∷ xs) h (e, pos, c) =
    let rest = Chain-write next (next x) b q xs (ground arith) c in (e, pos, ground arith)

pub link_blocks_lem :
    (k f : ℕ) (next : Links) (a : ℕ)
    → link_blocks k f next a ≡ (if leb f a && ltb a (f + k) then a + 1 else next a)
unfolding link_blocks
link_blocks_lem zero f next a = ground arith
link_blocks_lem (suc k) f next a = link_blocks_lem k (f + 1) (write next f (f + 1)) a ∙ ground arith

pub Chain-blocks_from :
    (k f : ℕ) (next : Links)
    → 0 < f
    → ((a : ℕ) → f ≤ a → a < f + k → next a ≡ a + 1)
    → next (f + k) ≡ 0
    → Chain next f (blocks_from f (suc k))
Chain-blocks_from zero f next pos steps end = (refl, pos, ground arith)
Chain-blocks_from (suc k) f next pos steps end =
    let rest =
      Chain-blocks_from k (f + 1) next (omega arith) (λ a l h. steps a (omega arith) (omega arith))
        (subst (λ b. next b ≡ 0) (omega arith) end) in
    (
      refl,
      pos,
      subst (λ b. Chain next b (blocks_from (f + 1) (suc k)))
          (sym (steps f (omega arith) (omega arith))) rest,
    )
