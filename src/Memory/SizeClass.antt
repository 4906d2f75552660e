-- ===== src/Memory/SizeClass.antt =====
-- `SizeClass` of include/async_toolkit/memory/allocator.hpp, and the index of a size class.
use async_toolkit.Base.{
  ℕ, ◌+◌, ◌-◌, ◌*◌, ◌/◌, ◌%◌, ◌^◌, ◌≤◌, ◌<◌, ◌≡◌, ◌↔◌, arith, leb, if◌then◌else◌,
}

abbrev pub tiny_max : ℕ
tiny_max = 256

abbrev pub small_max : ℕ
small_max = 4096

abbrev pub medium_max : ℕ
medium_max = 65536

-- `(size + (step - 1)) & ~(step - 1)` for a power of two `step`: the low bits are cleared.
abbrev pub align_up : ℕ → ℕ → ℕ
align_up step size = (size + (step - 1)) / step * step

-- `SizeClass::get_size_class`
unfoldable pub get_size_class : ℕ → ℕ
get_size_class size =
    if leb size tiny_max
    then align_up 16 size
    else if leb size small_max
    then align_up 128 size
    else if leb size medium_max
    then align_up 4096 size
    else size

-- `ThreadCache::get_index`, in `size_t`: a class below 16 wraps round.
unfoldable pub get_index : ℕ → ℕ
get_index size_class = (size_class / 16 + (2 ^ 64 - 1)) % 2 ^ 64

abbrev pub num_size_classes : ℕ
num_size_classes = 32

-- A class holds its size, and the waste is bounded by the step of the size's range.
pub get_size_class_bounds :
    (size : ℕ)
    → (size ≤ get_size_class size)
      × (size ≤ tiny_max → get_size_class size < size + 16)
      × (size ≤ small_max → get_size_class size < size + 128)
      × (get_size_class size < size + 4096)
unfolding get_size_class
get_size_class_bounds size = ground arith

-- Rounding a class again changes nothing: `Allocator::allocate` rounds twice.
pub get_size_class-get_size_class :
    (size : ℕ) → get_size_class (get_size_class size) ≡ get_size_class size
unfolding get_size_class
get_size_class-get_size_class size = ground arith

pub get_size_class_mono : (a b : ℕ) → a ≤ b → get_size_class a ≤ get_size_class b
unfolding get_size_class
get_size_class_mono a b h = ground arith

-- For a request that `Allocator` sends to the thread cache, the index of the free list is in range
-- exactly for 1 to 512 bytes.
pub get_index_in_range :
    (size : ℕ)
    → size ≤ medium_max
    → (get_index (get_size_class size) < num_size_classes) ↔ ((1 ≤ size) × (size ≤ 512))
unfolding get_index get_size_class
get_index_in_range size h = (λ p. ground arith, λ p. ground arith)
