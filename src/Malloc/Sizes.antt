-- ===== src/Malloc/Sizes.antt =====
-- The sizes that `malloc` and `malloc_heap` of kernel/mm/malloc.c compute.
use osy.Common.{ℕ, ◌+◌, ◌*◌, ◌%◌, ◌^◌, ◌≤◌, ◌<◌, ◌≡◌, arith}
use osy.Malloc.Memory.{
  add32, align_up, alignment, block_size_max, frame_size, heap_frames, real_size, sizeof_heap,
}
use osy.Malloc.{heap_extent}
use osy.Malloc.Blocks.{min_block}

-- What `ALIGN_UP (size, ALIGNMENT)` is for: the least multiple of 4 that holds `size`.
pub record RealSize (size real : ℕ) : Type 0 where
  pub holds : size + min_block ≤ real
  pub tight : real < size + min_block + alignment
  pub aligned : real % alignment ≡ 0

-- Up to the maximal block size, the real size is the least multiple of 4 that has room for the
-- request, a header and a footer; it does not wrap around.
pub real_size_lem : (size : ℕ) → size ≤ block_size_max → RealSize size (real_size size)
unfolding real_size align_up add32
real_size_lem size h = record { holds = omega arith; tight = omega arith; aligned = omega arith }

-- The extent of a new heap: whole frames, at least the minimum, with room for the block.
pub record Extent (real size frames : ℕ) : Type 0 where
  pub room : real + sizeof_heap ≤ size
  pub whole : size ≡ frames * frame_size
  pub least : heap_frames ≤ frames
  pub small : size < 2 ^ 32

-- For a real size up to 2^31, the size of a new heap has room for the heap structure and the block,
-- is a whole number of frames, at least the minimum, and does not wrap around.
pub heap_extent_lem :
    (real : ℕ) → real ≤ 2 ^ 31 → Extent real (heap_extent real).0 (heap_extent real).1
unfolding heap_extent align_up add32
heap_extent_lem real h = record {
  room = ground arith;
  whole = ground arith;
  least = ground arith;
  small = ground arith;
}
