-- ===== src/Malloc.antt =====
-- kernel/mm/malloc.c: heaps made of blocks, first fit, merging on free. The frame allocator
-- (mm/falloc, which has no source) is the parameter `FrameAllocator`. The list of heaps holds
-- their addresses in order. Disabled interrupts make each call one step.
pub mod Memory
pub mod Blocks
pub mod Fit
pub mod Merge
pub mod Settled
pub mod Sizes
pub mod Heaps
pub mod Setup
pub mod Calls
pub mod FreeCall
pub mod Tidy
pub mod RoundTrip
mod Tests
use osy.Common.{
  ℕ, zero, suc, ◌+◌, ◌-◌, ◌*◌, ◌/◌, ◌%◌, ◌^◌, ◌≡◌, Bool, true, false, Option, none, some, List, [],
  ◌∷◌, ◌++◌, ◌&&◌, not, ltb, leb, ◌==◌, if◌then◌else◌, Cmd, pure, fail, ◌>>=◌, ◌>>◌, assert,
  and_then,
}
use osy.Malloc.Memory.{
  Mem, null, add32, sub32, align_up, sizeof_head, sizeof_foot, sizeof_heap, block_size_max,
  heap_frames, frame_size, head_free, head_heap, foot_size, heap_start, heap_end, heap_frame_count,
  read, write, truth, block_check, block_init, real_size, split_limit,
}

-- A suitable block is split if it is large, and used as it is otherwise; the result is the
-- address of the payload.
unfoldable pub take_block : (heap pos real : ℕ) → Cmd Mem ℕ
unfolding read write
take_block heap pos real = do
  size ← read pos
  if ltb (split_limit real) size
      then (do
        size' ← read pos
        block_init (add32 pos real) (sub32 size' real) true heap
        block_init pos real false heap)
      else write (head_free pos) 0
  pure (add32 pos sizeof_head)

-- One round of the walk: check the block, and take it if it fits.
unfoldable pub try_block : (heap pos real : ℕ) → Cmd Mem ℕ
unfolding read
try_block heap pos real = do
  block_check pos
  free ← read (head_free pos)
  size ← read pos
  if truth free && leb real size then take_block heap pos real else pure null

-- `while ((result == NULL) && (pos < heap->heap_end))`, on fuel.
unfoldable pub walk : ℕ → (heap real result pos : ℕ) → Cmd Mem ℕ
unfolding read
walk zero heap real result pos m = none
walk (suc fuel) heap real result pos m = elim ((result == null) && ltb pos (m (heap_end heap))) [
  | false ↦ some (result, m)
  | true ↦
      and_then (try_block heap pos real m) λ r m'. walk fuel heap real r (add32 pos (m' pos)) m'
]

-- `list_foreach (heap_list, ...)`: each heap is walked until one has a block. The fuel of a walk
-- is the distance to the end of the heap, since every block has a size.
unfoldable pub search_heaps : List ℕ → ℕ → Cmd Mem ℕ
unfolding read
search_heaps [] real m = some (null, m)
search_heaps (heap ∷ heaps) real m =
    and_then
      (walk (suc (m (heap_end heap) - m (heap_start heap))) heap real null (m (heap_start heap)) m)
      λ result m'. elim (result == null) [
        | true ↦ search_heaps heaps real m'
        | false ↦ some (result, m')
      ]

-- What the code uses of mm/falloc: `frame_alloc` yields the physical address of `count` frames or
-- fails, `frame_free` returns an error code as `none`.
pub record FrameAllocator : Type 1 where
  pub Frames : Type 0
  pub frame_alloc : ℕ → Frames → Option (ℕ × Frames)
  pub frame_free : ℕ → ℕ → Frames → Option Frames

-- `ADDR_IN_KSEG0` and `ADDR_FROM_KSEG0` of include/shared.h
abbrev pub addr_in_kseg0 : ℕ → ℕ
addr_in_kseg0 x = x % 2 ^ 29 + 2 ^ 31

abbrev pub addr_from_kseg0 : ℕ → ℕ
addr_from_kseg0 x = x % 2 ^ 29

pub record State (F : Type 0) : Type 0 where
  pub mem : Mem
  pub heap_list : List ℕ
  pub frames : F

-- A command on the memory, and what follows it on the whole state.
abbrev pub continue_with :
    {F A B : Type 0} → Option (A × Mem) → (A → Mem → Option (B × State F)) → Option (B × State F)
continue_with none k = none
continue_with (some (a, m)) k = k a m

-- The fields of a new heap structure.
unfoldable pub heap_fill : (heap size frames : ℕ) → Cmd Mem (Unit {0})
unfolding write
heap_fill heap size frames = do
  write heap null
  write (heap + 4) null
  write (heap_start heap) (add32 heap sizeof_heap)
  write (heap_end heap) (add32 heap size)
  write (heap_frame_count heap) frames

-- The first block of a new heap, and a free block behind it where there is room.
unfoldable pub place_first : (heap cur payload real : ℕ) → Cmd Mem (Unit {0})
place_first heap cur payload real =
    if ltb (split_limit real) payload
    then (do
      block_init (add32 cur real) (sub32 payload real) true heap
      block_init cur real false heap)
    else block_init cur payload false heap

unfoldable pub heap_setup : (heap size real frames : ℕ) → Cmd Mem ℕ
unfolding read
heap_setup heap size real frames = do
  heap_fill heap size frames
  cur ← read (heap_start heap)
  place_first heap cur (sub32 size sizeof_heap) real
  start ← read (heap_start heap)
  pure (add32 start sizeof_head)

-- `heap_size` and `frames` of `malloc_heap`
unfoldable pub heap_extent : ℕ → ℕ × ℕ
heap_extent real =
    let size = align_up (add32 real sizeof_heap) frame_size in
    let frames = size / frame_size in
    if ltb frames heap_frames then (heap_frames * frame_size, heap_frames) else (size, frames)

-- `list_remove (&heap->link)` on the list of heaps
unfoldable pub drop_heap : ℕ → List ℕ → List ℕ
drop_heap heap [] = []
drop_heap heap (h ∷ hs) = if h == heap then hs else h ∷ drop_heap heap hs

-- Merge with the block behind, if it is free.
unfoldable pub merge_next : (heap head : ℕ) → Cmd Mem (Unit {0})
unfolding read
merge_next heap head = do
  size ← read head
  let next = add32 head size
  end ← read (heap_end heap)
  if ltb next end
      then (do
        block_check next
        free ← read (head_free next)
        next_size ← read next
        if truth free then block_init head (add32 size next_size) true heap else pure tt)
      else pure tt

-- Merge with the block in front, if it is free.
unfoldable pub merge_prev : (heap head : ℕ) → Cmd Mem (Unit {0})
unfolding read
merge_prev heap head = do
  start ← read (heap_start heap)
  if ltb start head
      then (do
        prev_size ← read (foot_size (sub32 head sizeof_foot))
        let prev = sub32 head prev_size
        block_check prev
        free ← read (head_free prev)
        size ← read prev
        size' ← read head
        if truth free then block_init prev (add32 size size') true heap else pure tt)
      else pure tt

unfoldable pub merge_neighbours : (heap head : ℕ) → Cmd Mem (Unit {0})
merge_neighbours heap head = do merge_next heap head; merge_prev heap head

-- What `free` does inside the heap of the block; the result is the heap.
unfoldable pub free_block : ℕ → Cmd Mem ℕ
unfolding read write
free_block addr = do
  let head = sub32 addr sizeof_head
  block_check head
  was_free ← read (head_free head)
  assert (not (truth was_free))
  heap ← read (head_heap head)
  write (head_free head) 1
  merge_neighbours heap head
  pure heap

-- The heap is one free block.
unfoldable pub heap_is_unused : ℕ → Mem → Bool
heap_is_unused heap m =
    let head = m (heap_start heap) in
    truth (m (head_free head)) && (add32 head (m head) == m (heap_end heap))

module _ (𝓕 : FrameAllocator) where
  open 𝓕 use {Frames, frame_alloc, frame_free}

  unfoldable pub malloc_heap : ℕ → Cmd (State Frames) ℕ
  malloc_heap size s =
      let real = real_size size in
      let (heap_size, frames) = heap_extent real in
      elim (frame_alloc frames s.frames) [
        | none ↦ some (null, s)
        | some (phys, rest) ↦
            let heap = addr_in_kseg0 phys in
            continue_with (heap_setup heap heap_size real frames s.mem) λ result m.
              some (result, record { mem = m; heap_list = s.heap_list ++ heap ∷ []; frames = rest })
      ]

  unfoldable pub malloc : ℕ → Cmd (State Frames) ℕ
  malloc size s =
      if not (leb size block_size_max)
      then none
      else continue_with (search_heaps s.heap_list (real_size size) s.mem) λ result m.
        let s' : State Frames = record s { mem = m } in
        if result == null then malloc_heap size s' else some (result, s')

  unfoldable pub safe_malloc : ℕ → Cmd (State Frames) ℕ
  unfolding malloc
  safe_malloc size = do result ← malloc size; assert (not (result == null)); pure result

  -- The frames of an unused heap go back to the frame allocator; its refusal is a panic.
  unfoldable pub release_heap : ℕ → Cmd (State Frames) (Unit {0})
  release_heap heap s =
      let removed = drop_heap heap s.heap_list in
      elim (frame_free (addr_from_kseg0 heap) (s.mem (heap_frame_count heap)) s.frames) [
        | none ↦ none
        | some rest ↦ some (tt, record s { heap_list = removed; frames = rest })
      ]

  unfoldable pub free : ℕ → Cmd (State Frames) (Unit {0})
  unfolding release_heap
  free addr s = continue_with (free_block addr s.mem) λ heap m.
      let s' : State Frames = record s { mem = m } in
      if heap_is_unused heap m then release_heap heap s' else some (tt, s')
