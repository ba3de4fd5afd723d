-- ===== src/Malloc/Setup.antt =====
-- The heap that `malloc_heap` builds in fresh frames.
use osy.Common.{
  ℕ, ◌+◌, ◌-◌, ◌^◌, ◌≤◌, ◌<◌, ◌≡◌, refl, ◌∙◌, subst, ◌⊎◌, true, false, some, ◌==◌, if◌then◌else◌,
  ltb, Returns, Returns-bind, arith, ltb→lt, Bool-cases, inl, inr,
}
use osy.Malloc.Memory.{
  Mem, null, sizeof_head, sizeof_heap, heap_start, heap_end, heap_frame_count, write,
}
use osy.Malloc.{heap_fill, place_first, heap_setup}
use osy.Malloc.Blocks.{
  add32_lem, sub32_lem, min_block, Blocks, IsBlock-frame, init_mem, block_init_lem,
  init_mem-IsBlock, init_mem_below, init_mem_above,
}
use osy.Malloc.Fit.{place, split_limit_lem, KeptOutside}
use osy.Malloc.Heaps.{HeapView, IsHeap}

fill_mem : (heap size frames : ℕ) → Mem → Mem
fill_mem heap size frames m a =
    if a == heap_frame_count heap
    then frames
    else if a == heap_end heap
    then heap + size
    else if a == heap_start heap
    then heap + sizeof_heap
    else if a == heap + 4
    then null
    else if a == heap
    then null
    else m a

module _ (m : Mem) (heap size frames : ℕ) where
  heap_fill_lem :
      heap + size < 2 ^ 32
      → sizeof_heap ≤ size
      → heap_fill heap size frames m ≡ some (tt, fill_mem heap size frames m)
  unfolding heap_fill write fill_mem
  heap_fill_lem fits enough =
      rw (add32_lem heap sizeof_heap (omega arith)) (rw (add32_lem heap size fits))

  fill_mem_start : fill_mem heap size frames m (heap_start heap) ≡ heap + sizeof_heap
  unfolding fill_mem
  fill_mem_start = ground arith

  fill_mem_end : fill_mem heap size frames m (heap_end heap) ≡ heap + size
  unfolding fill_mem
  fill_mem_end = ground arith

  fill_mem_kept : KeptOutside heap sizeof_heap m (fill_mem heap size frames m)
  unfolding fill_mem
  fill_mem_kept a o = ground arith

module _ (m : Mem) (heap cur payload real : ℕ) (room : min_block ≤ real) (enough : real ≤ payload)
    (fits : cur + payload < 2 ^ 32) (small : real + min_block < 2 ^ 32) where
  -- The blocks that fill the payload of the heap, and nothing else written.
  abbrev Placed : Mem → Type 0
  Placed m' = Blocks m' heap cur (place real payload) (cur + payload) × KeptOutside cur payload m m'

  split_Placed :
      ltb (real + min_block) payload ≡ true
      → Placed (init_mem cur real false heap (init_mem (cur + real) (payload - real) true heap m))
  split_Placed more =
      let lt : real + min_block < payload = ltb→lt _ _ more in
      rw more (
        (
          init_mem-IsBlock m1 heap cur real false room,
          (
            IsBlock-frame (init_mem-IsBlock m heap (cur + real) (payload - real) true (omega arith))
                (λ a l r. init_mem_above m1 heap cur real false room a l),
            omega arith,
          ),
        ),
        kept lt,
      )
    where
      m1 : Mem
      m1 = init_mem (cur + real) (payload - real) true heap m

      kept :
          real + min_block < payload → KeptOutside cur payload m (init_mem cur real false heap m1)
      kept lt a (inl o) =
          init_mem_below m1 heap cur real false room a o
          ∙ init_mem_below m heap (cur + real) (payload - real) true (omega arith) a (omega arith)
      kept lt a (inr o) =
          init_mem_above m1 heap cur real false room a (omega arith)
          ∙ init_mem_above m heap (cur + real) (payload - real) true (omega arith) a (omega arith)

  whole_Placed : ltb (real + min_block) payload ≡ false → Placed (init_mem cur payload false heap m)
  whole_Placed less =
      rw less ((init_mem-IsBlock m heap cur payload false (omega arith), refl), kept)
    where
      kept : KeptOutside cur payload m (init_mem cur payload false heap m)
      kept a (inl o) = init_mem_below m heap cur payload false (omega arith) a o
      kept a (inr o) = init_mem_above m heap cur payload false (omega arith) a o

  place_first_lem : Returns (λ _. Placed) (place_first heap cur payload real m)
  unfolding place_first
  place_first_lem =
      rw (split_limit_lem real small) (elim (Bool-cases (ltb (real + min_block) payload)) [
        | inl more ↦
            let lt : real + min_block < payload = ltb→lt _ _ more in
            rw more (
              rw (add32_lem cur real (omega arith)) (
                rw (sub32_lem payload real enough (omega arith)) (
                  rw
                    (block_init_lem m heap (cur + real) (payload - real) true (omega arith)
                      (omega arith))
                    (rw
                      (block_init_lem (init_mem (cur + real) (payload - real) true heap m) heap cur
                        real false room (omega arith))
                      (split_Placed more)))))
        | inr less ↦
            rw less
              (rw (block_init_lem m heap cur payload false (omega arith) fits) (whole_Placed less))
      ])

-- A new heap at `heap`: the block that is asked for, and a free one behind it if there is room.
abbrev pub new_heap : (heap size real : ℕ) → HeapView
new_heap heap size real = record {
  at = heap;
  limit = heap + size;
  blocks = place real (size - sizeof_heap);
}

abbrev pub SetUp : Mem → (heap size real : ℕ) → ℕ → Mem → Type 0
SetUp m heap size real r m' =
    (r ≡ heap + sizeof_heap + sizeof_head)
    × IsHeap m' (new_heap heap size real)
    × ((a : ℕ) → (a < heap) ⊎ (heap + size ≤ a) → m' a ≡ m a)

-- Where the heap has room for the block and lies in 32 bits, and splitting by the size does not
-- overflow, `heap_setup` returns the first payload and leaves a well-formed heap of the block and,
-- where there is room, a free one behind it; nothing outside the heap is written.
pub heap_setup_lem :
    (m : Mem) (heap size real frames : ℕ)
    → min_block ≤ real
    → real + sizeof_heap ≤ size
    → heap + size < 2 ^ 32
    → real + min_block < 2 ^ 32
    → Returns (SetUp m heap size real) (heap_setup heap size real frames m)
unfolding heap_setup
heap_setup_lem m heap size real frames room enough fits small =
    rw (heap_fill_lem m heap size frames fits (omega arith)) (
      rw (fill_mem_start m heap size frames) (
        rw (sub32_lem size sizeof_heap (omega arith) (omega arith)) (
          Returns-bind (λ _. Placed m1 heap cur payload real room (omega arith) (omega arith) small)
            _ (place_first heap cur payload real m1) _
            (place_first_lem m1 heap cur payload real room (omega arith) (omega arith) small)
            λ _ m2 (tiled, kept).
              let at =
                kept (heap_start heap) (inl (omega arith)) ∙ fill_mem_start m heap size frames in
              rw at (
                rw (add32_lem cur sizeof_head (omega arith)) (
                  refl,
                  record {
                    start_at = at;
                    end_at =
                        kept (heap_end heap) (inl (omega arith)) ∙ fill_mem_end m heap size frames;
                    limit_lt = fits;
                    tiled = subst (Blocks m2 heap cur (place real payload)) (omega arith) tiled;
                  },
                  λ a o. kept a (ground arith) ∙ fill_mem_kept m heap size frames a (ground arith),
                )))))
  where
    m1 : Mem
    m1 = fill_mem heap size frames m

    cur : ℕ
    cur = heap + sizeof_heap

    payload : ℕ
    payload = size - sizeof_heap
