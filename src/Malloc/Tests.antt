-- ===== src/Malloc/Tests.antt =====
-- Runs of kernel/mm/malloc.c on one heap with a used block of 40 bytes and a free one of 60.
use osy.Common.{
  ℕ, ◌+◌, ◌-◌, ◌*◌, ◌^◌, ◌<◌, ◌≡◌, ◌≢◌, refl, ap, subst, true, false, none, some, List, [], ◌∷◌,
  ◌==◌, if◌then◌else◌, Returns, All, arith, inl,
}
use osy.Malloc.Memory.{Mem, sizeof_head, head_magic, foot_magic, real_size, add32, align_up}
use osy.Malloc.{FrameAllocator, State, heap_extent, malloc, free, addr_in_kseg0}
use osy.Malloc.Blocks.{Block, Blocks, IsBlock}
use osy.Malloc.Sizes.{RealSize, real_size_lem}
use osy.Malloc.Heaps.{HeapView, IsHeap, Apart, with_blocks}
use osy.Malloc.Setup.{new_heap}
use osy.Malloc.Calls.{IsState, Grown, malloc-reuses, malloc-exhausted, malloc-grows}
use osy.Malloc.Tidy.{IsTidy, malloc-IsTidy, free-IsTidy}
use osy.Malloc.FreeCall.{free-keeps, free-drops}

abbrev heap : ℕ
heap = 2147487744

abbrev first : ℕ
first = heap + 20

abbrev second : ℕ
second = heap + 60

abbrev limit : ℕ
limit = heap + 120

abbrev poke : ℕ → ℕ → Mem → Mem
poke p v m a = if a == p then v else m a

abbrev poke_block : (p n free : ℕ) → Mem → Mem
poke_block p n free m = poke p n (
    poke (p + 4) free (
      poke (p + 8) heap
        (poke (p + 12) head_magic (poke (p + n - 8) foot_magic (poke (p + n - 4) n m)))))

abbrev two_mem : Mem
two_mem = poke (heap + 8) first (
    poke (heap + 12) limit
      (poke (heap + 16) 1 (poke_block first 40 0 (poke_block second 60 1 (λ a. 0)))))

abbrev two_blocks : List Block
two_blocks = (40, false) ∷ (60, true) ∷ []

two_mem-first : IsBlock two_mem heap first 40 false
two_mem-first = record {
  size_at = refl;
  free_at = refl;
  heap_at = refl;
  magic_at = refl;
  foot_magic_at = refl;
  foot_size_at = refl;
  room = omega arith;
}

two_mem-second : IsBlock two_mem heap second 60 true
two_mem-second = record {
  size_at = refl;
  free_at = refl;
  heap_at = refl;
  magic_at = refl;
  foot_magic_at = refl;
  foot_size_at = refl;
  room = omega arith;
}

two_mem-Blocks : Blocks two_mem heap first two_blocks limit
two_mem-Blocks = (two_mem-first, (two_mem-second, refl))

abbrev two_view : HeapView
two_view = record { at = heap; limit = limit; blocks = two_blocks }

two_view-IsHeap : IsHeap two_mem two_view
two_view-IsHeap = record {
  start_at = refl;
  end_at = refl;
  limit_lt = omega arith;
  tiled = two_mem-Blocks;
}

real_size_lem_example : RealSize 101 (real_size 101)
real_size_lem_example = real_size_lem 101 (omega arith)

-- Frames are handed out one behind the other, `limit` of them.
abbrev counter : FrameAllocator
counter = record {
  Frames = ℕ;
  frame_alloc = λ count next. if next == 64 then none else some (next * 65536, next + 1);
  frame_free = λ frame count next. some next;
}

abbrev two_state : State ℕ
two_state = record { mem = two_mem; heap_list = heap ∷ []; frames = 1 }

abbrev full_state : State ℕ
full_state = record two_state { frames = 64 }

two_state-IsState : IsState two_state (two_view ∷ [])
two_state-IsState = record { listed = refl; heaps = (two_view-IsHeap, tt); separate = (tt, tt) }

full_state-IsState : IsState full_state (two_view ∷ [])
full_state-IsState = record { listed = refl; heaps = (two_view-IsHeap, tt); separate = (tt, tt) }

malloc-reuses_example :
    Returns
      (λ r s'.
        (r ≡ second + sizeof_head)
        × (second + sizeof_head ≢ 0)
        × IsState s' (with_blocks two_view ((40, false) ∷ (60, false) ∷ []) ∷ [])
        × (s'.frames ≡ 1))
      (malloc counter 20 two_state)
unfolding real_size add32 align_up
malloc-reuses_example =
    malloc-reuses counter two_state (two_view ∷ []) 20 two_state-IsState (omega arith)
      (second + sizeof_head) (with_blocks two_view ((40, false) ∷ (60, false) ∷ []) ∷ []) refl

malloc-exhausted_example : malloc counter 100 full_state ≡ some (0, full_state)
unfolding real_size add32 align_up
malloc-exhausted_example =
    malloc-exhausted counter full_state (two_view ∷ []) 100 full_state-IsState (omega arith) refl
      refl

malloc-grows_example :
    Returns
      (Grown counter two_state (two_view ∷ []) 100 two_state-IsState (omega arith) 65536 2)
      (malloc counter 100 two_state)
unfolding real_size add32 align_up heap_extent
malloc-grows_example =
    malloc-grows counter two_state (two_view ∷ []) 100 two_state-IsState (omega arith) 65536 2 refl
      refl (omega arith) (inl (omega arith), tt)

free-drops_example :
    Returns (λ _ s'. IsState s' [] × (s'.frames ≡ 1)) (free counter (first + sizeof_head) two_state)
free-drops_example =
    free-drops counter two_state [] two_view [] two_state-IsState [] first 40 ((60, true) ∷ []) refl
      refl 1 refl refl

-- The same heap with both blocks used.
abbrev busy_state : State ℕ
busy_state = record two_state { mem = poke (second + 4) 0 two_mem }

abbrev busy_view : HeapView
busy_view = record { at = heap; limit = limit; blocks = (40, false) ∷ (60, false) ∷ [] }

busy_view-IsHeap : IsHeap (poke (second + 4) 0 two_mem) busy_view
busy_view-IsHeap = record {
  start_at = refl;
  end_at = refl;
  limit_lt = omega arith;
  tiled = (
    record {
      size_at = refl;
      free_at = refl;
      heap_at = refl;
      magic_at = refl;
      foot_magic_at = refl;
      foot_size_at = refl;
      room = omega arith;
    },
    (
      record {
        size_at = refl;
        free_at = refl;
        heap_at = refl;
        magic_at = refl;
        foot_magic_at = refl;
        foot_size_at = refl;
        room = omega arith;
      },
      refl,
    ),
  );
}

busy_state-IsState : IsState busy_state (busy_view ∷ [])
busy_state-IsState = record { listed = refl; heaps = (busy_view-IsHeap, tt); separate = (tt, tt) }

free-keeps_example :
    Returns
      (λ _ s'.
        IsState s' (with_blocks busy_view ((40, true) ∷ (60, false) ∷ []) ∷ []) × (s'.frames ≡ 1))
      (free counter (first + sizeof_head) busy_state)
free-keeps_example =
    free-keeps counter busy_state [] busy_view [] busy_state-IsState [] first 40 ((60, false) ∷ [])
      refl refl refl

malloc-IsTidy_example : Returns (λ _ s'. IsTidy s') (malloc counter 100 two_state)
unfolding real_size add32 align_up heap_extent
malloc-IsTidy_example =
    malloc-IsTidy counter two_state (two_view ∷ []) two_state-IsState ((refl, tt), tt) 100
      (omega arith)
      λ phys rest e.
        let first_frame : 65536 ≡ phys = ap (λ o. elim o [ none ↦ 0 | some (p, r) ↦ p ]) e in
        subst
          (λ p.
            (addr_in_kseg0 p + 65536 < 2 ^ 32)
            × All (λ v. Apart v (new_heap (addr_in_kseg0 p) 65536 124)) (two_view ∷ []))
          first_frame (omega arith, (inl (omega arith), tt))

free-IsTidy_example : Returns (λ _ s'. IsTidy s') (free counter (first + sizeof_head) two_state)
free-IsTidy_example =
    free-IsTidy counter two_state [] two_view [] two_state-IsState ((refl, tt), tt) [] first 40
      ((60, true) ∷ []) refl refl (1, refl)
