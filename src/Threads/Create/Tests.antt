-- ===== src/Threads/Create/Tests.antt =====
-- A thread that is created by the one at 20, with the idle one at 30, on an empty heap.
use osy.Common.{
  ℕ, ◌+◌, ◌-◌, List, ◌*◌, true, false, Bool-cases, Option, none, some, [], ◌∷◌, ◌==◌, if◌then◌else◌,
  ◌≡◌, refl, sym, subst, inl, inr, Returns, Bool, arith,
}
use osy.Common.Word.{add32, sub32}
use osy.LinkList.Ring.{has}
use osy.Malloc
use osy.Malloc.{
  FrameAllocator, malloc, malloc_heap, search_heaps, heap_setup, heap_fill, place_first,
  heap_extent, walk, try_block, take_block,
}
use osy.Malloc.Memory.{
  Mem, head_magic, foot_magic, split_limit, real_size, align_up, block_init, block_check, read,
  write,
}
use osy.Threads.{State, Thread, Places, ready, running}
use osy.Threads.Queue.{IsQueue}
use osy.Threads.Create.{Kernel, thread_create, sizeof_thread, thread_stack_size}
use osy.Threads.Create.Started.{thread_create_lem}
use osy.Threads.Create.Refused.{SameKernel, thread_create-refused}
use osy.Malloc.Blocks.{Block, IsBlock}
use osy.Malloc.Heaps.{HeapView}
use osy.Malloc.Calls.{IsState}

abbrev counter : FrameAllocator
counter = record {
  Frames = ℕ;
  frame_alloc = λ count next. if next == 64 then none else some (next * 65536, next + 1);
  frame_free = λ frame count next. some next;
}

abbrev places : Places
places = record { runnable = 10; timers = 11; timer_of = λ t. t + 44 }

abbrev thread : Thread
thread = record {
  state = ready;
  retval = 0;
  scheduled = 0;
  joiner = 0;
  process = 0;
  uthread = 0;
  stack_size = 0;
  stack_data = 0;
  entry_func = 0;
  entry_data = 0;
  stack_top = 0;
  vmm = 8;
}

abbrev threads : ℕ → Thread
threads t = if t == 20 then record thread { state = running } else thread

abbrev sched : State
sched = record {
  links = record {
    next = λ a. if a == 10 then 20 else if a == 20 then 30 else if a == 30 then 10 else 0;
    prev = λ a. if a == 10 then 30 else if a == 20 then 10 else if a == 30 then 20 else 0;
  };
  threads = threads;
  timers = λ t. record { timeout = 5; expires = 5; running = false; data_thread = 20 };
  current = 20;
  jiffies = 6;
}

abbrev empty_heap : Malloc.State ℕ
empty_heap = record { mem = λ a. 0; heap_list = []; frames = 1 }

abbrev kernel : Malloc.State ℕ → Kernel ℕ
kernel heap = record {
  heap = heap;
  sched = sched;
  spaces = λ a. record { asid = 0; vma = [] };
  last_asid = 1;
  contexts = λ a. record { ra = 0; a0 = 0; gp = 0; status = 0 };
}

sched-IsQueue : IsQueue places 30 (20 ∷ 30 ∷ []) sched (20 ∷ 30 ∷ [])
sched-IsQueue = record {
  list = record {
    chain = (refl, refl, (refl, refl, (refl, refl)));
    fresh = refl;
    distinct = (refl, (refl, tt));
    nonnull = omega arith;
    items = (omega arith, (omega arith, tt));
  };
  idle_in = refl;
  known_in = λ u e. e;
  listed = λ u e. elim (Bool-cases (u == 20)) [ inl f ↦ rw f refl | inr f ↦ rw f refl ];
  absent = λ u e f. absurd (ground (arith, e, f));
  joiners = λ u e.
      let none_joins : (threads u).joiner ≡ 0 = elim (Bool-cases (u == 20)) [
        | inl f ↦ rw f refl
        | inr f ↦ rw f refl
      ] in
      subst (λ a. has a (0 ∷ 20 ∷ 30 ∷ []) ≡ true) (sym none_joins) refl;
  current_in = refl;
  outside = (refl, refl);
}

-- The first block of a new heap, and the one behind it
abbrev first : ℕ
first = 0x80010024

abbrev second : ℕ
second = 0x80010098

abbrev heap_or : Option (ℕ × Malloc.State ℕ) → Malloc.State ℕ
heap_or none = empty_heap
heap_or (some (a, heap)) = heap

abbrev heap₁ : Malloc.State ℕ
heap₁ = heap_or (malloc counter sizeof_thread empty_heap)

thread_memory : malloc counter sizeof_thread empty_heap ≡ some (first, heap₁)
unfolding malloc malloc_heap search_heaps heap_setup heap_fill place_first split_limit add32
    real_size align_up sub32 heap_extent block_init walk try_block take_block block_check read write
thread_memory = refl

abbrev heap₂ : Malloc.State ℕ
heap₂ = heap_or (malloc counter thread_stack_size heap₁)

stack_memory : malloc counter thread_stack_size heap₁ ≡ some (second, heap₂)
unfolding malloc malloc_heap search_heaps heap_setup heap_fill place_first split_limit add32
    real_size align_up sub32 heap_extent block_init walk try_block take_block block_check read write
stack_memory = refl

thread_create_lem_example :
    Returns
      (λ out k'.
        ((out ≡ some first)
          × IsQueue places 30 (first ∷ 20 ∷ 30 ∷ []) k'.sched (20 ∷ 30 ∷ first ∷ [])
          × (k'.sched.threads first ≡ record {
            state = ready;
            retval = 0;
            scheduled = 0;
            joiner = 0;
            process = 0;
            uthread = 0;
            stack_size = 4096;
            stack_data = second;
            entry_func = 5;
            entry_data = 6;
            stack_top = 0x80010fdc;
            vmm = 8;
          })
          × ((u : ℕ) → (u == first) ≡ false → k'.sched.threads u ≡ threads u)
          × (k'.contexts 0x80010fdc
              ≡ record { ra = 7; a0 = first; gp = 0x80000000; status = 0x0000ff01 })
          × (k'.sched.current ≡ 20))
        × (k'.heap ≡ heap₂))
      (thread_create counter places 7 5 6 false (kernel empty_heap))
thread_create_lem_example =
    thread_create_lem counter places 7 30 (20 ∷ 30 ∷ []) (kernel empty_heap) (20 ∷ 30 ∷ []) 5 6
      first second heap₁ heap₂ sched-IsQueue thread_memory stack_memory refl refl (omega arith)

-- Without frames there is no thread.
is_refused : {A B : Type 0} → Option (Option A × B) → Bool
is_refused (some (none, b)) = true
is_refused _ = false

refused :
    is_refused
      (thread_create counter places 7 5 6 true (kernel (record empty_heap { frames = 64 })))
    ≡ true
unfolding is_refused thread_create malloc malloc_heap search_heaps add32 real_size align_up
    heap_extent
refused = refl

-- A heap with a used block of 40 bytes and a free one of 160, where a thread fits but no stack.
abbrev small : ℕ
small = 0x80010000

abbrev poke : ℕ → ℕ → Mem → Mem
poke p v m a = if a == p then v else m a

abbrev poke_block : (p n free : ℕ) → Mem → Mem
poke_block p n free m = poke p n (
    poke (p + 4) free (
      poke (p + 8) small
        (poke (p + 12) head_magic (poke (p + n - 8) foot_magic (poke (p + n - 4) n m)))))

abbrev small_mem : Mem
small_mem = poke (small + 8) (small + 20) (
    poke (small + 12) (small + 220)
      (poke (small + 16) 1 (poke_block (small + 20) 40 0 (poke_block (small + 60) 160 1 (λ a. 0)))))

abbrev small_view : List Block → HeapView
small_view blocks = record { at = small; limit = small + 220; blocks = blocks }

abbrev small_heap : Malloc.State ℕ
small_heap = record { mem = small_mem; heap_list = small ∷ []; frames = 64 }

small_used : IsBlock small_mem small (small + 20) 40 false
small_used = record {
  size_at = refl;
  free_at = refl;
  heap_at = refl;
  magic_at = refl;
  foot_magic_at = refl;
  foot_size_at = refl;
  room = omega arith;
}

small_free : IsBlock small_mem small (small + 60) 160 true
small_free = record {
  size_at = refl;
  free_at = refl;
  heap_at = refl;
  magic_at = refl;
  foot_magic_at = refl;
  foot_size_at = refl;
  room = omega arith;
}

small_heap-IsState : IsState small_heap (small_view ((40, false) ∷ (160, true) ∷ []) ∷ [])
small_heap-IsState = record {
  listed = refl;
  heaps = (
    record {
      start_at = refl;
      end_at = refl;
      limit_lt = omega arith;
      tiled = (small_used, (small_free, refl));
    },
    tt,
  );
  separate = (tt, tt);
}

thread_create-refused_example :
    Returns
      (λ out k'.
        (out ≡ none)
        × IsState k'.heap (small_view ((40, false) ∷ (160, true) ∷ []) ∷ [])
        × (k'.heap.frames ≡ 64)
        × SameKernel (small + 76) (kernel small_heap) k')
      (thread_create counter places 7 5 6 false (kernel small_heap))
unfolding real_size add32 align_up
thread_create-refused_example =
    thread_create-refused counter places 7 (small_view ((40, false) ∷ (160, true) ∷ []) ∷ [])
      ((refl, tt), tt) (refl, tt) (small + 76)
      (small_view ((40, false) ∷ (116, false) ∷ (44, true) ∷ []) ∷ []) refl refl (kernel small_heap)
      5 6 false small_heap-IsState refl
