-- ===== src/Threads/Create/Refused.antt =====
-- kernel/proc/thread.c: what `thread_create` leaves when there is memory for a thread but none for
-- its stack.
use osy.Common.{
  ℕ, ◌≡◌, refl, ap, ◌∙◌, Bool, false, Option, none, some, List, ◌==◌, Returns, Returns-bind,
  Returns-mono, All, ==_false, pure, arith,
}
use osy.LinkList.{null}
use osy.Malloc
use osy.Malloc.{FrameAllocator, heap_extent, malloc, free}
use osy.Malloc.Memory.{real_size}
use osy.Malloc.Heaps.{HeapView, fit_heaps}
use osy.Malloc.Calls.{IsState, malloc-reuses, malloc-exhausted}
use osy.Malloc.FreeCall.{unused}
use osy.Malloc.Tidy.{AllSettled}
use osy.Malloc.RoundTrip.{fit_heaps-Chosen, freed}
use osy.Threads.{Places, set_thread}
use osy.Threads.Create.{
  Kernel, lift_heap, with_thread, thread_create, sizeof_thread, thread_stack_size,
}

-- What a call to the heap keeps
abbrev SameRest : {F : Type 0} → Kernel F → Kernel F → Type 0
SameRest k k' =
    (k'.sched ≡ k.sched)
    × (k'.spaces ≡ k.spaces)
    × (k'.last_asid ≡ k.last_asid)
    × (k'.contexts ≡ k.contexts)

lift_heap_lem :
    {F A : Type 0} (P : A → Malloc.State F → Type 0) (k : Kernel F)
    (o : Option (A × Malloc.State F))
    → Returns P o
    → Returns (λ a k'. P a k'.heap × SameRest k k') (lift_heap k o)
lift_heap_lem P k none h = h
lift_heap_lem P k (some (a, heap)) h = (h, (refl, refl, refl, refl))

-- What `thread_create` must leave as it was; the fields at the address of the refused thread are
-- not in use any more.
abbrev pub SameKernel : {F : Type 0} → (thread : ℕ) → Kernel F → Kernel F → Type 0
SameKernel thread k k' =
    (k'.sched.links ≡ k.sched.links)
    × (k'.sched.timers ≡ k.sched.timers)
    × (k'.sched.current ≡ k.sched.current)
    × (k'.sched.jiffies ≡ k.sched.jiffies)
    × ((u : ℕ) → (u == thread) ≡ false → k'.sched.threads u ≡ k.sched.threads u)
    × (k'.spaces ≡ k.spaces)
    × (k'.last_asid ≡ k.last_asid)
    × (k'.contexts ≡ k.contexts)

module _ (𝓕 : FrameAllocator) (at : Places) (thread_stub : ℕ) (vs : List HeapView)
    (tidy : AllSettled vs) (in_use : All (λ v. unused v.blocks ≡ false) vs) (thread : ℕ)
    (ws : List HeapView) (fits : fit_heaps (real_size sizeof_thread) vs ≡ some (thread, ws))
    (full : fit_heaps (real_size thread_stack_size) ws ≡ none) where
  -- The thread's memory is given back.
  without_stack :
      (k k₁ : Kernel 𝓕.Frames) (new_vmm : Bool) (func arg : ℕ)
      → IsState k.heap vs
      → IsState k₁.heap ws
      → 𝓕.frame_alloc (heap_extent (real_size thread_stack_size)).1 k₁.heap.frames ≡ none
      → SameRest k k₁
      → Returns
          (λ out k'.
            (out ≡ none)
            × IsState k'.heap vs
            × (k'.heap.frames ≡ k₁.heap.frames)
            × SameKernel thread k k')
          (with_thread 𝓕 at thread_stub new_vmm thread func arg k₁)
  unfolding with_thread
  without_stack k k₁ new_vmm func arg i j empty same =
      let exhausted = malloc-exhausted 𝓕 k₁.heap ws thread_stack_size j (omega arith) full empty in
      let chosen = fit_heaps-Chosen (real_size sizeof_thread) vs thread ws fits in
      let sized =
        set_thread k₁.sched.threads thread
          (record (k₁.sched.threads thread) { stack_size = thread_stack_size }) in
      let written : Kernel 𝓕.Frames = record k₁ {
        sched = record k₁.sched {
          threads = set_thread sized thread (record (sized thread) { stack_data = null });
        };
      } in
      rw exhausted (
        Returns-bind _ _ (lift_heap written (free 𝓕 thread k₁.heap)) (λ _. pure none)
          (lift_heap_lem (λ _ u. IsState u vs × (u.frames ≡ k₁.heap.frames)) written
            (free 𝓕 thread k₁.heap)
            (freed 𝓕 k.heap vs i tidy in_use (real_size sizeof_thread) thread ws k₁.heap chosen j))
          λ _ k' h. (
            refl,
            h.0.0,
            h.0.1,
            (
              ap (λ s. s.links) (h.1.0) ∙ ap (λ s. s.links) (same.0),
              ap (λ s. s.timers) (h.1.0) ∙ ap (λ s. s.timers) (same.0),
              ap (λ s. s.current) (h.1.0) ∙ ap (λ s. s.current) (same.0),
              ap (λ s. s.jiffies) (h.1.0) ∙ ap (λ s. s.jiffies) (same.0),
              (λ u e. ap (λ s. s.threads u) (h.1.0) ∙ (rw e refl) ∙ ap (λ s. s.threads u) (same.0)),
              h.1.1 ∙ same.1,
              h.1.2 ∙ same.2,
              h.1.3 ∙ same.3,
            ),
          ))

  -- On well-formed, separate heaps in which no two free blocks stand side by side and each of which
  -- has a used block, where first fit finds memory for a thread but then none for its stack and no
  -- frames are left, thread_create does not fail and returns ENOMEM; the memory for the thread is
  -- given back, so that the heaps have the same blocks and the same frames as before, and links,
  -- timers, the current thread, jiffies, address spaces, contexts and every thread but for the
  -- fields at that memory are as before.
  pub thread_create-refused :
      (k : Kernel 𝓕.Frames) (func arg : ℕ) (new_vmm : Bool)
      → IsState k.heap vs
      → 𝓕.frame_alloc (heap_extent (real_size thread_stack_size)).1 k.heap.frames ≡ none
      → Returns
          (λ out k'.
            (out ≡ none)
            × IsState k'.heap vs
            × (k'.heap.frames ≡ k.heap.frames)
            × SameKernel thread k k')
          (thread_create 𝓕 at thread_stub func arg new_vmm k)
  unfolding thread_create
  thread_create-refused k func arg new_vmm i empty =
      Returns-bind _ _ (lift_heap k (malloc 𝓕 sizeof_thread k.heap)) _
        (lift_heap_lem _ k (malloc 𝓕 sizeof_thread k.heap)
          (malloc-reuses 𝓕 k.heap vs sizeof_thread i (omega arith) thread ws fits))
        λ r k₁ h.
          let nonnull = ==_false thread null (h.0.1) in
          let frames : k₁.heap.frames ≡ k.heap.frames = h.0.3 in
          rw (h.0.0, nonnull)
            (Returns-mono _ _ (with_thread 𝓕 at thread_stub new_vmm thread func arg k₁)
              (without_stack k k₁ new_vmm func arg i (h.0.2)
                (ap (𝓕.frame_alloc (heap_extent (real_size thread_stack_size)).1) frames ∙ empty)
                (h.1))
              λ out k' g. (g.0, g.1, g.2 ∙ frames, g.3))
