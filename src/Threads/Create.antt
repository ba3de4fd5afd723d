-- ===== src/Threads/Create.antt =====
-- kernel/proc/thread.c: `thread_create`, with the memory and the address space of a new thread. The
-- state joins the heap, the scheduler, and the structures in the memory that the heap gives out.
pub mod Started
pub mod Refused
mod Tests
use osy.Common.{
  ℕ, ◌+◌, ◌-◌, Bool, ◌||◌, Option, none, some, ◌==◌, if◌then◌else◌, Cmd, pure, and_then, ◌>>=◌,
  ◌>>◌,
}
use osy.Common.Word.{add32}
use osy.LinkList.{null, link_init}
use osy.Malloc
use osy.Malloc.{FrameAllocator, malloc, free}
use osy.Vmm.{Vmm, vmm_create}
use osy.Threads.{
  State, Places, Thread, ready, on_links, set_thread, sched_insert, thread_join, join_result,
}

-- The registers of `context_t` that a new thread starts with
pub record Context : Type 0 where
  pub ra : ℕ
  pub a0 : ℕ
  pub gp : ℕ
  pub status : ℕ

pub record Kernel (F : Type 0) : Type 0 where
  pub heap : Malloc.State F
  pub sched : State
  pub spaces : ℕ → Vmm
  pub last_asid : ℕ
  pub contexts : ℕ → Context

-- sizes of the structures on the 32-bit machine
abbrev pub sizeof_thread : ℕ
sizeof_thread = 92

abbrev pub sizeof_vmm : ℕ
sizeof_vmm = 1604

abbrev pub sizeof_context : ℕ
sizeof_context = 156

abbrev pub abi_stack_frame : ℕ
abi_stack_frame = 32

abbrev pub thread_stack_size : ℕ
thread_stack_size = 4096

-- `&thread->wait_queue_link`
abbrev pub wait_queue_link : ℕ → ℕ
wait_queue_link thread = thread + 72

abbrev pub lift : {F A : Type 0} → Kernel F → Option (A × State) → Option (A × Kernel F)
lift k none = none
lift k (some (a, sched)) = some (a, record k { sched = sched })

abbrev pub lift_heap :
    {F A : Type 0} → Kernel F → Option (A × Malloc.State F) → Option (A × Kernel F)
lift_heap k none = none
lift_heap k (some (a, heap)) = some (a, record k { heap = heap })

-- A call to the scheduler's part, and one to the heap
abbrev pub on_sched : {F A : Type 0} → Cmd State A → Cmd (Kernel F) A
on_sched m k = lift k (m k.sched)

abbrev pub on_heap : {F A : Type 0} → Cmd (Malloc.State F) A → Cmd (Kernel F) A
on_heap m k = lift_heap k (m k.heap)

abbrev pub new_space : {F : Type 0} → ℕ → Cmd (Kernel F) ℕ
new_space vmm k =
    let (space, next) = vmm_create k.last_asid in
    some (vmm, record k { spaces = λ a. if a == vmm then space else k.spaces a; last_asid = next })

module _ (𝓕 : FrameAllocator) (at : Places) (thread_stub : ℕ) where
  open 𝓕 use {Frames}

  -- A write of fields of the thread
  abbrev pub change_thread : ℕ → (Thread → Thread) → Cmd (Kernel Frames) (Unit {0})
  change_thread thread f k = some (
    tt,
    record k {
      sched = record k.sched {
        threads = set_thread k.sched.threads thread (f (k.sched.threads thread));
      };
    },
  )

  -- `vmm_create`; `none` is ENOMEM.
  unfoldable pub create_space : Cmd (Kernel Frames) (Option ℕ)
  create_space = do
    vmm ← on_heap (malloc 𝓕 sizeof_vmm)
    if vmm == null then pure none else new_space vmm >>= λ a. pure (some a)

  -- A new thread has the address space of the current one, whatever that is, or one of its own.
  unfoldable pub choose_space : (new_vmm : Bool) → Cmd (Kernel Frames) (Option ℕ)
  choose_space new_vmm k =
      if (k.sched.current == null) || new_vmm
      then create_space k
      else some (some (k.sched.threads k.sched.current).vmm, k)

  -- The fields of the control structure behind the address space, in the code's order
  abbrev pub entry_fields : (func arg : ℕ) → Thread → Thread
  entry_fields func arg t = record t {
    entry_func = func;
    entry_data = arg;
    retval = null;
    process = null;
    uthread = null;
    stack_top = add32 t.stack_data (thread_stack_size - sizeof_context - abi_stack_frame);
    scheduled = 0;
    state = ready;
    joiner = null;
  }

  -- The context at the top of the stack
  abbrev pub fill_context : (thread : ℕ) → Cmd (Kernel Frames) (Unit {0})
  fill_context thread k =
      let top = (k.sched.threads thread).stack_top in
      let context : Context = record {
        ra = thread_stub;
        a0 = thread;
        gp = 0x80000000;
        status = 0x0000ff01;
      } in
      some (tt, record k { contexts = λ a. if a == top then context else k.contexts a })

  unfoldable pub start_thread : (thread func arg : ℕ) → Cmd (Kernel Frames) (Option ℕ)
  start_thread thread func arg = do
    on_sched (on_links (link_init thread))
    change_thread thread (entry_fields func arg)
    on_sched (on_links (link_init (wait_queue_link thread)))
    fill_context thread
    on_sched (sched_insert at thread)
    pure (some thread)

  -- What is left to do when the address space is chosen
  unfoldable pub with_space :
      (thread stack func arg : ℕ) → Option ℕ → Cmd (Kernel Frames) (Option ℕ)
  with_space thread stack func arg none = do
    on_heap (free 𝓕 stack)
    on_heap (free 𝓕 thread)
    pure none
  with_space thread stack func arg (some vmm) =
      change_thread thread (λ t. record t { vmm = vmm }) >> start_thread thread func arg

  -- What is left to do with the memory for the thread; the fields of the stack are written before
  -- the code looks whether there is one.
  unfoldable pub with_thread :
      (new_vmm : Bool) (thread func arg : ℕ) → Cmd (Kernel Frames) (Option ℕ)
  with_thread new_vmm thread func arg = do
    change_thread thread (λ t. record t { stack_size = thread_stack_size })
    stack ← on_heap (malloc 𝓕 thread_stack_size)
    change_thread thread (λ t. record t { stack_data = stack })
    if stack == null
        then (on_heap (free 𝓕 thread) >> pure none)
        else choose_space new_vmm >>= with_space thread stack func arg

  -- `none` is ENOMEM; `thread_stub` is the address of that function.
  unfoldable pub thread_create : (func arg : ℕ) (new_vmm : Bool) → Cmd (Kernel Frames) (Option ℕ)
  thread_create func arg new_vmm = do
    thread ← on_heap (malloc 𝓕 sizeof_thread)
    if thread == null then pure none else with_thread new_vmm thread func arg

  -- `thread_destroy`
  unfoldable pub thread_destroy : (thread : ℕ) → Cmd (Kernel Frames) (Unit {0})
  thread_destroy thread k =
      (on_heap (free 𝓕 (k.sched.threads thread).stack_data) >> on_heap (free 𝓕 thread)) k

  -- What is left to do when `thread_join` has its answer, and when its caller runs again: the memory
  -- of the zombie is given back.
  destroy_joined : (thread : ℕ) → Option (Option ℕ) → Cmd (Kernel Frames) (Option (Option ℕ))
  unfolding thread_destroy
  destroy_joined thread (some (some retval)) = thread_destroy thread >> pure (some (some retval))
  destroy_joined thread waits = pure waits

  -- `thread_join` as a whole, up to the switch or to the result
  unfoldable pub join_and_destroy : (thread now : ℕ) → Cmd (Kernel Frames) (Option (Option ℕ))
  unfolding destroy_joined
  join_and_destroy thread now = on_sched (thread_join at thread now) >>= destroy_joined thread

  unfoldable pub join_result_and_destroy : (thread : ℕ) → Cmd (Kernel Frames) ℕ
  unfolding thread_destroy
  join_result_and_destroy thread = do
    retval ← on_sched (join_result at thread)
    thread_destroy thread
    pure retval
