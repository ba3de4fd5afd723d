-- ===== src/Processes.antt =====
-- kernel/proc/process.c: processes and their main threads. The structures of processes and of user
-- threads are kept by their addresses beside the state of the kernel.
use osy.Common.{ℕ, ◌+◌, true, Option, none, some, ◌==◌, if◌then◌else◌, Cmd, pure, ◌>>=◌, ◌>>◌}
use osy.LinkList.{null, list_init, list_append, list_remove}
use osy.Malloc.{FrameAllocator, malloc, free}
use osy.Threads.{Places, on_links}
use osy.Threads.Create.{Kernel, on_heap, on_sched, thread_create, join_and_destroy}

-- `struct process`, but for its links and the top of its stack
pub record Process : Type 0 where
  pub main_uthread : ℕ
  pub image : ℕ
  pub size : ℕ
  pub retval : ℕ

-- `struct uthread`, but for its link
pub record Uthread : Type 0 where
  pub thread : ℕ
  pub process : ℕ
  pub entry : ℕ
  pub arg : ℕ
  pub user_arg : ℕ

pub record System (F : Type 0) : Type 0 where
  pub kernel : Kernel F
  pub processes : ℕ → Process
  pub uthreads : ℕ → Uthread

-- sizes of the structures on the 32-bit machine, and `&process->uthread_list` and
-- `&process->umutex_list`
abbrev pub sizeof_process : ℕ
sizeof_process = 44

abbrev pub sizeof_uthread : ℕ
sizeof_uthread = 28

abbrev pub uthread_list : ℕ → ℕ
uthread_list process = process + 28

abbrev pub umutex_list : ℕ → ℕ
umutex_list process = process + 36

abbrev pub user_code_start : ℕ
user_code_start = 0x1000

abbrev pub set_process : (ℕ → Process) → ℕ → Process → ℕ → Process
set_process f p v a = if a == p then v else f a

abbrev pub set_uthread : (ℕ → Uthread) → ℕ → Uthread → ℕ → Uthread
set_uthread f u v a = if a == u then v else f a

abbrev pub lift : {F A : Type 0} → System F → Option (A × Kernel F) → Option (A × System F)
lift s none = none
lift s (some (a, kernel)) = some (a, record s { kernel = kernel })

-- A call to the rest of the kernel
abbrev pub on_kernel : {F A : Type 0} → Cmd (Kernel F) A → Cmd (System F) A
on_kernel m s = lift s (m s.kernel)

module _ (𝓕 : FrameAllocator) (at : Places) (thread_stub process_stub : ℕ) where
  open 𝓕 use {Frames}

  abbrev pub fill_process : (process uthread image size : ℕ) → Cmd (System Frames) (Unit {0})
  fill_process process uthread image size s = some (
    tt,
    record s {
      processes =
          set_process s.processes process
            (record (s.processes process) { main_uthread = uthread; image = image; size = size });
    },
  )

  abbrev pub fill_uthread : (process uthread : ℕ) → Cmd (System Frames) (Unit {0})
  fill_uthread process uthread s = some (
    tt,
    record s {
      uthreads = set_uthread s.uthreads uthread (record (s.uthreads uthread) {
        process = process;
        entry = user_code_start;
        arg = null;
        user_arg = null;
      });
    },
  )

  abbrev pub set_thread_of : (uthread thread : ℕ) → Cmd (System Frames) (Unit {0})
  set_thread_of uthread thread s = some (
    tt,
    record s {
      uthreads = set_uthread s.uthreads uthread (record (s.uthreads uthread) { thread = thread });
    },
  )

  -- What is left to do when `thread_create` has returned
  unfoldable pub with_result : (process uthread : ℕ) → Option ℕ → Cmd (System Frames) (Option ℕ)
  with_result process uthread none = do
    on_kernel (on_sched (on_links (list_remove uthread)))
    on_kernel (on_heap (free 𝓕 uthread))
    on_kernel (on_heap (free 𝓕 process))
    pure none
  with_result process uthread (some thread) = set_thread_of uthread thread >> pure (some process)

  -- What is left to do with the memory for both structures
  unfoldable pub with_memory : (process uthread image size : ℕ) → Cmd (System Frames) (Option ℕ)
  with_memory process uthread image size = do
    fill_process process uthread image size
    on_kernel (on_sched (on_links (list_init (uthread_list process))))
    on_kernel (on_sched (on_links (list_init (umutex_list process))))
    fill_uthread process uthread
    on_kernel (on_sched (on_links (list_append (uthread_list process) uthread)))
    result ← on_kernel (thread_create 𝓕 at thread_stub process_stub process true)
    with_result process uthread result

  unfoldable pub with_process : (process image size : ℕ) → Cmd (System Frames) (Option ℕ)
  with_process process image size = do
    uthread ← on_kernel (on_heap (malloc 𝓕 sizeof_uthread))
    if uthread == null
        then (on_kernel (on_heap (free 𝓕 process)) >> pure none)
        else with_memory process uthread image size

  -- `none` is ENOMEM; `process_stub` is the address of that function.
  unfoldable pub process_create : (image size : ℕ) → Cmd (System Frames) (Option ℕ)
  process_create image size = do
    process ← on_kernel (on_heap (malloc 𝓕 sizeof_process))
    if process == null then pure none else with_process process image size

  unfoldable pub process_set_retval : (process retval : ℕ) → Cmd (System Frames) (Unit {0})
  process_set_retval process retval s = some (
    tt,
    record s {
      processes =
          set_process s.processes process (record (s.processes process) { retval = retval });
    },
  )

  -- `process_join`, up to the switch or to the result of `thread_join`; `thread_destroy` included
  unfoldable pub process_join : (process now : ℕ) → Cmd (System Frames) (Option (Option ℕ))
  process_join process now s =
      let thread = (s.uthreads (s.processes process).main_uthread).thread in
      on_kernel (join_and_destroy 𝓕 at thread_stub thread now) s
