-- ===== src/Threads/Create/Started.antt =====
-- kernel/proc/thread.c: what `thread_create` does to the scheduler.
use osy.Common.{
  ℕ, ◌+◌, ◌%◌, ◌^◌, true, false, Option, none, some, ◌==◌, List, [], ◌∷◌, ◌++◌, ◌≡◌, ◌≢◌, refl, sym,
  ap, ◌∙◌, ◌>>◌, pure, Returns, Returns-bind, ==_self, ==_false, Bool-cases, eq-of_==, inl, inr,
  subst, arith,
}
use osy.Common.Word.{add32}
use osy.LinkList.{Links, null, link_init, list_append}
use osy.LinkList.Ring.{IsList, has, Chain-frame}
use osy.LinkList.Insert.{append_lem, SameOutside}
use osy.Malloc
use osy.Malloc.{FrameAllocator, malloc, free}
use osy.Threads.{State, Places, Thread, ready, with_links, sched_insert}
use osy.Threads.Switch.{OnLinks, on_links_lem}
use osy.Threads.Queue.{IsQueue, is_stopped, has-snoc, absurd_in}
use osy.Threads.Create.{
  Kernel, on_sched, wait_queue_link, lift, choose_space, start_thread, with_space, with_thread,
  thread_create, sizeof_thread, thread_stack_size,
}

-- A list is as before when its links are.
IsList-frame :
    (s t : Links) (l : ℕ) (xs : List ℕ)
    → ((a : ℕ) → has a (l ∷ xs) ≡ true → (t.next a ≡ s.next a) × (t.prev a ≡ s.prev a))
    → IsList s l xs
    → IsList t l xs
IsList-frame s t l xs same r = record {
  chain = Chain-frame l xs l r.chain (λ a h. (same a h).0) (λ a h. (same a h).1);
  fresh = r.fresh;
  distinct = r.distinct;
  nonnull = r.nonnull;
  items = r.items;
}

apart_of : (a b : ℕ) (xs : List ℕ) → has a xs ≡ true → has b xs ≡ false → (a == b) ≡ false
apart_of a b xs h g = ==_false a b λ e. absurd_in b xs (subst (λ c. has c xs ≡ true) e h) g

lift_lem :
    {F A : Type 0} (P : A → State → Type 0) (k : Kernel F) (o : Option (A × State))
    → Returns P o
    → Returns
        (λ a k'.
          P a k'.sched
          × (k'.heap ≡ k.heap)
          × (k'.spaces ≡ k.spaces)
          × (k'.last_asid ≡ k.last_asid)
          × (k'.contexts ≡ k.contexts))
        (lift k o)
lift_lem P k none h = h
lift_lem P k (some (a, s)) h = (h, refl, refl, refl, refl)

-- A new thread is known, ready, and last in the list.
insert-IsQueue :
    (at : Places) (idle : ℕ) (known : List ℕ) (s t : State) (rs : List ℕ) (k : ℕ) (v : Thread)
    → IsQueue at idle known s rs
    → has k (null ∷ at.runnable ∷ known) ≡ false
    → v.state ≡ ready
    → v.joiner ≡ null
    → IsList t.links at.runnable (rs ++ k ∷ [])
    → ((u : ℕ) → (u == k) ≡ false → t.threads u ≡ s.threads u)
    → t.threads k ≡ v
    → t.current ≡ s.current
    → IsQueue at idle (k ∷ known) t (rs ++ k ∷ [])
insert-IsQueue at idle known s t rs k v q new is_ready alone list others changed current =
    let snoc : (u : ℕ) → has u (rs ++ k ∷ []) ≡ has u (k ∷ rs) = λ u. has-snoc u rs k in
    let fresh : has k known ≡ false = ground (arith, new) in
    let itself : (u : ℕ) → (u == k) ≡ true → t.threads u ≡ v =
      λ u e. ap t.threads (eq-of_== u k e) ∙ changed in
    record {
      list = list;
      idle_in = ground (arith, snoc idle, q.idle_in);
      known_in = λ u e. elim (Bool-cases (u == k)) [
        | inl g ↦ rw g refl
        | inr g ↦ let old = q.known_in u (ground (arith, snoc u, e, g)) in rw (g, old) refl
      ];
      listed = λ u e. elim (Bool-cases (u == k)) [
        | inl g ↦
            let same = eq-of_== u k g in
            let off : (u == s.current) ≡ false = ==_false u s.current λ x.
              absurd_in k known (subst (λ a. has a known ≡ true) (sym x ∙ same) q.current_in)
                fresh in
            ap (λ w. w.state) (itself u g) ∙ rw (current, off) is_ready
        | inr g ↦
            ap (λ w. w.state) (others u g) ∙ rw current (q.listed u (ground (arith, snoc u, e, g)))
      ];
      absent = λ u e f.
          let off : (u == k) ≡ false = ground (arith, snoc u, f) in
          subst (λ w. is_stopped w.state ≡ true) (sym (others u off))
            (q.absent u (ground (arith, e, off)) (ground (arith, snoc u, f)));
      joiners = λ u e. elim (Bool-cases (u == k)) [
        | inl g ↦
            subst (λ a. has a (null ∷ k ∷ known) ≡ true)
              (sym (ap (λ w. w.joiner) (itself u g) ∙ alone)) refl
        | inr g ↦
            let old = q.joiners u (ground (arith, e, g)) in
            subst (λ w. has w.joiner (null ∷ k ∷ known) ≡ true) (sym (others u g))
              (ground (arith, old))
      ];
      current_in = let old = q.current_in in ground (arith, ap (λ c. has c known) current, old);
      outside = (ground (arith, q.outside, new), ground (arith, q.outside, new));
    }

-- The fields of a thread that has not run yet: what `thread_create` promises.
abbrev pub fresh_thread : (stack vmm func arg : ℕ) → Thread
fresh_thread stack vmm func arg = record {
  state = ready;
  retval = null;
  scheduled = 0;
  joiner = null;
  process = null;
  uthread = null;
  stack_size = 4096;
  stack_data = stack;
  entry_func = func;
  entry_data = arg;
  stack_top = (stack + 3908) % 2 ^ 32;
  vmm = vmm;
}

module _ (𝓕 : FrameAllocator) (at : Places) (thread_stub idle : ℕ) (known : List ℕ) where
  -- The kernel with the new thread
  abbrev pub Started :
      (k : Kernel 𝓕.Frames) (rs : List ℕ) (thread stack vmm func arg : ℕ)
      → Option ℕ
      → Kernel 𝓕.Frames
      → Type 0
  Started k rs thread stack vmm func arg out k' =
      (out ≡ some thread)
      × IsQueue at idle (thread ∷ known) k'.sched (rs ++ thread ∷ [])
      × (k'.sched.threads thread ≡ fresh_thread stack vmm func arg)
      × ((u : ℕ) → (u == thread) ≡ false → k'.sched.threads u ≡ k.sched.threads u)
      × (k'.contexts ((stack + 3908) % 2 ^ 32)
          ≡ record { ra = thread_stub; a0 = thread; gp = 0x80000000; status = 0x0000ff01 })
      × (k'.sched.current ≡ k.sched.current)

  insert_new :
      (k k₁ : Kernel 𝓕.Frames) (rs : List ℕ) (thread stack vmm func arg : ℕ)
      → IsQueue at idle known k.sched rs
      → has thread (null ∷ at.runnable ∷ known) ≡ false
      → IsList k₁.sched.links at.runnable rs
      → k₁.sched.threads thread ≡ fresh_thread stack vmm func arg
      → ((u : ℕ) → (u == thread) ≡ false → k₁.sched.threads u ≡ k.sched.threads u)
      → k₁.contexts ((stack + 3908) % 2 ^ 32)
        ≡ record { ra = thread_stub; a0 = thread; gp = 0x80000000; status = 0x0000ff01 }
      → k₁.sched.current ≡ k.sched.current
      → Returns
          (λ out k'. Started k rs thread stack vmm func arg out k' × (k'.heap ≡ k₁.heap))
          ((on_sched (sched_insert at thread) >> pure (some thread)) k₁)
  unfolding sched_insert
  insert_new k k₁ rs thread stack vmm func arg q new list fields others context current =
      let links : Links = k₁.sched.links in
      let unlisted : has thread rs ≡ false = elim (Bool-cases (has thread rs)) [
        | inl e ↦ let old = q.known_in thread e in ground (arith, old, new)
        | inr e ↦ e
      ] in
      Returns-bind _ (λ out k'. Started k rs thread stack vmm func arg out k' × (k'.heap ≡ k₁.heap))
        (lift k₁ (with_links k₁.sched (list_append at.runnable thread links)))
        (λ _. pure (some thread))
        (lift_lem
          (OnLinks
            (λ _ t.
              IsList t at.runnable (rs ++ thread ∷ [])
              × SameOutside (at.runnable ∷ thread ∷ rs) links t)
            k₁.sched)
          k₁ (with_links k₁.sched (list_append at.runnable thread links))
          (on_links_lem _ k₁.sched (list_append at.runnable thread links) (
            append_lem links at.runnable thread rs list (ground (arith, new, unlisted))
              (ground (arith, new)))))
        λ _ k₂ h.
          let here : k₂.sched.threads thread ≡ fresh_thread stack vmm func arg =
            ap (λ f. f thread) (h.0.1) ∙ fields in
          let rest : (u : ℕ) → (u == thread) ≡ false → k₂.sched.threads u ≡ k.sched.threads u =
            λ u e. ap (λ f. f u) (h.0.1) ∙ others u e in
          (
            (
              refl,
              insert-IsQueue at idle known k.sched k₂.sched rs thread
                  (fresh_thread stack vmm func arg) q new refl refl (h.0.0.0) rest here
                  (h.0.3 ∙ current),
              here,
              rest,
              ap (λ f. f ((stack + 3908) % 2 ^ 32)) (h.4) ∙ context,
              h.0.3 ∙ current,
            ),
            h.1,
          )

  -- The state in which the thread's memory, stack and address space are there
  abbrev prepared :
      (k : Kernel 𝓕.Frames) (heap : Malloc.State 𝓕.Frames) (threads : ℕ → Thread) → Kernel 𝓕.Frames
  prepared k heap threads = record k { heap = heap; sched = record k.sched { threads = threads } }

  start_thread_lem :
      (k : Kernel 𝓕.Frames) (heap : Malloc.State 𝓕.Frames) (threads : ℕ → Thread) (rs : List ℕ)
      (thread stack vmm func arg : ℕ)
      → IsQueue at idle known k.sched rs
      → has thread (null ∷ at.runnable ∷ known) ≡ false
      → has (wait_queue_link thread) (at.runnable ∷ known) ≡ false
      → ((u : ℕ) → (u == thread) ≡ false → threads u ≡ k.sched.threads u)
      → (threads thread).stack_size ≡ 4096
      → (threads thread).stack_data ≡ stack
      → (threads thread).vmm ≡ vmm
      → Returns
          (λ out k'. Started k rs thread stack vmm func arg out k' × (k'.heap ≡ heap))
          (start_thread 𝓕 at thread_stub thread func arg (prepared k heap threads))
  unfolding start_thread link_init add32
  start_thread_lem k heap threads rs thread stack vmm func arg q new apart others size base space =
      let nonnull : (thread == null) ≡ false = ground (arith, new) in
      let wait_nonnull : (wait_queue_link thread == null) ≡ false = ==_false _ _ (omega arith) in
      let self = ==_self thread in
      rw (nonnull, wait_nonnull)
        (insert_new k _ rs thread stack vmm func arg q new
          (IsList-frame k.sched.links _ at.runnable rs
            (λ a h.
              let known_or : has a (at.runnable ∷ known) ≡ true =
                elim (Bool-cases (a == at.runnable)) [
                  | inl e ↦ rw e refl
                  | inr e ↦ let old = q.known_in a (ground (arith, h, e)) in rw (e, old) refl
                ] in
              let no_thread : (a == thread) ≡ false =
                apart_of a thread (at.runnable ∷ known) known_or (ground (arith, new)) in
              let no_wait : (a == wait_queue_link thread) ≡ false =
                apart_of a (wait_queue_link thread) (at.runnable ∷ known) known_or apart in
              rw (no_thread, no_wait) (refl, refl))
            q.list)
          (rw (self, size, base, space) refl) (λ u e. rw e (others u e))
          (rw (self, base) let top = ==_self ((stack + 3908) % 2 ^ 32) in rw top refl) refl)

  -- Let the list of runnable threads be right, and the heap give out memory for a thread that is
  -- not known, and that no known thread's link shares with its wait queue link, and memory for its
  -- stack. Then thread_create without TF_NEW_VMM does not fail and returns the new thread; the list
  -- is right with the new thread known and last. The thread is ready with the given function and
  -- argument, that stack of 4096 bytes, the stack's top 188 bytes below its end, the current
  -- thread's address space, and nothing else set; at the top of the stack stands a context that
  -- starts thread_stub with the thread as its argument; every other thread and the current one are
  -- as before, and the heap is what the two allocations left.
  pub thread_create_lem :
      (k : Kernel 𝓕.Frames) (rs : List ℕ) (func arg thread stack : ℕ)
      (heap₁ heap₂ : Malloc.State 𝓕.Frames)
      → IsQueue at idle known k.sched rs
      → malloc 𝓕 sizeof_thread k.heap ≡ some (thread, heap₁)
      → malloc 𝓕 thread_stack_size heap₁ ≡ some (stack, heap₂)
      → has thread (null ∷ at.runnable ∷ known) ≡ false
      → has (wait_queue_link thread) (at.runnable ∷ known) ≡ false
      → stack ≢ null
      → Returns
          (λ out k'.
            Started k rs thread stack (k.sched.threads k.sched.current).vmm func arg out k'
            × (k'.heap ≡ heap₂))
          (thread_create 𝓕 at thread_stub func arg false k)
  unfolding thread_create with_thread choose_space with_space
  thread_create_lem k rs func arg thread stack heap₁ heap₂ q e f new apart good =
      let t_nonnull : (thread == null) ≡ false = ground (arith, new) in
      let s_nonnull = ==_false stack null good in
      let c_nonnull : (k.sched.current == null) ≡ false =
        apart_of k.sched.current null known q.current_in (q.outside.1) in
      let c_other : (k.sched.current == thread) ≡ false =
        apart_of k.sched.current thread known q.current_in (ground (arith, new)) in
      let self = ==_self thread in
      rw (e, t_nonnull, f, s_nonnull, c_nonnull, c_other)
        (start_thread_lem k heap₂ _ rs thread stack (k.sched.threads k.sched.current).vmm func arg q
          new apart (λ u g. rw g refl) (rw self refl) (rw self refl) (rw self refl))
