-- ===== src/Threads.antt =====
-- kernel/proc/thread.c, kernel/sched/sched.c and kernel/time/timer.c on one processor: threads, the
-- list of runnable threads and the list of pending timers. A call runs with interrupts disabled, so
-- it is one step up to the switch to another thread; what a function does once the processor
-- switches back is a function of its own. The hardware's counter is the argument `now`.
pub mod Switch
pub mod Expiry
pub mod Data
pub mod Queue
pub mod Leave
pub mod Turns
pub mod Stops
pub mod Calls
pub mod Reach
pub mod Create
mod Tests
use osy.Common.{
  ℕ, zero, suc, ◌+◌, Bool, true, false, not, ◌&&◌, ◌||◌, Option, none, some, ltb, leb, ◌==◌,
  if◌then◌else◌, Cmd, pure, fail, ◌>>=◌, ◌>>◌, assert,
}
use osy.Common.Word.{add32, sub32}
use osy.LinkList.{
  Links, null, get_next, link_init, list_init, link_connected, list_append, list_remove,
  list_rotate,
}
use osy.Time.{sec_to_jiffies, usec_to_jiffies, jiffies_to_sec, jiffies_to_usec}

-- `thread_state_t`
pub data ThreadState : Type 0 where
  ready running sleeping zombie : ThreadState

abbrev pub is_running : ThreadState → Bool
is_running running = true
is_running _ = false

abbrev pub is_sleeping : ThreadState → Bool
is_sleeping sleeping = true
is_sleeping _ = false

abbrev pub is_zombie : ThreadState → Bool
is_zombie zombie = true
is_zombie _ = false

-- `struct thread`, but for its links, its timer, and the size and the context of its stack
pub record Thread : Type 0 where
  pub state : ThreadState
  pub retval : ℕ
  pub scheduled : ℕ
  pub joiner : ℕ
  pub process : ℕ
  pub uthread : ℕ
  pub stack_size : ℕ
  pub stack_data : ℕ
  pub entry_func : ℕ
  pub entry_data : ℕ
  pub stack_top : ℕ
  pub vmm : ℕ

-- `struct timer`, but for its link; the handler is always `thread_timeout_handler`.
pub record Timer : Type 0 where
  pub timeout : ℕ
  pub expires : ℕ
  pub running : Bool
  pub data_thread : ℕ

-- The links are at the addresses of the threads and of the timers.
pub record State : Type 0 where
  pub links : Links
  pub threads : ℕ → Thread
  pub timers : ℕ → Timer
  pub current : ℕ
  pub jiffies : ℕ

-- `&runnable_list[cpuid()]`, `&timers_list`, and `&thread->timer`
pub record Places : Type 0 where
  pub runnable : ℕ
  pub timers : ℕ
  pub timer_of : ℕ → ℕ

abbrev pub set_thread : (ℕ → Thread) → ℕ → Thread → ℕ → Thread
set_thread f t v u = if u == t then v else f u

abbrev pub set_timer : (ℕ → Timer) → ℕ → Timer → ℕ → Timer
set_timer f t v u = if u == t then v else f u

abbrev pub with_links : {A : Type 0} → State → Option (A × Links) → Option (A × State)
with_links s none = none
with_links s (some (a, links)) = some (a, record s { links = links })

-- A call that changes links only
abbrev pub on_links : {A : Type 0} → Cmd Links A → Cmd State A
on_links m s = with_links s (m s.links)

-- `thread_switch`, up to the switch of contexts
unfoldable pub thread_switch : ℕ → Cmd State (Unit {0})
thread_switch thread s =
    let current = s.threads s.current in
    let threads =
      if not (s.current == null) && is_running current.state
      then set_thread s.threads s.current (record current { state = ready })
      else s.threads in
    some (
      tt,
      record s {
        threads = set_thread threads thread (record (threads thread) { state = running });
        current = thread;
      },
    )

module _ (at : Places) where
  open at use {runnable, timer_of}

  unfoldable pub scheduler_init : Cmd State (Unit {0})
  scheduler_init = on_links (list_init runnable)

  unfoldable pub sched_insert : ℕ → Cmd State (Unit {0})
  sched_insert thread = on_links (list_append runnable thread)

  unfoldable pub sched_remove : ℕ → Cmd State (Unit {0})
  sched_remove thread = on_links (list_remove thread)

  -- The list's first thread, moved to its end, runs.
  switch_to : ℕ → Option ℕ → Cmd State (Unit {0})
  unfolding thread_switch
  switch_to now none s = some (tt, s)
  switch_to now (some thread) s = thread_switch thread (record s {
    threads = set_thread s.threads thread (record (s.threads thread) { scheduled = now });
  })

  unfoldable pub schedule : ℕ → Cmd State (Unit {0})
  unfolding switch_to
  schedule now = do link ← on_links (list_rotate runnable); switch_to now link

  unfoldable pub set_state : ℕ → ThreadState → Cmd State (Unit {0})
  set_state thread state s = some (
    tt,
    record s {
      threads = set_thread s.threads thread (record (s.threads thread) { state = state });
    },
  )

  abbrev pub thread_get_current : State → ℕ
  thread_get_current s = s.current

  unfoldable pub thread_set_process : (process uthread : ℕ) → Cmd State (Unit {0})
  thread_set_process process uthread s = some (
    tt,
    record s {
      threads =
          set_thread s.threads s.current
            (record (s.threads s.current) { process = process; uthread = uthread });
    },
  )

  unfoldable pub thread_get_process : State → ℕ
  thread_get_process s = (s.threads s.current).process

  unfoldable pub thread_get_uthread : State → ℕ
  thread_get_uthread s = (s.threads s.current).uthread

  unfoldable pub thread_suspend : ℕ → Cmd State (Unit {0})
  unfolding set_state sched_remove schedule
  thread_suspend now s = (do set_state s.current sleeping; sched_remove s.current; schedule now) s

  unfoldable pub thread_wakeup : ℕ → Cmd State (Unit {0})
  unfolding set_state sched_insert
  thread_wakeup thread s =
      if is_sleeping (s.threads thread).state
      then (set_state thread ready >> sched_insert thread) s
      else some (tt, s)

  -- `thread_finish`, up to the switch; it never comes back
  unfoldable pub thread_finish : (retval now : ℕ) → Cmd State (Unit {0})
  unfolding set_state sched_remove schedule thread_wakeup
  thread_finish retval now s =
      let current = s.current in
      let store_result : Cmd State ℕ = λ u. some (
        (u.threads current).joiner,
        record u {
          threads = set_thread u.threads current (record (u.threads current) { retval = retval });
        },
      ) in
      (do
        set_state current zombie
        sched_remove current
        joiner ← store_result
        if not (joiner == null) then thread_wakeup joiner else pure tt
        schedule now)
        s

  unfoldable pub thread_can_join : State → ℕ → Bool
  thread_can_join s thread = not (thread == s.current) && ((s.threads thread).joiner == null)

  -- `thread_join`, up to the switch or to the result. `none` is EINVAL; `some (some retval)` is EOK
  -- with the value of the zombie; `some none`: the caller waits. The memory of the zombie is not
  -- part of this state; Threads/Create has `thread_join` with `thread_destroy`.
  unfoldable pub thread_join : (thread now : ℕ) → Cmd State (Option (Option ℕ))
  unfolding thread_can_join thread_suspend
  thread_join thread now s =
      let waiting = record s {
        threads = set_thread s.threads thread (record (s.threads thread) { joiner = s.current });
      } in
      if not (thread_can_join s thread)
      then some (none, s)
      else if is_zombie (s.threads thread).state
      then some (some (some (s.threads thread).retval), s)
      else (thread_suspend now >> pure (some none)) waiting

  -- `thread_join`, when the caller runs again: EOK and the value
  unfoldable pub join_result : ℕ → Cmd State ℕ
  join_result thread s = some ((s.threads thread).retval, s)

  -- `timer_init_jiffies` with the handler `thread_timeout_handler`
  unfoldable pub timer_init_jiffies : (timer timeout thread : ℕ) → Cmd State (Unit {0})
  timer_init_jiffies timer timeout thread = do
    on_links (link_init timer)
    λ s. some (
      tt,
      record s {
        timers =
            set_timer s.timers timer
              (record { timeout = timeout; expires = 0; running = false; data_thread = thread });
      },
    )

  unfoldable pub timer_start : ℕ → Cmd State (Unit {0})
  timer_start timer s =
      let expires = add32 s.jiffies (s.timers timer).timeout in
      on_links (list_append at.timers timer) (record s {
        timers = set_timer s.timers timer (record (s.timers timer) { expires = expires });
      })

  -- `thread_sleep` and `thread_usleep`, up to the switch
  unfoldable pub sleep_jiffies : (timeout now : ℕ) → Cmd State (Unit {0})
  unfolding set_state sched_remove timer_init_jiffies timer_start schedule
  sleep_jiffies timeout now s =
      let current = s.current in
      (do
        set_state current sleeping
        sched_remove current
        timer_init_jiffies (timer_of current) timeout current
        timer_start (timer_of current)
        schedule now)
        s

  unfoldable pub thread_sleep : (sec now : ℕ) → Cmd State (Unit {0})
  thread_sleep sec now = sleep_jiffies (sec_to_jiffies sec) now

  unfoldable pub thread_usleep : (usec now : ℕ) → Cmd State (Unit {0})
  thread_usleep usec now = sleep_jiffies (usec_to_jiffies usec) now

  -- `timer_destroy`, of a timer whose handler does not run: `none` if it does, where the code
  -- yields until it is done.
  unfoldable pub timer_destroy : ℕ → Cmd State (Unit {0})
  timer_destroy timer s =
      if (s.timers timer).running
      then none
      else (do
        pending ← on_links (link_connected timer)
        if pending then on_links (list_remove timer) else pure tt)
          s

  -- What is left of the time when the thread runs again, `remains`, and the timer's end
  unfoldable pub wake_up : Cmd State ℕ
  unfolding timer_destroy
  wake_up s =
      let timer = timer_of s.current in
      (timer_destroy timer >> pure (sub32 (s.timers timer).expires s.jiffies)) s

  -- `thread_sleep` and `thread_usleep`, when the thread runs again: their results
  unfoldable pub sleep_result : Cmd State ℕ
  unfolding wake_up
  sleep_result = do remains ← wake_up; pure (jiffies_to_sec remains)

  unfoldable pub usleep_result : Cmd State ℕ
  unfolding wake_up
  usleep_result = do remains ← wake_up; pure (jiffies_to_usec remains)

-- The search for an expired timer, of `timers_run` and `timer_thread_func`: from `link` on, up to
-- the head of the list. `none`: the fuel is spent or a link is NULL.
unfoldable pub find_expired : (fuel : ℕ) → State → (list link : ℕ) → Option (Option ℕ)
find_expired zero s list link = none
find_expired (suc fuel) s list link =
    let rest = find_expired fuel s list (s.links.next link) in
    if link == list
    then some none
    else if link == null
    then none
    else if ltb (s.timers link).expires s.jiffies
    then some (some link)
    else rest

module _ (at : Places) where
  -- `timers_run`; `timer_thread` is the thread that runs the handlers.
  unfoldable pub timers_run : (fuel timer_thread : ℕ) → Cmd State (Unit {0})
  unfolding find_expired thread_wakeup
  timers_run fuel timer_thread s = elim (find_expired fuel s at.timers (s.links.next at.timers)) [
    | none ↦ none
    | some none ↦ some (tt, s)
    | some (some _) ↦ thread_wakeup at timer_thread s
  ]

  -- One pass of `timer_thread_func`: the first expired timer is taken from the list, and its
  -- handler wakes up the thread. The result tells whether there was one.
  unfoldable pub run_expired : (fuel : ℕ) → Cmd State Bool
  unfolding find_expired thread_wakeup
  run_expired fuel s =
      let set_running : ℕ → Bool → Cmd State ℕ = λ timer busy u. some (
        (u.timers timer).data_thread,
        record u { timers = set_timer u.timers timer (record (u.timers timer) { running = busy }) },
      ) in
      elim (find_expired fuel s at.timers (s.links.next at.timers)) [
        | none ↦ none
        | some none ↦ some (false, s)
        | some (some timer) ↦
            (do
              on_links (list_remove timer)
              thread ← set_running timer true
              thread_wakeup at thread
              _ ← set_running timer false
              pure true)
              s
      ]

  -- `sched_timer`: the running thread is replaced once it has run for `quantum` ticks. `now` and
  -- `later` are what `timer_get` reads here and in `schedule`; the next request of the hardware timer
  -- is not part of the state.
  abbrev pub quantum : ℕ
  quantum = 4000

  unfoldable pub sched_timer : (fuel timer_thread now later : ℕ) → Cmd State (Unit {0})
  unfolding timers_run schedule
  sched_timer fuel timer_thread now later s =
      (do
        timers_run fuel timer_thread
        λ u.
            if leb quantum (sub32 now (u.threads u.current).scheduled)
            then schedule at later u
            else some (tt, u))
        (record s { jiffies = add32 s.jiffies 1 })
