-- ===== src/Threads/Calls.antt =====
-- kernel/proc/thread.c and kernel/sched/sched.c: the calls that the running thread and the interrupts
-- make, in any order, and what holds throughout.
use osy.Common.{
  ℕ, true, Option, none, some, leb, List, ◌≡◌, ◌≢◌, refl, ◌∙◌, Cmd, pure, ◌>>◌, Returns,
  Returns-mono, Returns-bind, Bool-cases, inl, inr, arith,
}
use osy.Common.Word.{add32, sub32}
use osy.LinkList.Ring.{has}
use osy.Threads.{
  State, Places, schedule, thread_suspend, thread_wakeup, thread_finish, thread_join, find_expired,
  timers_run, sched_timer, quantum,
}
use osy.Threads.Queue.{IsQueue}
use osy.Threads.Turns.{Moved, Moved-weaken, Moved-shorten, still, schedule_turn, thread_wakeup_turn}
use osy.Threads.Stops.{Finished, thread_suspend_turn, thread_finish_turn, thread_join_turn}

-- `thread_yield`, `thread_suspend`, `thread_finish`, `thread_join` and `thread_wakeup` by the running
-- thread, and the scheduler's interrupt `tick`.
pub data Call : Type 0 where
  yield suspend : (now : ℕ) → Call
  finish : (retval now : ℕ) → Call
  join : (thread now : ℕ) → Call
  wake : (thread : ℕ) → Call
  tick : (fuel timer_thread now later : ℕ) → Call

unfoldable pub exec : Places → Call → Cmd State (Unit {0})
exec at (yield now) = schedule at now
exec at (suspend now) = thread_suspend at now
exec at (finish retval now) = thread_finish at retval now
exec at (join thread now) = thread_join at thread now >> pure tt
exec at (wake thread) = thread_wakeup at thread
exec at (tick fuel timer_thread now later) = sched_timer at fuel timer_thread now later

-- The idle thread only yields; threads that are named are known; the search for an expired timer
-- comes to its end.
abbrev pub Allowed : Places → (idle : ℕ) → (known : List ℕ) → Call → State → Type 0
Allowed at idle known (yield now) s = Unit
Allowed at idle known (suspend now) s = s.current ≢ idle
Allowed at idle known (finish retval now) s = s.current ≢ idle
Allowed at idle known (join thread now) s = (s.current ≢ idle) × (has thread known ≡ true)
Allowed at idle known (wake thread) s = has thread known ≡ true
Allowed at idle known (tick fuel timer_thread now later) s =
    (has timer_thread known ≡ true)
    × ((out : Option ℕ) × (find_expired fuel (record s { jiffies = add32 s.jiffies 1 }) at.timers
            (s.links.next at.timers)
          ≡ some out))

-- Whether a call surely ends in another turn.
abbrev pub turns : Call → ℕ
turns (yield now) = 1
turns (suspend now) = 1
turns (finish retval now) = 1
turns _ = 0

-- The clock does not count for the list.
later-IsQueue :
    (at : Places) (idle : ℕ) (known : List ℕ) (s : State) (rs : List ℕ) (jiffies : ℕ)
    → IsQueue at idle known s rs
    → IsQueue at idle known (record s { jiffies = jiffies }) rs
later-IsQueue at idle known s rs jiffies q = record {
  list = q.list;
  idle_in = q.idle_in;
  known_in = q.known_in;
  listed = q.listed;
  absent = q.absent;
  joiners = q.joiners;
  current_in = q.current_in;
  outside = q.outside;
}

module _ (at : Places) (idle : ℕ) (known : List ℕ) where
  timers_run_turn :
      (s : State) (rs : List ℕ) (fuel timer_thread : ℕ) (out : Option ℕ)
      → IsQueue at idle known s rs
      → has s.current rs ≡ true
      → has timer_thread known ≡ true
      → find_expired fuel s at.timers (s.links.next at.timers) ≡ some out
      → Returns
          (λ _ t. Moved at idle known 0 rs s t × (t.current ≡ s.current))
          (timers_run at fuel timer_thread s)
  unfolding timers_run
  timers_run_turn s rs fuel timer_thread none q h k e =
      rw (e, Returns) (still at idle known s rs q h, refl)
  timers_run_turn s rs fuel timer_thread (some timer) q h k e =
      rw (e, Returns) (thread_wakeup_turn at idle known s rs timer_thread q h k)

  sched_timer_turn :
      (s : State) (rs : List ℕ) (fuel timer_thread now later : ℕ)
      → IsQueue at idle known s rs
      → has s.current rs ≡ true
      → Allowed at idle known (tick fuel timer_thread now later) s
      → Returns (λ _ t. Moved at idle known 0 rs s t) (sched_timer at fuel timer_thread now later s)
  unfolding sched_timer
  sched_timer_turn s rs fuel timer_thread now later q h allowed =
      let late : State = record s { jiffies = add32 s.jiffies 1 } in
      Returns-bind (λ _ t. Moved at idle known 0 rs s t × (t.current ≡ s.current))
        (λ _ t. Moved at idle known 0 rs s t) (timers_run at fuel timer_thread late) _
        (timers_run_turn late rs fuel timer_thread (allowed.1.0)
          (later-IsQueue at idle known s rs (add32 s.jiffies 1) q) h (allowed.0) (allowed.1.1))
        λ _ u m. elim (Bool-cases (leb (quantum at) (sub32 now (u.threads u.current).scheduled))) [
          | inr e ↦ rw e (m.0)
          | inl e ↦ rw e (
              Returns-mono (λ _ t. Moved at idle known 1 m.0.0 u t)
                (λ _ t. Moved at idle known 0 rs s t) (schedule at later u)
                (schedule_turn at idle known u (m.0.0) later (m.0.1))
                λ _ t g. Moved-weaken at idle known rs s t (
                  Moved-shorten at idle known 1 rs (m.0.0) s u t (m.0.4) g λ k i other.
                    elim (m.0.3 k i other) [
                      | inl same ↦ absurd (other (same ∙ m.1))
                      | inr f ↦ (f.0, (λ e. other (e ∙ m.1)), omega (arith, f.1))
                    ]))
        ]

  -- Let the list of runnable threads be right, which is that it is well formed, that a known thread
  -- stands in it exactly if it neither sleeps nor is a zombie, that the current thread runs and the
  -- others in it are ready, that the idle thread stands in it and that joiners are known; and let
  -- the current thread stand in it. Then an allowed call to schedule, thread_suspend,
  -- thread_finish, thread_join, thread_wakeup or sched_timer does not fail, the list is right again
  -- with the current thread in it, and schedule, thread_suspend and thread_finish bring each other
  -- thread that was in the list one place ahead or let it run, while the other calls set none back.
  -- Allowed are calls where the idle thread neither suspends itself nor finishes nor joins, where
  -- the threads named are known, and where the search for an expired timer comes to its end.
  pub exec_lem :
      (c : Call) (s : State) (rs : List ℕ)
      → IsQueue at idle known s rs
      → has s.current rs ≡ true
      → Allowed at idle known c s
      → Returns (λ _ t. Moved at idle known (turns c) rs s t) (exec at c s)
  unfolding exec
  exec_lem (yield now) s rs q h allowed = schedule_turn at idle known s rs now q
  exec_lem (suspend now) s rs q h allowed = thread_suspend_turn at idle known s rs now q h allowed
  exec_lem (finish retval now) s rs q h allowed =
      Returns-mono (λ _ t. Finished at idle known 1 rs retval s t)
        (λ _ t. Moved at idle known 1 rs s t) (thread_finish at retval now s)
        (thread_finish_turn at idle known s rs retval now q h allowed) λ _ t m. m.0
  exec_lem (join thread now) s rs q h allowed =
      Returns-bind (λ _ t. Moved at idle known 0 rs s t) (λ _ t. Moved at idle known 0 rs s t)
        (thread_join at thread now s) (λ _. pure tt)
        (thread_join_turn at idle known s rs thread now q h (allowed.0)) λ _ t m. m
  exec_lem (wake thread) s rs q h allowed =
      Returns-mono (λ _ t. Moved at idle known 0 rs s t × (t.current ≡ s.current))
        (λ _ t. Moved at idle known 0 rs s t) (thread_wakeup at thread s)
        (thread_wakeup_turn at idle known s rs thread q h allowed) λ _ t m. m.0
  exec_lem (tick fuel timer_thread now later) s rs q h allowed =
      sched_timer_turn s rs fuel timer_thread now later q h allowed
