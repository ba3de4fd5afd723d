-- ===== src/Threads/Tests.antt =====
-- Runs of the scheduler with two runnable threads, at 20 and 30, and one that sleeps, at 40.
use osy.Common.{
  true, none, List, sym, subst, ◌≤◌, Bool-cases, inl, inr, ℕ, ◌+◌, ◌≡◌, refl, false, some, [], ◌∷◌,
  ◌==◌, if◌then◌else◌, Returns, arith,
}
use osy.LinkList.{list_rotate, list_empty, list_pop, list_remove, list_append}
use osy.LinkList.Ring.{IsList, has}
use osy.Threads.{
  State, Thread, Places, ready, running, sleeping, schedule, thread_suspend, thread_finish,
  join_result, zombie, find_expired,
}
use osy.Threads.Switch.{Switched, with_state, thread_suspend_lem}
use osy.Threads.Queue.{IsQueue}
use osy.Threads.Turns.{place, Moved}
use osy.Threads.Calls.{yield, finish, exec, exec_lem}
use osy.Threads.Reach.{
  Reach, Waits, Listed, rotations, Reach-Listed, thread_finish-join_result, Waits-place,
  rotations_lem,
}
use osy.Threads.Expiry.{first_expired, find_expired_lem}

abbrev places : Places
places = record { runnable = 10; timers = 11; timer_of = λ t. t + 44 }

abbrev thread : Thread
thread = record {
  state = ready;
  retval = 0;
  scheduled = 0;
  joiner = 0;
  process = 0;
  uthread = 0;
  stack_size = 0;
  stack_data = 0;
  entry_func = 0;
  entry_data = 0;
  stack_top = 0;
  vmm = 8;
}

abbrev start : State
start = record {
  links = record {
    next = λ a.
        if a == 10
        then 20
        else if a == 20
        then 30
        else if a == 30
        then 10
        else if a == 11
        then 64
        else if a == 64
        then 11
        else 0;
    prev = λ a.
        if a == 10
        then 30
        else if a == 20
        then 10
        else if a == 30
        then 20
        else if a == 11
        then 64
        else if a == 64
        then 11
        else 0;
  };
  threads = λ t.
      if t == 20
      then record thread { state = running }
      else if t == 40
      then record thread { state = sleeping }
      else thread;
  timers = λ t. record { timeout = 5; expires = 5; running = false; data_thread = 40 };
  current = 20;
  jiffies = 6;
}

start-IsList : IsList start.links 10 (20 ∷ 30 ∷ [])
start-IsList = record {
  chain = (refl, refl, (refl, refl, (refl, refl)));
  fresh = refl;
  distinct = (refl, (refl, tt));
  nonnull = omega arith;
  items = (omega arith, (omega arith, tt));
}

start-timers : IsList start.links 11 (64 ∷ [])
start-timers = record {
  chain = (refl, refl, (refl, refl));
  fresh = refl;
  distinct = (refl, tt);
  nonnull = omega arith;
  items = (omega arith, tt);
}

thread_suspend_lem_example :
    Returns
      (λ _ t.
        ((t.threads 20).state ≡ sleeping)
        × Switched places (with_state start 20 sleeping) 30 (30 ∷ []) t)
      (thread_suspend places 100 start)
thread_suspend_lem_example =
    thread_suspend_lem places start 100 30 [] (30 ∷ []) [] start-IsList refl

find_expired_lem_example : find_expired 2 start 11 64 ≡ some (first_expired start (64 ∷ []))
find_expired_lem_example = find_expired_lem 2 start 11 (64 ∷ []) start-timers (omega arith)

abbrev threads_known : List ℕ
threads_known = 20 ∷ 30 ∷ 40 ∷ []

-- The thread at 30 is the idle one.
start-IsQueue : IsQueue places 30 threads_known start (20 ∷ 30 ∷ [])
start-IsQueue = record {
  list = start-IsList;
  idle_in = refl;
  known_in = λ u e. ground arith;
  listed = λ u e. elim (Bool-cases (u == 20)) [
    | inl f ↦ rw f refl
    | inr f ↦ let g : (u == 40) ≡ false = ground (arith, e, f) in rw (f, g) refl
  ];
  absent = λ u e f.
      let g : (u == 40) ≡ true = ground (arith, e, f) in
      let h : (u == 20) ≡ false = ground (arith, f) in rw (g, h) refl;
  joiners = λ u e.
      let none_joins : (start.threads u).joiner ≡ 0 = elim (Bool-cases (u == 20)) [
        | inl f ↦ rw f refl
        | inr f ↦ elim (Bool-cases (u == 40)) [ inl g ↦ rw (f, g) refl | inr g ↦ rw (f, g) refl ]
      ] in
      subst (λ a. has a (0 ∷ threads_known) ≡ true) (sym none_joins) refl;
  current_in = refl;
  outside = (refl, refl);
}

exec_lem_example :
    Returns
      (λ _ t. Moved places 30 threads_known 1 (20 ∷ 30 ∷ []) start t)
      (exec places (finish 7 100) start)
exec_lem_example =
    exec_lem places 30 threads_known (finish 7 100) start (20 ∷ 30 ∷ []) start-IsQueue refl
      (omega arith)

-- The first thread runs for another turn, while the second one waits.
yielded : State
unfolding exec
yielded = elim (exec places (yield 100) start) [ none ↦ start | some (_, t) ↦ t ]

start-yielded : exec places (yield 100) start ≡ some (tt, yielded)
unfolding exec yielded schedule list_rotate list_empty list_pop list_remove list_append
start-yielded = refl

yielded-current : yielded.current ≡ 20
unfolding exec yielded schedule list_rotate list_empty list_pop list_remove list_append
yielded-current = refl

Reach-Listed_example :
    (rs' : List ℕ) × IsList yielded.links 10 rs'
    × ((u : ℕ) → has u threads_known ≡ true → Listed places 30 threads_known yielded rs' u)
Reach-Listed_example =
    Reach-Listed places 30 threads_known start yielded (20 ∷ 30 ∷ []) start-IsQueue refl
      (Reach.call (yield 100) Reach.start tt start-yielded)

Waits-place_example : 1 ≤ place 30 (20 ∷ 30 ∷ [])
Waits-place_example =
    Waits-place places 30 threads_known 30 start 1 (20 ∷ 30 ∷ []) start-IsQueue refl refl
      (omega arith)
      (Waits.call start yielded 0 (yield 100) tt start-yielded (omega (arith, yielded-current))
        (Waits.done yielded))

rotations_lem_example : Returns (λ _ t. t.current ≡ 30) (rotations places (100 ∷ 200 ∷ []) start)
rotations_lem_example =
    rotations_lem places 30 threads_known 30 start (20 ∷ 30 ∷ []) (100 ∷ 200 ∷ []) start-IsQueue
      refl refl

-- The first thread finishes with the value 7, and the second one runs for two turns.
finished : State
unfolding thread_finish
finished = elim (thread_finish places 7 100 start) [ none ↦ start | some (_, t) ↦ t ]

start-finished : thread_finish places 7 100 start ≡ some (tt, finished)
unfolding finished thread_finish list_rotate list_empty list_pop list_remove list_append
start-finished = refl

much_later : State
unfolding exec
much_later = elim (exec places (yield 200) finished) [ none ↦ start | some (_, t) ↦ t ]

finished-later : exec places (yield 200) finished ≡ some (tt, much_later)
unfolding exec finished thread_finish much_later schedule list_rotate list_empty list_pop
    list_remove list_append
finished-later = refl

thread_finish-join_result_example :
    ((much_later.threads 20).state ≡ zombie)
    × (join_result places 20 much_later ≡ some (7, much_later))
thread_finish-join_result_example =
    thread_finish-join_result places 30 threads_known start finished much_later (20 ∷ 30 ∷ []) 7 100
      start-IsQueue refl (omega arith) start-finished
      (Reach.call (yield 200) Reach.start tt finished-later)
