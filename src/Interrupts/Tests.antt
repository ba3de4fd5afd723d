-- ===== src/Interrupts/Tests.antt =====
-- A key and the timer request an interrupt at the same time.
use osy.Common.{ℕ, ◌+◌, true, false, ◌==◌, if◌then◌else◌}
use osy.Keyboard.{WaitQueue}
use osy.Threads
use osy.Threads.{Thread, Places, ready, running}
use osy.Interrupts.{Machine}

abbrev no_waiters : WaitQueue
no_waiters = record { Queue = Unit; plist_empty = λ q. true; plist_pop = λ q. (0, q) }

abbrev places : Places
places = record { runnable = 10; timers = 11; timer_of = λ t. t + 44 }

abbrev thread : Thread
thread = record {
  state = ready;
  retval = 0;
  scheduled = 0;
  joiner = 0;
  process = 0;
  uthread = 0;
  stack_size = 0;
  stack_data = 0;
  entry_func = 0;
  entry_data = 0;
  stack_top = 0;
  vmm = 8;
}

abbrev threads : ℕ → Thread
threads t = if t == 20 then record thread { state = running } else thread

-- Two threads, and no timers
abbrev sched : Threads.State
sched = record {
  links = record {
    next = λ a.
        if a == 10
        then 20
        else if a == 20
        then 30
        else if a == 30
        then 10
        else if a == 11
        then 11
        else 0;
    prev = λ a.
        if a == 10
        then 30
        else if a == 20
        then 10
        else if a == 30
        then 20
        else if a == 11
        then 11
        else 0;
  };
  threads = threads;
  timers = λ t. record { timeout = 5; expires = 5; running = false; data_thread = 20 };
  current = 20;
  jiffies = 6;
}

abbrev machine : Machine Unit
machine = record {
  keyboard = record { head = 127; tail = 126; buffer = λ i. i; waiting = tt };
  sched = sched;
}
