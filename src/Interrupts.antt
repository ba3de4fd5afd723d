-- ===== src/Interrupts.antt =====
-- kernel/exc/int.c: the handling of interrupt requests, over the keyboard and the scheduler. The
-- counter of the timer comes from the device; the search through the timers takes its fuel as an
-- argument.
pub mod Served
mod Tests
use osy.Common.{ℕ, ◌/◌, ◌%◌, Bool, not, Option, none, some, ◌==◌, if◌then◌else◌, Cmd, ◌>>◌}
use osy.Keyboard
use osy.Keyboard.{WaitQueue, kbd_handle}
use osy.Threads
use osy.Threads.{Places, sched_timer}

pub record Machine (Q : Type 0) : Type 0 where
  pub keyboard : Keyboard.State Q
  pub sched : Threads.State

abbrev pub cause_ip4 : ℕ
cause_ip4 = 0x1000

abbrev pub cause_ip7 : ℕ
cause_ip7 = 0x8000

-- `cause & mask`, of a mask with one bit
abbrev pub requested : (cause mask : ℕ) → Bool
requested cause mask = not ((cause / mask) % 2 == 0)

abbrev pub lift :
    {Q : Type 0} → Machine Q → Option (Unit {0} × Threads.State) → Option (Unit {0} × Machine Q)
lift m none = none
lift m (some (a, sched)) = some (a, record m { sched = sched })

module _ (𝓠 : WaitQueue) (at : Places) where
  open 𝓠 use {Queue}

  unfoldable pub serve_keyboard : (cause : ℕ) → Cmd (Machine Queue) (Unit {0})
  serve_keyboard cause m =
      if requested cause cause_ip4
      then some (tt, record m { keyboard = kbd_handle 𝓠 m.keyboard })
      else some (tt, m)

  unfoldable pub serve_timer :
      (cause fuel timer_thread now later : ℕ) → Cmd (Machine Queue) (Unit {0})
  serve_timer cause fuel timer_thread now later m =
      if requested cause cause_ip7
      then lift m (sched_timer at fuel timer_thread now later m.sched)
      else some (tt, m)

  unfoldable pub interrupt :
      (cause fuel timer_thread now later : ℕ) → Cmd (Machine Queue) (Unit {0})
  interrupt cause fuel timer_thread now later = do
    serve_keyboard cause
    serve_timer cause fuel timer_thread now later
