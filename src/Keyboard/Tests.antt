-- ===== src/Keyboard/Tests.antt =====
-- A ring that is nearly empty, with one waiting thread.
use osy.Common.{ℕ, Bool, true, false, List, [], ◌∷◌, ◌≡◌, refl, arith}
use osy.Keyboard.{WaitQueue, State, int_of_char, kbd_handle, getc_try}
use osy.Keyboard.Fifo.{contents, press, read, queue_outputs, outputs, outputs-queue}

abbrev no_waiters : List ℕ → Bool
no_waiters [] = true
no_waiters _ = false

abbrev first_waiter : List ℕ → ℕ × List ℕ
first_waiter [] = (0, [])
first_waiter (x ∷ xs) = (x, xs)

abbrev waiters : WaitQueue
waiters = record { Queue = List ℕ; plist_empty = no_waiters; plist_pop = first_waiter }

abbrev nearly_empty : State (List ℕ)
nearly_empty = record { head = 0; tail = 127; buffer = λ i. 245; waiting = 20 ∷ [] }

outputs-queue_example :
    outputs waiters (press ∷ read ∷ read ∷ read ∷ []) nearly_empty
    ≡ queue_outputs (press ∷ read ∷ read ∷ read ∷ []) (contents nearly_empty)
outputs-queue_example =
    outputs-queue waiters (press ∷ read ∷ read ∷ read ∷ []) nearly_empty (omega arith, omega arith)

-- A character of value -11 reads like an empty ring.
ring_read :
    outputs waiters (press ∷ read ∷ read ∷ read ∷ []) nearly_empty
    ≡ 0xfffffff5 ∷ 0 ∷ 0xfffffff5 ∷ []
unfolding outputs kbd_handle getc_try int_of_char
ring_read = refl
