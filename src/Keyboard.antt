-- ===== src/Keyboard.antt =====
-- kernel/drivers/kbd.c: the ring of keys, written by the interrupt and read by threads. The
-- queue of waiting threads (adt/plist.h, which has no source) is a parameter, and the places where
-- the code leaves out sleeping and waking do nothing here either. A `char` is its 8 bits, an `int`
-- its 32 bits.
pub mod Fifo
mod Tests
use osy.Common.{ℕ, ◌+◌, ◌-◌, ◌%◌, ◌^◌, Bool, not, ltb, ◌==◌, if◌then◌else◌}

pub record WaitQueue : Type 1 where
  pub Queue : Type 0
  pub plist_empty : Queue → Bool
  pub plist_pop : Queue → ℕ × Queue

abbrev pub buffer_size : ℕ
buffer_size = 128

pub record State (Q : Type 0) : Type 0 where
  pub head : ℕ
  pub tail : ℕ
  pub buffer : ℕ → ℕ
  pub waiting : Q

-- EAGAIN, which is -11
abbrev pub eagain : ℕ
eagain = 2 ^ 32 - 11

-- A `char` as an `int`: it is signed.
unfoldable pub int_of_char : ℕ → ℕ
int_of_char c = if ltb c 128 then c else c + (2 ^ 32 - 256)

abbrev pub store_key : (ℕ → ℕ) → ℕ → ℕ → ℕ → ℕ
store_key b i key j = if j == i then key else b j

module _ (𝓠 : WaitQueue) where
  open 𝓠 use {Queue, plist_empty, plist_pop}

  -- The first waiter leaves the queue.
  pop_waiter : State Queue → State Queue
  pop_waiter s =
      if not (plist_empty s.waiting) then record s { waiting = (plist_pop s.waiting).1 } else s

  -- The code has no driver for the device yet: every key is 0.
  unfoldable pub kbd_handle : State Queue → State Queue
  unfolding pop_waiter
  kbd_handle s =
      let key : ℕ = 0 in
      let head_next = (s.head + 1) % buffer_size in
      if head_next == s.tail
      then s
      else pop_waiter (record s { buffer = store_key s.buffer s.head key; head = head_next })

  unfoldable pub getc : State Queue → ℕ × State Queue
  getc s = (int_of_char (s.buffer s.tail), record s { tail = (s.tail + 1) % buffer_size })

  unfoldable pub getc_try : State Queue → ℕ × State Queue
  unfolding getc
  getc_try s = if not (s.head == s.tail) then getc s else (eagain, s)
