-- ===== src/Interrupts/Served.antt =====
-- kernel/exc/int.c: what an interrupt does to the keys and to the runnable threads.
use osy.Common.{ℕ, if◌then◌else◌, List}
use osy.Keyboard.Fifo.{push}
use osy.Threads
use osy.Interrupts.{cause_ip4, requested}

-- The keys that wait after an interrupt
abbrev pub keys_after : (cause : ℕ) → List ℕ → List ℕ
keys_after cause keys = if requested cause cause_ip4 then push 0 keys else keys
