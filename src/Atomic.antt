-- ===== src/Atomic.antt =====
-- kernel/adt/atomic.h: operations on a word that several processors share. Each operation is a loop
-- around the instructions `ll` and `sc`: `sc` stores only if nobody has stored since `ll`, and may
-- also fail for no reason; these two are what the processor's manual says of them.
pub mod Order
pub mod Lock
mod Tests
use osy.Common.{
  ℕ, Bool, true, false, not, ◌&&◌, Option, none, some, ◌==◌, if◌then◌else◌, List, [], ◌∷◌,
}
use osy.Common.Word.{add32, sub32}

-- What an operation stores where it has read a value, if it stores at all, and what it returns
pub record Operation : Type 0 where
  pub store : ℕ → Option ℕ
  pub result : ℕ → ℕ

unfoldable pub atomic_get : Operation
atomic_get = record { store = λ orig. none; result = λ orig. orig }

unfoldable pub atomic_test_and_set : Operation
atomic_test_and_set = record {
  store = λ orig. if not (orig == 0) then none else some 1;
  result = λ orig. orig;
}

unfoldable pub atomic_add : (num : ℕ) → Operation
atomic_add num = record { store = λ orig. some (add32 orig num); result = λ orig. add32 orig num }

unfoldable pub atomic_post_add : (num : ℕ) → Operation
atomic_post_add num = record { store = λ orig. some (add32 orig num); result = λ orig. orig }

unfoldable pub atomic_sub : (num : ℕ) → Operation
atomic_sub num = record { store = λ orig. some (sub32 orig num); result = λ orig. sub32 orig num }

-- Where a processor stands in its loop: in front of `ll`, between `ll` and `sc` with the value read
-- and whether nobody has stored since, or behind the loop with the value read last
pub data Pc : Type 0 where
  start : Pc
  loaded : (orig : ℕ) (linked : Bool) → Pc
  finished : (orig : ℕ) → Pc

-- The word, all processors, and the processors behind their loops, the latest first
pub record System : Type 0 where
  pub value : ℕ
  pub pc : ℕ → Pc
  pub log : List ℕ

-- A store ends what the other processors' `ll` has begun.
abbrev pub unlink : Pc → Pc
unlink start = start
unlink (loaded orig linked) = loaded orig false
unlink (finished orig) = finished orig

abbrev pub set_pc : (ℕ → Pc) → ℕ → Pc → ℕ → Pc
set_pc f i p j = if j == i then p else f j

-- `ll` by a processor, and the end of the loop if the operation does not store
load : (i : ℕ) (store : Option ℕ) → System → System
load i none s = record s { pc = set_pc s.pc i (finished s.value); log = i ∷ s.log }
load i (some new) s = record s { pc = set_pc s.pc i (loaded s.value true) }

-- `sc` by a processor
save : (i orig : ℕ) (linked : Bool) (store : Option ℕ) → System → System
save i orig true (some new) s = record s {
  value = new;
  pc = set_pc (λ j. unlink (s.pc j)) i (finished orig);
  log = i ∷ s.log;
}
save i orig linked store s = record s { pc = set_pc s.pc i start }

module _ (ops : ℕ → Operation) where
  advance : (i : ℕ) (fails : Bool) → Pc → System → System
  unfolding load save
  advance i fails start s = load i ((ops i).store s.value) s
  advance i fails (loaded orig linked) s = save i orig (linked && not fails) ((ops i).store orig) s
  advance i fails (finished orig) s = s

  -- The next step of a processor's loop; `fails` when `sc` fails for no reason
  unfoldable pub step : (i : ℕ) (fails : Bool) → System → System
  unfolding advance
  step i fails s = advance i fails (s.pc i) s

  -- Steps of the processors, interleaved in the order of the list
  unfoldable pub run : List (ℕ × Bool) → System → System
  unfolding step
  run [] s = s
  run ((i, fails) ∷ rest) s = run rest (step i fails s)

-- All processors in front of their loops
abbrev pub initial : ℕ → System
initial value = record { value = value; pc = λ i. start; log = [] }
