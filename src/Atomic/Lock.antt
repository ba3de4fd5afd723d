-- ===== src/Atomic/Lock.antt =====
-- kernel/adt/atomic.h: `atomic_test_and_set` as a lock.
use osy.Common.{ℕ, Bool, List, [], ◌∷◌, ◌++◌, ◌≡◌, ◌≢◌, refl, sym, ap, ◌∙◌, arith}
use osy.Atomic.{Operation, finished, run, initial, atomic_test_and_set}
use osy.Atomic.Order.{apply, after, Took, run_lem}

-- All processors try to take the same lock.
abbrev pub takers : ℕ → Operation
takers i = atomic_test_and_set

taken_once : (log : List ℕ) (i : ℕ) → after takers 0 (i ∷ log) ≡ 1
unfolding atomic_test_and_set
taken_once [] i = refl
taken_once (k ∷ log) i = ap (apply atomic_test_and_set) (taken_once log k)

earliest : ℕ → List ℕ → ℕ
earliest i [] = i
earliest i (k ∷ log) = earliest k log

earliest-snoc : (i k : ℕ) (log : List ℕ) → earliest k (log ++ i ∷ []) ≡ i
unfolding earliest
earliest-snoc i k [] = refl
earliest-snoc i k (l ∷ log) = earliest-snoc i l log

-- Only the first operation finds the lock free.
Took-earliest : (log : List ℕ) (i k : ℕ) → Took takers 0 log i 0 → earliest k log ≡ i
Took-earliest log i k (newer, older, split, free) = go newer older split free
  where
    go :
        (newer older : List ℕ)
        → log ≡ newer ++ i ∷ older
        → 0 ≡ after takers 0 older
        → earliest k log ≡ i
    go newer [] split free = ap (earliest k) split ∙ earliest-snoc i k newer
    go newer (x ∷ older) split free =
        let held = taken_once older x in absurd (omega (arith, held, free))

-- When processors do atomic_test_and_set on a word that is zero, interleaved in any way, and one of
-- them has read zero, then no other one has.
pub atomic_test_and_set-once :
    (steps : List (ℕ × Bool)) (i j : ℕ)
    → i ≢ j
    → (run takers steps (initial 0)).pc i ≡ finished 0
    → (run takers steps (initial 0)).pc j ≢ finished 0
atomic_test_and_set-once steps i j apart e f =
    let t = run_lem takers 0 steps in
    let log : List ℕ = (run takers steps (initial 0)).log in
    apart (sym (Took-earliest log i 0 (t.3 i 0 e)) ∙ Took-earliest log j 0 (t.3 j 0 f))
