-- ===== src/Atomic/Tests.antt =====
-- Two processors add to the same word at the same time, and two try to take the same lock.
use osy.Common.{◌≢◌, arith, ℕ, Bool, false, ◌==◌, if◌then◌else◌, List, [], ◌∷◌, ◌≡◌, refl}
use osy.Common.Word.{add32}
use osy.LinkList.Ring.{has, Distinct}
use osy.Atomic.{Operation, finished, run, initial, atomic_add, atomic_post_add, atomic_test_and_set}
use osy.Atomic.Order.{after, Took, is_finished, run_lem}
use osy.Atomic.Lock.{takers, atomic_test_and_set-once}

abbrev adders : ℕ → Operation
adders i = if i == 0 then atomic_add 5 else atomic_post_add 7

-- Both read; the second one stores, so that the first one has to read again.
abbrev clash : List (ℕ × Bool)
clash = (0, false) ∷ (1, false) ∷ (1, false) ∷ (0, false) ∷ (0, false) ∷ (0, false) ∷ []

run_lem_example :
    ((run adders clash (initial 100)).value ≡ after adders 100 (run adders clash (initial 100)).log)
    × Distinct (run adders clash (initial 100)).log
    × ((i : ℕ)
        → has i (run adders clash (initial 100)).log
          ≡ is_finished ((run adders clash (initial 100)).pc i))
    × ((i orig : ℕ)
        → (run adders clash (initial 100)).pc i ≡ finished orig
        → Took adders 100 (run adders clash (initial 100)).log i orig)
run_lem_example = run_lem adders 100 clash

clash_value : (run adders clash (initial 100)).value ≡ 112
unfolding run atomic_add atomic_post_add add32
clash_value = refl

clash_first : (run takers clash (initial 0)).pc 1 ≡ finished 0
unfolding run atomic_test_and_set
clash_first = refl

atomic_test_and_set-once_example : (run takers clash (initial 0)).pc 0 ≢ finished 0
atomic_test_and_set-once_example = atomic_test_and_set-once clash 1 0 (omega arith) clash_first
