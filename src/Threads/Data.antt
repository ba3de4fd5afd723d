-- ===== src/Threads/Data.antt =====
-- kernel/proc/thread.c: what the calls leave of a thread's data, its value and who joins it.
use osy.Common.{
  ℕ, not, ◌&&◌, Option, none, some, ◌==◌, ◌≡◌, refl, ap, ◌∙◌, Ensures, Ensures-bind, Ensures-mono,
  Bool-cases, eq-of_==, inl, inr,
}
use osy.LinkList.{Links, null, list_append, list_rotate}
use osy.Threads.{
  State, Thread, Places, ready, running, is_running, with_links, set_thread, schedule, switch_to,
  thread_switch, thread_wakeup, is_sleeping, is_zombie, true, set_state, sched_insert,
}

-- Every thread has the same value and the same joiner in both states.
abbrev pub SameData : State → State → Type 0
SameData s t =
    (u : ℕ)
    → ((t.threads u).joiner ≡ (s.threads u).joiner) × ((t.threads u).retval ≡ (s.threads u).retval)

-- A zombie stays one, with its value.
abbrev pub Dead : State → State → Type 0
Dead s t =
    (u : ℕ)
    → is_zombie (s.threads u).state ≡ true
    → ((t.threads u).state ≡ (s.threads u).state) × ((t.threads u).retval ≡ (s.threads u).retval)

pub Dead-trans : (s t v : State) → Dead s t → Dead t v → Dead s v
Dead-trans s t v f g u h =
    let one = f u h in let two = g u (ap is_zombie (one.0) ∙ h) in (two.0 ∙ one.0, two.1 ∙ one.1)

pub with_links-data :
    {A : Type 0} (s : State) (o : Option (A × Links))
    → Ensures (λ _ t. (t.threads ≡ s.threads) × (t.current ≡ s.current)) (with_links s o)
with_links-data s none = tt
with_links-data s (some (a, links)) = (refl, refl)

pub set_thread-joiner :
    (f : ℕ → Thread) (k : ℕ) (v : Thread) (u : ℕ)
    → v.joiner ≡ (f k).joiner
    → v.retval ≡ (f k).retval
    → ((set_thread f k v u).joiner ≡ (f u).joiner) × ((set_thread f k v u).retval ≡ (f u).retval)
set_thread-joiner f k v u h g = elim (Bool-cases (u == k)) [
  | inl e ↦ let same = eq-of_== u k e in rw (e, same) (h, g)
  | inr e ↦ rw e (refl, refl)
]

thread_switch-data : (s : State) (k : ℕ) → Ensures (λ _ t. SameData s t) (thread_switch k s)
unfolding thread_switch
thread_switch-data s k u =
    let stop : Thread = record (s.threads s.current) { state = ready } in
    elim (Bool-cases (not (s.current == null) && is_running (s.threads s.current).state)) [
      | inl ran ↦ rw ran (
          let mid : ℕ → Thread = set_thread s.threads s.current stop in
          let one = set_thread-joiner s.threads s.current stop u refl refl in
          let two = set_thread-joiner mid k (record (mid k) { state = running }) u refl refl in
          (two.0 ∙ one.0, two.1 ∙ one.1))
      | inr ran ↦
          rw ran
            (set_thread-joiner s.threads k (record (s.threads k) { state = running }) u refl refl)
    ]

switch_to-data :
    (at : Places) (now : ℕ) (o : Option ℕ) (s : State)
    → Ensures (λ _ t. SameData s t) (switch_to at now o s)
unfolding switch_to
switch_to-data at now none s = λ u. (refl, refl)
switch_to-data at now (some k) s =
    let stamped : Thread = record (s.threads k) { scheduled = now } in
    let mid : State = record s { threads = set_thread s.threads k stamped } in
    Ensures-mono (λ _ t. SameData mid t) (λ _ t. SameData s t) (thread_switch k mid)
      (thread_switch-data mid k)
      λ _ t h u.
        let one = set_thread-joiner s.threads k stamped u refl refl in
        ((h u).0 ∙ one.0, (h u).1 ∙ one.1)

-- `schedule` changes no thread's value and no thread's joiner.
pub schedule-data :
    (at : Places) (now : ℕ) (s : State) → Ensures (λ _ t. SameData s t) (schedule at now s)
unfolding schedule
schedule-data at now s =
    Ensures-bind (λ _ t. (t.threads ≡ s.threads) × (t.current ≡ s.current)) (λ _ t. SameData s t)
      (with_links s (list_rotate at.runnable s.links)) _
      (with_links-data s (list_rotate at.runnable s.links))
      λ out t h.
        Ensures-mono (λ _ v. SameData t v) (λ _ v. SameData s v) (switch_to at now out t)
          (switch_to-data at now out t)
          λ _ v g u.
            ((g u).0 ∙ ap (λ f. (f u).joiner) (h.0), (g u).1 ∙ ap (λ f. (f u).retval) (h.0))

-- `thread_wakeup` changes no thread's value and no thread's joiner.
pub thread_wakeup-data :
    (at : Places) (k : ℕ) (s : State) → Ensures (λ _ t. SameData s t) (thread_wakeup at k s)
unfolding thread_wakeup set_state sched_insert
thread_wakeup-data at k s =
    let awake : Thread = record (s.threads k) { state = ready } in
    let mid : State = record s { threads = set_thread s.threads k awake } in
    elim (Bool-cases (is_sleeping (s.threads k).state)) [
      | inl e ↦ rw e (
          Ensures-mono (λ _ t. (t.threads ≡ mid.threads) × (t.current ≡ mid.current))
            (λ _ t. SameData s t) (with_links mid (list_append at.runnable k s.links))
            (with_links-data mid (list_append at.runnable k s.links))
            λ _ t h u.
              let one = set_thread-joiner s.threads k awake u refl refl in
              (ap (λ f. (f u).joiner) (h.0) ∙ one.0, ap (λ f. (f u).retval) (h.0) ∙ one.1))
      | inr e ↦ rw e λ u. (refl, refl)
    ]
