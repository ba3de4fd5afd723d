-- ===== src/Threads/Stops.antt =====
-- kernel/proc/thread.c: how a thread that suspends itself, finishes or waits for another one lets the
-- others come forward.
use osy.Common.{
  ℕ, ◌≤◌, true, false, eq-of_==, not, ◌&&◌, none, some, ◌==◌, if◌then◌else◌, List, ◌∷◌, ◌++◌, ◌≡◌,
  ◌≢◌, refl, sym, ap, ◌∙◌, pure, ◌>>◌, Returns, Returns-mono, Returns-bind, ==_self, Bool-cases,
  inl, inr, subst, arith,
}
use osy.LinkList.{null}
use osy.LinkList.Ring.{has}
use osy.Threads.{
  State, Thread, Places, sleeping, zombie, is_sleeping, is_zombie, schedule, thread_suspend,
  thread_wakeup, thread_finish, thread_join, set_state, sched_remove, set_thread,
}
use osy.Threads.Data.{Dead}
use osy.Threads.Queue.{zombie_unlisted, IsQueue, has-middle}
use osy.Threads.Leave.{woken, leave-IsQueue, wakeup-IsQueue, store-IsQueue}
use osy.Threads.Turns.{
  place, place-middle, has-split, Moved, Moved-shorten, Moved-weaken, still, woken-has,
  schedule_turn,
}

module _ (at : Places) (idle : ℕ) (known : List ℕ) where
  -- What is in a list with the current thread is in the list without it, no further behind.
  without :
      (ys : List ℕ) (c : ℕ) (zs : List ℕ) (k : ℕ)
      → has k (ys ++ c ∷ zs) ≡ true
      → k ≢ c
      → (has k (ys ++ zs) ≡ true) × (place k (ys ++ zs) ≤ place k (ys ++ c ∷ zs))
  without ys c zs k h other =
      (ground (arith, h, other, has-middle k ys c zs), place-middle k ys c zs other)

  -- `thread_suspend` of the current thread, at a known place in the list
  suspend_at :
      (s : State) (ys zs : List ℕ) (now : ℕ)
      → IsQueue at idle known s (ys ++ s.current ∷ zs)
      → s.current ≢ idle
      → Returns (λ _ t. Moved at idle known 1 (ys ++ s.current ∷ zs) s t) (thread_suspend at now s)
  unfolding thread_suspend
  suspend_at s ys zs now q busy =
      Returns-bind
        (λ _ u.
          IsQueue at idle known u (ys ++ zs)
          × (u.current ≡ s.current)
          × ((u.threads s.current).state ≡ sleeping)
          × Dead s u)
        (λ _ t. Moved at idle known 1 (ys ++ s.current ∷ zs) s t)
        ((set_state at s.current sleeping >> sched_remove at s.current) s) (λ _. schedule at now)
        (leave-IsQueue at idle known s ys zs q sleeping refl busy)
        λ _ u h.
          Returns-mono (λ _ t. Moved at idle known 1 (ys ++ zs) u t)
            (λ _ t. Moved at idle known 1 (ys ++ s.current ∷ zs) s t) (schedule at now u)
            (schedule_turn at idle known u (ys ++ zs) now (h.0))
            λ _ t m.
              Moved-shorten at idle known 1 (ys ++ s.current ∷ zs) (ys ++ zs) s u t (h.3) m
                λ k i other.
                  let w = without ys s.current zs k i other in (w.0, (λ e. other (e ∙ h.1)), w.1)

  -- `thread_suspend` of a current thread in the list.
  pub thread_suspend_turn :
      (s : State) (rs : List ℕ) (now : ℕ)
      → IsQueue at idle known s rs
      → has s.current rs ≡ true
      → s.current ≢ idle
      → Returns (λ _ t. Moved at idle known 1 rs s t) (thread_suspend at now s)
  thread_suspend_turn s rs now q h busy =
      let (ys, zs, split) = has-split s.current rs h in
      subst (λ l. Returns (λ _ t. Moved at idle known 1 l s t) (thread_suspend at now s))
        (sym split) (suspend_at s ys zs now (subst (λ l. IsQueue at idle known s l) split q) busy)

  -- The end of `thread_finish`: the joiner is woken up, and another thread runs.
  wake_then_switch :
      (s : State) (ws : List ℕ) (joiner now : ℕ)
      → IsQueue at idle known s ws
      → (s.threads s.current).state ≡ zombie
      → has joiner (null ∷ known) ≡ true
      → Returns
          (λ _ t. Moved at idle known 1 ws s t)
          (((if not (joiner == null) then thread_wakeup at joiner else pure tt) >> schedule at now)
            s)
  wake_then_switch s ws joiner now q dead joins = elim (Bool-cases (joiner == null)) [
    | inl e ↦ rw e (schedule_turn at idle known s ws now q)
    | inr e ↦ rw e (
        Returns-bind
          (λ _ u. IsQueue at idle known u (woken s joiner ws) × (u.current ≡ s.current) × Dead s u)
          (λ _ t. Moved at idle known 1 ws s t) (thread_wakeup at joiner s) (λ _. schedule at now)
          (wakeup-IsQueue at idle known s joiner ws q (ground (arith, joins, e)) λ sleeps g.
            ground (
              arith,
              sym sleeps ∙ ap (λ a. is_sleeping (s.threads a).state) g ∙ ap is_sleeping dead,
            ))
          λ _ u h.
            Returns-mono (λ _ t. Moved at idle known 1 (woken s joiner ws) u t)
              (λ _ t. Moved at idle known 1 ws s t) (schedule at now u)
              (schedule_turn at idle known u (woken s joiner ws) now (h.0))
              λ _ t m.
                Moved-shorten at idle known 1 ws (woken s joiner ws) s u t (h.2) m λ k i other.
                  let same = woken-has at idle known s joiner ws k i in
                  (same.0, (λ e. other (e ∙ h.1)), omega (arith, same.1)))
  ]

  -- The state behind `thread_finish`: the thread that was current is a zombie with its value.
  abbrev pub Finished : (n : ℕ) (rs : List ℕ) (retval : ℕ) → State → State → Type 0
  Finished n rs retval s t =
      Moved at idle known n rs s t
      × ((t.threads s.current).state ≡ zombie)
      × ((t.threads s.current).retval ≡ retval)

  -- `thread_finish` of the current thread, at a known place in the list
  finish_at :
      (s : State) (ys zs : List ℕ) (retval now : ℕ)
      → IsQueue at idle known s (ys ++ s.current ∷ zs)
      → s.current ≢ idle
      → Returns
          (λ _ t. Finished 1 (ys ++ s.current ∷ zs) retval s t)
          (thread_finish at retval now s)
  unfolding thread_finish
  finish_at s ys zs retval now q busy =
      Returns-bind
        (λ _ u.
          IsQueue at idle known u (ys ++ zs)
          × (u.current ≡ s.current)
          × ((u.threads s.current).state ≡ zombie)
          × Dead s u)
        (λ _ t. Finished 1 (ys ++ s.current ∷ zs) retval s t)
        ((set_state at s.current zombie >> sched_remove at s.current) s) _
        (leave-IsQueue at idle known s ys zs q zombie refl busy)
        λ _ u h.
          let dead : Thread = record (u.threads s.current) { retval = retval } in
          let v : State = record u { threads = set_thread u.threads s.current dead } in
          let joins : has (u.threads s.current).joiner (null ∷ known) ≡ true =
            h.0.joiners s.current q.current_in in
          let gone : (v.threads v.current).state ≡ zombie =
            let here = h.1 in let self = ==_self s.current in rw (here, self) (h.2) in
          let self = ==_self s.current in
          let stored : (v.threads s.current).retval ≡ retval = rw self refl in
          let zombie_now : (v.threads s.current).state ≡ zombie = rw self (h.2) in
          let stays : Dead s v = λ w z.
            let unlisted = zombie_unlisted at idle known s (ys ++ s.current ∷ zs) q w z in
            let off : (w == s.current) ≡ false =
              ground (arith, has-middle w ys s.current zs, unlisted) in
            rw off (h.3 w z) in
          Returns-mono (λ _ t. Moved at idle known 1 (ys ++ zs) v t)
            (λ _ t. Finished 1 (ys ++ s.current ∷ zs) retval s t) _
            (wake_then_switch v (ys ++ zs) (u.threads s.current).joiner now
              (store-IsQueue at idle known u (ys ++ zs) s.current dead (h.0) refl joins) gone joins)
            λ _ t m.
              let end = m.4 s.current (ap is_zombie zombie_now) in
              (
                Moved-shorten at idle known 1 (ys ++ s.current ∷ zs) (ys ++ zs) s v t stays m
                    λ k i other.
                      let w = without ys s.current zs k i other in
                      (w.0, (λ e. other (e ∙ h.1)), w.1),
                end.0 ∙ zombie_now,
                end.1 ∙ stored,
              )

  -- `thread_finish` of a current thread in the list.
  pub thread_finish_turn :
      (s : State) (rs : List ℕ) (retval now : ℕ)
      → IsQueue at idle known s rs
      → has s.current rs ≡ true
      → s.current ≢ idle
      → Returns (λ _ t. Finished 1 rs retval s t) (thread_finish at retval now s)
  thread_finish_turn s rs retval now q h busy =
      let (ys, zs, split) = has-split s.current rs h in
      subst (λ l. Returns (λ _ t. Finished 1 l retval s t) (thread_finish at retval now s))
        (sym split)
        (finish_at s ys zs retval now (subst (λ l. IsQueue at idle known s l) split q) busy)

  -- `thread_join` of a known thread.
  pub thread_join_turn :
      (s : State) (rs : List ℕ) (thread now : ℕ)
      → IsQueue at idle known s rs
      → has s.current rs ≡ true
      → s.current ≢ idle
      → Returns (λ _ t. Moved at idle known 0 rs s t) (thread_join at thread now s)
  unfolding thread_join
  thread_join_turn s rs thread now q h busy =
      elim (Bool-cases (not (thread == s.current) && ((s.threads thread).joiner == null))) [
        | inr e ↦ rw e (still at idle known s rs q h)
        | inl e ↦ elim (Bool-cases (is_zombie (s.threads thread).state)) [
          | inl z ↦ rw (e, z) (still at idle known s rs q h)
          | inr z ↦
              rw (e, z)
                (let waited : Thread = record (s.threads thread) { joiner = s.current } in
                  let waiting : State = record s { threads = set_thread s.threads thread waited } in
                  let stays : Dead s waiting = λ w _. elim (Bool-cases (w == thread)) [
                    | inl g ↦ let here = eq-of_== w thread g in rw (g, here) (refl, refl)
                    | inr g ↦ rw g (refl, refl)
                  ] in
                  Returns-bind (λ _ t. Moved at idle known 1 rs waiting t)
                    (λ _ t. Moved at idle known 0 rs s t) (thread_suspend at now waiting)
                    (λ _. pure (some none))
                    (thread_suspend_turn waiting rs now
                      (store-IsQueue at idle known s rs thread waited q refl
                        (ground (arith, q.current_in)))
                      h busy)
                    λ _ t m. Moved-weaken at idle known rs s t (
                      Moved-shorten at idle known 1 rs rs s waiting t stays m
                        λ k i o. (i, o, omega arith)))
        ]
      ]
