-- ===== src/Threads/Reach.antt =====
-- kernel/proc/thread.c and kernel/sched/sched.c: runs of calls in any order.
use osy.Common.{
  ℕ, suc, length, [], ◌∷◌, ◌++◌, Cmd, pure, ◌>>◌, Returns-bind, ◌+◌, ◌≤◌, true, false, some, ◌==◌,
  List, ◌≡◌, ◌≢◌, ◌↔◌, refl, sym, ap, ◌∙◌, Returns, ==_self, Bool-cases, eq-of_==, inl, inr, subst,
  arith,
}
use osy.LinkList.Ring.{IsList, has}
use osy.Threads.{
  State, Places, ready, running, is_running, is_zombie, zombie, thread_finish, join_result,
  schedule,
}
use osy.Threads.Queue.{IsQueue, is_stopped, listed_state, schedule-IsQueue, has-snoc}
use osy.Threads.Turns.{place, place-snoc, Moved}
use osy.Threads.Data.{Dead, Dead-trans, SameData}
use osy.Threads.Stops.{Finished, thread_finish_turn}
use osy.Threads.Calls.{Call, Allowed, exec, turns, exec_lem}

listed-stopped : (t : State) (u : ℕ) → is_stopped (listed_state t u) ≡ false
listed-stopped t u = elim (Bool-cases (u == t.current)) [ inl e ↦ rw e refl | inr e ↦ rw e refl ]

listed-running : (t : State) (u : ℕ) → listed_state t u ≡ running → u ≡ t.current
listed-running t u h = elim (Bool-cases (u == t.current)) [
  | inl e ↦ eq-of_== u t.current e
  | inr e ↦
      let is_ready : listed_state t u ≡ ready = rw e refl in
      ground (arith, ap is_running (sym is_ready ∙ h))
]

length-zero : (xs : List ℕ) → length xs ≡ 0 → xs ≡ []
length-zero [] e = refl
length-zero (x ∷ xs) e = absurd (omega (arith, e))

-- One call of `schedule` at each of the times
unfoldable pub rotations : Places → (nows : List ℕ) → Cmd State (Unit {0})
rotations at [] = pure tt
rotations at (now ∷ nows) = schedule at now >> rotations at nows

module _ (at : Places) (idle : ℕ) (known : List ℕ) where
  -- Any number of calls, from the first state to the last
  pub data Reach (s : State) : State → Type 0 where
    start : Reach s s
    call :
        {t u : State} (c : Call)
        → Reach s t
        → Allowed at idle known c t
        → exec at c t ≡ some (tt, u)
        → Reach s u

  -- Calls in whose states, behind the first, `k` is not current, with the number of turns in them
  pub data Waits (k : ℕ) : State → ℕ → Type 0 where
    done : (s : State) → Waits k s 0
    call :
        (s t : State) (n : ℕ) (c : Call)
        → Allowed at idle known c s
        → exec at c s ≡ some (tt, t)
        → t.current ≢ k
        → Waits k t n
        → Waits k s (turns c + n)

  step_lem :
      (c : Call) (s t : State) (rs : List ℕ)
      → IsQueue at idle known s rs
      → has s.current rs ≡ true
      → Allowed at idle known c s
      → exec at c s ≡ some (tt, t)
      → Moved at idle known (turns c) rs s t
  step_lem c s t rs q h allowed e =
      subst (λ o. Returns (λ _ u. Moved at idle known (turns c) rs s u) o) e
        (exec_lem at idle known c s rs q h allowed)

  Reach-IsQueue :
      (s t : State) (rs : List ℕ)
      → IsQueue at idle known s rs
      → has s.current rs ≡ true
      → Reach s t
      → (rs' : List ℕ) × IsQueue at idle known t rs' × (has t.current rs' ≡ true)
  Reach-IsQueue s t rs q h start = (rs, q, h)
  Reach-IsQueue s t rs q h (call {t = u} c r allowed e) =
      let before = Reach-IsQueue s u rs q h r in
      let m = step_lem c u t before.0 before.1 before.2 allowed e in (m.0, m.1, m.2)

  -- What the list says of a known thread
  abbrev pub Listed : State → List ℕ → ℕ → Type 0
  Listed t rs u =
      ((has u rs ≡ true) ↔ (is_stopped (t.threads u).state ≡ false))
      × (((t.threads u).state ≡ running) ↔ (u ≡ t.current))

  IsQueue-Listed :
      (t : State) (rs : List ℕ)
      → IsQueue at idle known t rs
      → has t.current rs ≡ true
      → (u : ℕ) → has u known ≡ true
      → Listed t rs u
  IsQueue-Listed t rs q h u k = (
    (
      λ e. subst (λ x. is_stopped x ≡ false) (sym (q.listed u e)) (listed-stopped t u),
      λ e. elim (Bool-cases (has u rs)) [
        | inl f ↦ f
        | inr f ↦ let stops = q.absent u k f in ground (arith, e, stops)
      ],
    ),
    (
      λ e. elim (Bool-cases (has u rs)) [
        | inl f ↦ listed-running t u (sym (q.listed u f) ∙ e)
        | inr f ↦ let stops = q.absent u k f in ground (arith, stops, ap is_stopped e)
      ],
      λ e. let self = ==_self t.current in rw e (q.listed t.current h ∙ (rw self refl)),
    ),
  )

  -- After any allowed calls in any order, from a state where the list of runnable threads is right
  -- and the current thread stands in it, there is a well-formed list of runnable threads in which
  -- exactly the known threads stand that neither sleep nor are zombies, and of the known threads
  -- exactly the current one is in the state running.
  pub Reach-Listed :
      (s t : State) (rs : List ℕ)
      → IsQueue at idle known s rs
      → has s.current rs ≡ true
      → Reach s t
      → (rs' : List ℕ) × IsList t.links at.runnable rs'
        × ((u : ℕ) → has u known ≡ true → Listed t rs' u)
  Reach-Listed s t rs q h r =
      let after = Reach-IsQueue s t rs q h r in
      (after.0, after.1.list, IsQueue-Listed t after.0 after.1 after.2)

  Reach-Dead :
      (s t : State) (rs : List ℕ)
      → IsQueue at idle known s rs
      → has s.current rs ≡ true
      → Reach s t
      → Dead s t
  Reach-Dead s t rs q h start = λ u z. (refl, refl)
  Reach-Dead s t rs q h (call {t = u} c r allowed e) =
      let before = Reach-IsQueue s u rs q h r in
      let m = step_lem c u t (before.0) (before.1) (before.2) allowed e in
      Dead-trans s u t (Reach-Dead s u rs q h r) (m.4)

  -- Where the list of runnable threads is right and holds the current thread, which is not the idle
  -- one: after its thread_finish with a value and any allowed calls in any order, the thread is a
  -- zombie, and the end of a thread_join on it reads this value.
  pub thread_finish-join_result :
      (s t w : State) (rs : List ℕ) (retval now : ℕ)
      → IsQueue at idle known s rs
      → has s.current rs ≡ true
      → s.current ≢ idle
      → thread_finish at retval now s ≡ some (tt, t)
      → Reach t w
      → ((w.threads s.current).state ≡ zombie) × (join_result at s.current w ≡ some (retval, w))
  unfolding join_result
  thread_finish-join_result s t w rs retval now q h busy e r =
      let f =
        subst (λ o. Returns (λ _ u. Finished at idle known 1 rs retval s u) o) e
          (thread_finish_turn at idle known s rs retval now q h busy) in
      let kept = Reach-Dead t w (f.0.0) (f.0.1) (f.0.2) r s.current (ap is_zombie (f.1)) in
      (kept.0 ∙ f.1, ap (λ v. some (v, w)) (kept.1 ∙ f.2))

  -- Where the list of runnable threads is right and holds the current thread and another one, then,
  -- as long as that one has not become current, any allowed calls contain at most as many calls of
  -- schedule, thread_suspend and thread_finish as threads stand in front of it in the list.
  pub Waits-place :
      (k : ℕ) (s : State) (n : ℕ) (rs : List ℕ)
      → IsQueue at idle known s rs
      → has s.current rs ≡ true
      → has k rs ≡ true
      → k ≢ s.current
      → Waits k s n
      → n ≤ place k rs
  Waits-place k s n rs q h i other (done _) = omega arith
  Waits-place k s n rs q h i other (call s' t m c allowed e apart w) =
      let moved = step_lem c s t rs q h allowed e in
      elim (moved.3 k i other) [
        | inl now ↦ absurd (apart (sym now))
        | inr f ↦
            let rest =
              Waits-place k t m (moved.0) (moved.1) (moved.2) (f.0) (λ x. apart (sym x)) w in
            omega (arith, rest, f.1)
      ]

  -- Where the list of runnable threads is right, calling schedule once more often than threads
  -- stand in front of a thread of the list does not fail, and that thread is current then.
  pub rotations_lem :
      (k : ℕ) (s : State) (rs nows : List ℕ)
      → IsQueue at idle known s rs
      → has k rs ≡ true
      → length nows ≡ suc (place k rs)
      → Returns (λ _ t. t.current ≡ k) (rotations at nows s)
  unfolding rotations
  rotations_lem k s rs [] q i e = absurd (omega (arith, e))
  rotations_lem k s [] (now ∷ nows) q i e = absurd (ground (arith, i))
  rotations_lem k s (x ∷ xs) (now ∷ nows) q i e =
      Returns-bind
        (λ _ t. IsQueue at idle known t (xs ++ x ∷ []) × (t.current ≡ x) × SameData s t × Dead s t)
        (λ _ t. t.current ≡ k) (schedule at now s) (λ _. rotations at nows)
        (schedule-IsQueue at idle known s x xs q now)
        λ _ t m. elim (Bool-cases (k == x)) [
          | inl g ↦
              let first : place k (x ∷ xs) ≡ 0 = rw g refl in
              let last : nows ≡ [] = length-zero nows (omega (arith, e, first)) in
              rw last (m.1 ∙ sym (eq-of_== k x g))
          | inr g ↦
              let behind : has k xs ≡ true = ground (arith, i, g) in
              let ahead : place k (x ∷ xs) ≡ suc (place k xs) = rw g refl in
              let same = place-snoc k xs x behind in
              rotations_lem k t (xs ++ x ∷ []) nows (m.0) (ground (arith, has-snoc k xs x, behind))
                (omega (arith, e, ahead, same))
        ]
