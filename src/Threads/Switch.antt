-- ===== src/Threads/Switch.antt =====
-- kernel/sched/sched.c and kernel/proc/thread.c: who runs after each call.
use osy.Common.{
  ℕ, true, false, not, ◌&&◌, Option, none, some, ◌==◌, if◌then◌else◌, List, [], ◌∷◌, ◌++◌, ◌≡◌, ◌≢◌,
  refl, sym, ap, ◌>>◌, Returns, Returns-bind, Returns-mono, ==_self, ==_false, Bool-cases, eq-of_==,
  inl, inr, ◌∙◌, subst, arith,
}
use osy.LinkList.{Links, null, list_append, list_remove, list_rotate}
use osy.LinkList.Ring.{IsList, has, has-append}
use osy.LinkList.Insert.{append_lem, SameOutside}
use osy.LinkList.Remove.{Distinct-split, rotate-cons, remove_lem, Removed}
use osy.Threads.{
  State, Thread, ThreadState, Places, ready, running, sleeping, is_running, is_sleeping, with_links,
  schedule, thread_switch, thread_suspend, thread_wakeup, switch_to, sched_insert, sched_remove,
  set_state, set_thread,
}

-- What a call on the links returns, and that it leaves the rest of the state as it was.
abbrev pub OnLinks : {A : Type 0} → (A → Links → Type 0) → State → A → State → Type 0
OnLinks P s a t =
    P a t.links
    × (t.threads ≡ s.threads)
    × (t.timers ≡ s.timers)
    × (t.current ≡ s.current)
    × (t.jiffies ≡ s.jiffies)

pub on_links_lem :
    {A : Type 0} (P : A → Links → Type 0) (s : State) (o : Option (A × Links))
    → Returns P o
    → Returns (OnLinks P s) (with_links s o)
on_links_lem P s none h = h
on_links_lem P s (some (a, links)) h = (h, refl, refl, refl, refl)

-- The state of a thread that is not chosen: the one that ran is ready, the others are as before.
abbrev pub kept_state : State → ℕ → ThreadState
kept_state s u =
    if (not (s.current == null) && is_running (s.threads s.current).state) && (u == s.current)
    then ready
    else (s.threads u).state

-- The thread runs; the list of runnable threads is `rs`; the states of the others are `kept`.
abbrev pub Switched : Places → (kept : ℕ → ThreadState) → ℕ → List ℕ → State → Type 0
Switched at kept k rs t =
    (t.current ≡ k)
    × ((t.threads k).state ≡ running)
    × IsList t.links at.runnable rs
    × ((u : ℕ) → u ≢ k → (t.threads u).state ≡ kept u)

-- What becomes of a thread depends on the states and on the current thread only.
kept_state-ext :
    (s s' : State) (u : ℕ)
    → s'.current ≡ s.current
    → ((w : ℕ) → (s'.threads w).state ≡ (s.threads w).state)
    → kept_state s' u ≡ kept_state s u
kept_state-ext s s' u current states = rw (current, states s.current, states u) refl

-- A thread that is switched to runs; the list is not looked at.
thread_switch_lem :
    (at : Places) (s : State) (k : ℕ) (rs : List ℕ)
    → IsList s.links at.runnable rs
    → Returns (λ _ t. Switched at (kept_state s) k rs t) (thread_switch k s)
unfolding thread_switch
thread_switch_lem at s k rs r = (
  refl,
  let self = ==_self k in rw self refl,
  r,
  λ u other.
      let miss = ==_false u k other in
      elim (Bool-cases (not (s.current == null) && is_running (s.threads s.current).state)) [
        | inl ran ↦ elim (Bool-cases (u == s.current)) [
          | inl e ↦ rw (miss, ran, e) refl
          | inr e ↦ rw (miss, ran, e) refl
        ]
        | inr ran ↦ rw (miss, ran) refl
      ],
)

-- The time stamp of a thread says nothing of any thread's state.
stamp_state :
    (f : ℕ → Thread) (k now w : ℕ)
    → (set_thread f k (record (f k) { scheduled = now }) w).state ≡ (f w).state
stamp_state f k now w = elim (Bool-cases (w == k)) [
  | inl e ↦ let same = eq-of_== w k e in rw (e, same) refl
  | inr e ↦ rw e refl
]

module _ (at : Places) (s : State) (now k : ℕ) (xs : List ℕ)
    (r : IsList s.links at.runnable (k ∷ xs)) where
  -- On a well-formed list of runnable threads with a first item, `schedule` does not fail: the
  -- first thread is current and running, and stands at the end of the list, which is well formed;
  -- the thread that was running is ready, and every other thread keeps its state.
  pub schedule_lem :
      Returns (λ _ t. Switched at (kept_state s) k (xs ++ k ∷ []) t) (schedule at now s)
  unfolding schedule switch_to
  schedule_lem =
      Returns-bind
        (OnLinks
          (λ out t.
            (out ≡ some k)
            × IsList t at.runnable (xs ++ k ∷ [])
            × SameOutside (at.runnable ∷ k ∷ xs) s.links t)
          s)
        _ (with_links s (list_rotate at.runnable s.links)) _
        (on_links_lem _ s (list_rotate at.runnable s.links)
          (rotate-cons s.links at.runnable k xs r))
        λ out t h.
          let chosen : out ≡ some k = h.0.0 in
          let threads : t.threads ≡ s.threads = h.1 in
          let current : t.current ≡ s.current = h.3 in
          let u : State = record t {
            threads = set_thread t.threads k (record (t.threads k) { scheduled = now });
          } in
          let states : (w : ℕ) → (u.threads w).state ≡ (s.threads w).state =
            λ w. stamp_state t.threads k now w ∙ ap (λ f. (f w).state) threads in
          rw chosen (
            Returns-mono (λ _ v. Switched at (kept_state u) k (xs ++ k ∷ []) v)
              (λ _ v. Switched at (kept_state s) k (xs ++ k ∷ []) v) (thread_switch k u)
              (thread_switch_lem at u k (xs ++ k ∷ []) h.0.1)
              λ _ v g.
                (g.0, g.1, g.2, λ w other. g.3 w other ∙ kept_state-ext s u w current states))

other_than : (a k : ℕ) (xs : List ℕ) → has a (k ∷ xs) ≡ false → a ≢ k
other_than a k xs h = ground arith

-- One thread's state changes, and no other's.
abbrev pub with_state : State → ℕ → ThreadState → ℕ → ThreadState
with_state s c state u = if u == c then state else (s.threads u).state

pub with_state_lem :
    (s : State) (c u : ℕ) (state : ThreadState)
    → (set_thread s.threads c (record (s.threads c) { state = state }) u).state
      ≡ with_state s c state u
with_state_lem s c u state = elim (Bool-cases (u == c)) [ inl e ↦ rw e refl | inr e ↦ rw e refl ]

-- A current thread that does not run keeps its state.
pub kept_state-stopped :
    (s : State) (u : ℕ)
    → is_running (s.threads s.current).state ≡ false
    → kept_state s u ≡ (s.threads u).state
kept_state-stopped s u h = elim (Bool-cases (s.current == null)) [
  | inl e ↦ rw (h, e) refl
  | inr e ↦ rw (h, e) refl
]

module _ (at : Places) (s : State) (now k : ℕ) (ys zs xs : List ℕ) where
  -- The current thread leaves the list of runnable threads, in a state that is not running, and
  -- the first of the others runs.
  leave_lem :
      (state : ThreadState)
      → IsList s.links at.runnable (ys ++ s.current ∷ zs)
      → ys ++ zs ≡ k ∷ xs
      → is_running state ≡ false
      → (u : State)
      → (u.links ≡ s.links)
        × (u.current ≡ s.current)
        × ((w : ℕ) → (u.threads w).state ≡ with_state s s.current state w)
      → Returns
          (λ _ t. Switched at (with_state s s.current state) k (xs ++ k ∷ []) t)
          ((sched_remove at s.current >> schedule at now) u)
  unfolding sched_remove
  leave_lem state r others stopped u keep =
      Returns-bind (OnLinks (λ _ t. Removed s.links at.runnable s.current ys zs t) u)
        (λ _ t. Switched at (with_state s s.current state) k (xs ++ k ∷ []) t)
        (with_links u (list_remove s.current u.links)) (λ _. schedule at now)
        (on_links_lem _ u (list_remove s.current u.links)
          (rw (keep.0) (remove_lem s.links at.runnable s.current ys zs r)))
        λ _ t h.
          let current : t.current ≡ s.current = h.3 ∙ keep.1 in
          let states : (w : ℕ) → (t.threads w).state ≡ with_state s s.current state w =
            λ w. ap (λ f. (f w).state) (h.1) ∙ keep.2 w in
          let self = ==_self s.current in
          let here : (t.threads s.current).state ≡ state = states s.current ∙ rw self refl in
          let halted : is_running (t.threads t.current).state ≡ false =
            rw (current, here) stopped in
          Returns-mono (λ _ v. Switched at (kept_state t) k (xs ++ k ∷ []) v)
            (λ _ v. Switched at (with_state s s.current state) k (xs ++ k ∷ []) v)
            (schedule at now t)
            (schedule_lem at t now k xs (subst (λ rs. IsList t.links at.runnable rs) others h.0.0))
            λ _ v g.
              (g.0, g.1, g.2, λ w other. g.3 w other ∙ (kept_state-stopped t w halted ∙ states w))

  -- When the current thread stands in the well-formed list of runnable threads with at least one
  -- other, `thread_suspend` does not fail: the thread sleeps and is in the list no more, the first
  -- of the others is current and running and last in the list, and every remaining thread keeps its
  -- state.
  pub thread_suspend_lem :
      IsList s.links at.runnable (ys ++ s.current ∷ zs)
      → ys ++ zs ≡ k ∷ xs
      → Returns
          (λ _ t.
            ((t.threads s.current).state ≡ sleeping)
            × Switched at (with_state s s.current sleeping) k (xs ++ k ∷ []) t)
          (thread_suspend at now s)
  unfolding thread_suspend set_state
  thread_suspend_lem r others =
      let split = Distinct-split ys s.current zs r.distinct in
      let out : has s.current (ys ++ zs) ≡ false =
        ground (arith, split, has-append s.current ys zs) in
      let apart : has s.current (k ∷ xs) ≡ false = sym (ap (has s.current) others) ∙ out in
      let other = other_than s.current k xs apart in
      let u : State = record s {
        threads =
            set_thread s.threads s.current (record (s.threads s.current) { state = sleeping });
      } in
      Returns-mono (λ _ t. Switched at (with_state s s.current sleeping) k (xs ++ k ∷ []) t)
        (λ _ t.
          ((t.threads s.current).state ≡ sleeping)
          × Switched at (with_state s s.current sleeping) k (xs ++ k ∷ []) t)
        ((sched_remove at s.current >> schedule at now) u)
        (leave_lem sleeping r others refl u
          (refl, refl, λ w. with_state_lem s s.current w sleeping))
        λ _ t g. (g.3 s.current other ∙ (let self = ==_self s.current in rw self refl), g)

module _ (at : Places) (s : State) (t : ℕ) (rs : List ℕ) where
  -- `thread_wakeup` of a sleeping thread that is not in the well-formed list of runnable threads
  -- does not fail: the thread is ready and last in the list, which is well formed, every other
  -- thread keeps its state, and the current thread stays current.
  pub thread_wakeup-sleeping :
      IsList s.links at.runnable rs
      → has t (at.runnable ∷ rs) ≡ false
      → t ≢ null
      → (s.threads t).state ≡ sleeping
      → Returns
          (λ _ u.
            IsList u.links at.runnable (rs ++ t ∷ [])
            × (u.current ≡ s.current)
            × ((w : ℕ) → (u.threads w).state ≡ with_state s t ready w))
          (thread_wakeup at t s)
  unfolding thread_wakeup set_state sched_insert
  thread_wakeup-sleeping r new nonnull sleeps =
      let u : State = record s {
        threads = set_thread s.threads t (record (s.threads t) { state = ready });
      } in
      let wakes : is_sleeping (s.threads t).state ≡ true = rw sleeps refl in
      rw wakes (
        Returns-mono
          (OnLinks
            (λ _ links.
              IsList links at.runnable (rs ++ t ∷ [])
              × SameOutside (at.runnable ∷ t ∷ rs) s.links links)
            u)
          (λ _ v.
            IsList v.links at.runnable (rs ++ t ∷ [])
            × (v.current ≡ s.current)
            × ((w : ℕ) → (v.threads w).state ≡ with_state s t ready w))
          (with_links u (list_append at.runnable t s.links))
          (on_links_lem _ u (list_append at.runnable t s.links)
            (append_lem s.links at.runnable t rs r new nonnull))
          λ _ v g. (g.0.0, g.3, λ w. ap (λ f. (f w).state) (g.1) ∙ with_state_lem s t w ready))

  -- `thread_wakeup` of a thread that does not sleep changes nothing.
  pub thread_wakeup-awake :
      is_sleeping (s.threads t).state ≡ false → thread_wakeup at t s ≡ some (tt, s)
  unfolding thread_wakeup
  thread_wakeup-awake h = rw h refl
