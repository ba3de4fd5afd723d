-- ===== src/Threads/Turns.antt =====
-- kernel/sched/sched.c and kernel/proc/thread.c: how calls move the threads in the list of runnable
-- threads towards its front.
use osy.Common.{
  ℕ, suc, ◌+◌, ◌≤◌, true, ◌==◌, if◌then◌else◌, List, [], ◌∷◌, ◌++◌, ◌≡◌, ◌≢◌, ◌⊎◌, refl, sym, ap,
  ◌∙◌, Returns, Returns-mono, ==_self, ==_false, Bool-cases, eq-of_==, inl, inr, arith,
}
use osy.LinkList.Ring.{has}
use osy.Threads.{State, Places, running, is_sleeping, schedule, thread_wakeup}
use osy.Threads.Data.{Dead, Dead-trans}
use osy.Threads.Queue.{IsQueue, has-snoc, schedule-IsQueue}
use osy.Threads.Leave.{woken, wakeup-IsQueue}

-- How many threads stand in front of one.
abbrev pub place : ℕ → List ℕ → ℕ
place k [] = 0
place k (x ∷ xs) = if k == x then 0 else suc (place k xs)

pub place-snoc :
    (k : ℕ) (xs : List ℕ) (c : ℕ) → has k xs ≡ true → place k (xs ++ c ∷ []) ≡ place k xs
place-snoc k [] c h = ground (arith, h)
place-snoc k (x ∷ xs) c h = elim (Bool-cases (k == x)) [
  | inl e ↦ rw e refl
  | inr e ↦ rw e (ap suc (place-snoc k xs c (ground (arith, h, e))))
]

pub place-middle :
    (k : ℕ) (ys : List ℕ) (c : ℕ) (zs : List ℕ)
    → k ≢ c
    → place k (ys ++ zs) ≤ place k (ys ++ c ∷ zs)
place-middle k [] c zs other = let off = ==_false k c other in rw off (omega arith)
place-middle k (y ∷ ys) c zs other = elim (Bool-cases (k == y)) [
  | inl e ↦ rw e (omega arith)
  | inr e ↦ rw e (let rest = place-middle k ys c zs other in omega (arith, rest))
]

-- The list split at an item
pub has-split :
    (k : ℕ) (xs : List ℕ) → has k xs ≡ true → (ys : List ℕ) × (zs : List ℕ) × (xs ≡ ys ++ k ∷ zs)
has-split k [] h = absurd (ground (arith, h))
has-split k (x ∷ xs) h = elim (Bool-cases (k == x)) [
  | inl e ↦ ([], xs, ap (λ y. y ∷ xs) (sym (eq-of_== k x e)))
  | inr e ↦
      let (ys, zs, split) = has-split k xs (ground (arith, h, e)) in
      (x ∷ ys, zs, ap (λ l. x ∷ l) split)
]

-- The thread `c` that runs now is `k`, or `k` is in the list, at least `n` places further ahead.
abbrev pub Forward : (n : ℕ) (rs rs' : List ℕ) (c k : ℕ) → Type 0
Forward n rs rs' c k = (k ≡ c) ⊎ ((has k rs' ≡ true) × (place k rs' + n ≤ place k rs))

module _ (at : Places) (idle : ℕ) (known : List ℕ) where
  -- The list is right, the current thread stands in it, the other threads of the list came
  -- forward, and zombies stay as they are.
  abbrev pub Moved : (n : ℕ) (rs : List ℕ) → State → State → Type 0
  Moved n rs s t =
      (rs' : List ℕ) × IsQueue at idle known t rs'
      × (has t.current rs' ≡ true)
      × ((k : ℕ) → has k rs ≡ true → k ≢ s.current → Forward n rs rs' t.current k)
      × Dead s t

  pub Moved-shorten :
      (n : ℕ) (rs ws : List ℕ) (s u t : State)
      → Dead s u
      → Moved n ws u t
      → ((k : ℕ)
          → has k rs ≡ true
          → k ≢ s.current
          → (has k ws ≡ true) × (k ≢ u.current) × (place k ws ≤ place k rs))
      → Moved n rs s t
  Moved-shorten n rs ws s u t d m f = (
    m.0,
    m.1,
    m.2,
    λ k h other.
        let g = f k h other in
        elim (m.3 k (g.0) (g.1)) [ inl e ↦ inl e | inr e ↦ inr (e.0, omega (arith, e.1, g.2)) ],
    Dead-trans s u t d (m.4),
  )

  -- `schedule` moves every thread of the list one place ahead, or lets it run.
  pub schedule_turn :
      (s : State) (ws : List ℕ) (now : ℕ)
      → IsQueue at idle known s ws
      → Returns (λ _ t. Moved 1 ws s t) (schedule at now s)
  schedule_turn s [] now q = absurd (ground (arith, q.idle_in))
  schedule_turn s (h ∷ xs) now q =
      Returns-mono _ _ (schedule at now s) (schedule-IsQueue at idle known s h xs q now) λ _ t m.
        let current : t.current ≡ h = m.1 in
        (
          xs ++ h ∷ [],
          m.0,
          rw current (let self = ==_self h in ground (arith, has-snoc h xs h, self)),
          λ k i _. elim (Bool-cases (k == h)) [
            | inl e ↦ inl (eq-of_== k h e ∙ sym current)
            | inr e ↦
                let behind : has k xs ≡ true = ground (arith, i, e) in
                inr (
                  ground (arith, has-snoc k xs h, behind),
                  rw e (let p = place-snoc k xs h behind in omega (arith, p)),
                )
          ],
          m.3,
        )

  pub woken-has :
      (s : State) (t : ℕ) (rs : List ℕ) (k : ℕ)
      → has k rs ≡ true
      → (has k (woken s t rs) ≡ true) × (place k (woken s t rs) ≡ place k rs)
  woken-has s t rs k h = elim (Bool-cases (is_sleeping (s.threads t).state)) [
    | inl e ↦ rw e (ground (arith, has-snoc k rs t, h), place-snoc k rs t h)
    | inr e ↦ rw e (h, refl)
  ]

  -- `thread_wakeup` of a known thread.
  pub thread_wakeup_turn :
      (s : State) (rs : List ℕ) (t : ℕ)
      → IsQueue at idle known s rs
      → has s.current rs ≡ true
      → has t known ≡ true
      → Returns (λ _ u. Moved 0 rs s u × (u.current ≡ s.current)) (thread_wakeup at t s)
  thread_wakeup_turn s rs t q h k =
      let runs : (s.threads s.current).state ≡ running =
        q.listed s.current h ∙ (let self = ==_self s.current in rw self refl) in
      Returns-mono _ _ (thread_wakeup at t s)
        (wakeup-IsQueue at idle known s t rs q k (λ sleeps e.
          ground (
            arith,
            sym sleeps ∙ ap (λ a. is_sleeping (s.threads a).state) e ∙ ap is_sleeping runs,
          )))
        λ _ u m.
          let current : u.current ≡ s.current = m.1 in
          (
            (
              woken s t rs,
              m.0,
              rw current ((woken-has s t rs s.current h).0),
              λ w i _. let same = woken-has s t rs w i in inr (same.0, omega (arith, same.1)),
              m.2,
            ),
            current,
          )

  -- Nobody moves when nothing happens.
  pub still :
      (s : State) (rs : List ℕ)
      → IsQueue at idle known s rs
      → has s.current rs ≡ true
      → Moved 0 rs s s
  still s rs q h = (rs, q, h, (λ k i _. inr (i, omega arith)), λ u z. (refl, refl))

  pub Moved-weaken : (rs : List ℕ) (s t : State) → Moved 1 rs s t → Moved 0 rs s t
  Moved-weaken rs s t m = (
    m.0,
    m.1,
    m.2,
    λ k h other. elim (m.3 k h other) [ inl e ↦ inl e | inr e ↦ inr (e.0, omega (arith, e.1)) ],
    m.4,
  )
