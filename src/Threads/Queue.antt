-- ===== src/Threads/Queue.antt =====
-- kernel/sched/sched.c and kernel/proc/thread.c: which threads the list of runnable threads holds,
-- and how calls change it.
use osy.Common.{
  ℕ, Bool, true, false, not, ◌&&◌, ◌||◌, ◌==◌, if◌then◌else◌, List, [], ◌∷◌, ◌++◌, ◌≡◌, ◌≢◌, refl,
  sym, ap, ◌∙◌, Returns, Returns-and, Returns-mono, ==_self, ==_false, Bool-cases, eq-of_==, inl,
  inr, subst, arith,
}
use osy.LinkList.{null}
use osy.LinkList.Ring.{IsList, has, has-append}
use osy.Threads.{
  State, ThreadState, Places, ready, running, sleeping, zombie, is_running, is_zombie, is_sleeping,
  schedule,
}
use osy.Threads.Switch.{kept_state, kept_state-stopped, schedule_lem}
use osy.Threads.Data.{Dead, SameData, schedule-data}

abbrev pub is_stopped : ThreadState → Bool
is_stopped sleeping = true
is_stopped zombie = true
is_stopped _ = false

abbrev pub listed_state : State → ℕ → ThreadState
listed_state s u = if u == s.current then running else ready

-- `rs` are the runnable threads, in order, among the `known` ones; `idle` never leaves the list.
pub record IsQueue (at : Places) (idle : ℕ) (known : List ℕ) (s : State) (rs : List ℕ)
    : Type 0 where
  pub list : IsList s.links at.runnable rs
  pub idle_in : has idle rs ≡ true
  pub known_in : (u : ℕ) → has u rs ≡ true → has u known ≡ true
  pub listed : (u : ℕ) → has u rs ≡ true → (s.threads u).state ≡ listed_state s u
  pub absent :
      (u : ℕ) → has u known ≡ true → has u rs ≡ false → is_stopped (s.threads u).state ≡ true
  pub joiners : (u : ℕ) → has u known ≡ true → has (s.threads u).joiner (null ∷ known) ≡ true
  pub current_in : has s.current known ≡ true
  pub outside : (has at.runnable known ≡ false) × (has null known ≡ false)

pub has-middle :
    (u : ℕ) (ys : List ℕ) (c : ℕ) (zs : List ℕ)
    → has u (ys ++ c ∷ zs) ≡ ((u == c) || has u (ys ++ zs))
has-middle u [] c zs = refl
has-middle u (y ∷ ys) c zs = ground (arith, has-middle u ys c zs)

pub has-snoc : (u : ℕ) (xs : List ℕ) (k : ℕ) → has u (xs ++ k ∷ []) ≡ has u (k ∷ xs)
has-snoc u xs k = ground (arith, has-append u xs (k ∷ []))

stopped-running : (st : ThreadState) → is_stopped st ≡ true → is_running st ≡ false
stopped-running running h = sym h
stopped-running _ h = refl

pub sleeping_of : (st : ThreadState) → is_sleeping st ≡ true → st ≡ sleeping
sleeping_of sleeping h = refl
sleeping_of ready h = cc
sleeping_of running h = cc
sleeping_of zombie h = cc

pub not_asleep : (st : ThreadState) → is_sleeping st ≡ true → st ≡ ready → ⊥
not_asleep st h e = ground (arith, sym h ∙ ap is_sleeping e)

pub absurd_in : (u : ℕ) (xs : List ℕ) → has u xs ≡ true → has u xs ≡ false → ⊥
absurd_in u xs h g = ground (arith, h, g)

-- Only a running thread is given another state by a switch from it.
kept-halted :
    (s : State) (u : ℕ)
    → is_running (s.threads u).state ≡ false
    → kept_state s u ≡ (s.threads u).state
kept-halted s u h = elim (Bool-cases (u == s.current)) [
  | inl e ↦
      let same = eq-of_== u s.current e in
      kept_state-stopped s u (subst (λ a. is_running (s.threads a).state ≡ false) same h)
  | inr e ↦ elim (Bool-cases (not (s.current == null) && is_running (s.threads s.current).state)) [
    | inl g ↦ rw (g, e) refl
    | inr g ↦ rw g refl
  ]
]

zombie-running : (st : ThreadState) → is_zombie st ≡ true → is_running st ≡ false
zombie-running running h = sym h
zombie-running _ h = refl

listed_alive : (s : State) (u : ℕ) → is_zombie (listed_state s u) ≡ false
listed_alive s u = elim (Bool-cases (u == s.current)) [ inl e ↦ rw e refl | inr e ↦ rw e refl ]

module _ (at : Places) (idle : ℕ) (known : List ℕ) (s : State) (rs : List ℕ)
    (q : IsQueue at idle known s rs) where
  pub current_nonnull : s.current ≢ null
  current_nonnull e =
      absurd_in null known (subst (λ a. has a known ≡ true) e q.current_in) q.outside.1

  kept-listed : (u : ℕ) → has u rs ≡ true → kept_state s u ≡ ready
  kept-listed u h = elim (Bool-cases (u == s.current)) [
    | inl e ↦
        let same = eq-of_== u s.current e in
        let here : (s.threads s.current).state ≡ running =
          subst (λ a. (s.threads a).state ≡ running) same (q.listed u h ∙ (rw e refl)) in
        let nonnull = ==_false s.current null current_nonnull in rw (nonnull, here, e) refl
    | inr e ↦
        let there : (s.threads u).state ≡ ready = q.listed u h ∙ (rw e refl) in
        elim (Bool-cases (not (s.current == null) && is_running (s.threads s.current).state)) [
          | inl g ↦ rw (g, e, there) refl
          | inr g ↦ rw (g, there) refl
        ]
  ]

  kept-absent : (u : ℕ) → has u known ≡ true → has u rs ≡ false → is_stopped (kept_state s u) ≡ true
  kept-absent u k h =
      let stops = q.absent u k h in
      let halted = stopped-running (s.threads u).state stops in
      subst (λ st. is_stopped st ≡ true) (sym (kept-halted s u halted)) stops

  -- Zombies do not stand in the list.
  pub zombie_unlisted : (u : ℕ) → is_zombie (s.threads u).state ≡ true → has u rs ≡ false
  zombie_unlisted u z = elim (Bool-cases (has u rs)) [
    | inr e ↦ e
    | inl e ↦
        let alive = listed_alive s u in
        absurd (ground (arith, sym z ∙ ap is_zombie (q.listed u e) ∙ alive))
  ]

module _ (at : Places) (idle : ℕ) (known : List ℕ) (s : State) (k : ℕ) (xs : List ℕ)
    (q : IsQueue at idle known s (k ∷ xs)) (now : ℕ) where
  -- `schedule` keeps the list of runnable threads right: the first one is moved to the end and runs.
  pub schedule-IsQueue :
      Returns
        (λ _ t. IsQueue at idle known t (xs ++ k ∷ []) × (t.current ≡ k) × SameData s t × Dead s t)
        (schedule at now s)
  schedule-IsQueue =
      Returns-mono _
        (λ _ t. IsQueue at idle known t (xs ++ k ∷ []) × (t.current ≡ k) × SameData s t × Dead s t)
        (schedule at now s)
        (Returns-and _ (λ _ t. SameData s t) (schedule at now s) (schedule_lem at s now k xs q.list)
          (schedule-data at now s))
        λ _ t h.
          let current : t.current ≡ k = h.0.0 in
          let runs : (t.threads k).state ≡ running = h.0.1 in
          let chosen : has k (k ∷ xs) ≡ true = let self = ==_self k in rw self refl in
          let move : (u : ℕ) → has u (xs ++ k ∷ []) ≡ has u (k ∷ xs) = λ u. has-snoc u xs k in
          (
            record {
              list = h.0.2;
              idle_in = move idle ∙ q.idle_in;
              known_in = λ u e. q.known_in u (sym (move u) ∙ e);
              listed = λ u e. elim (Bool-cases (u == k)) [
                | inl g ↦ let same = eq-of_== u k g in rw (current, g, same) runs
                | inr g ↦
                    let other : u ≢ k = ground (arith, g) in
                    rw (current, g)
                      (h.0.3 u other ∙ kept-listed at idle known s (k ∷ xs) q u (sym (move u) ∙ e))
              ];
              absent = λ u e f.
                  let out : has u (k ∷ xs) ≡ false = sym (move u) ∙ f in
                  let other : u ≢ k = ground (arith, out) in
                  subst (λ st. is_stopped st ≡ true) (sym (h.0.3 u other))
                    (kept-absent at idle known s (k ∷ xs) q u e out);
              joiners =
                  λ u e. subst (λ a. has a (null ∷ known) ≡ true) (sym ((h.1 u).0)) (q.joiners u e);
              current_in = rw current (q.known_in k chosen);
              outside = q.outside;
            },
            current,
            h.1,
            λ u z.
                let out = zombie_unlisted at idle known s (k ∷ xs) q u z in
                let other : u ≢ k = ground (arith, out) in
                (h.0.3 u other ∙ kept-halted s u (zombie-running (s.threads u).state z), (h.1 u).1),
          )
