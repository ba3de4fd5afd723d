-- ===== src/Threads/Leave.antt =====
-- kernel/sched/sched.c and kernel/proc/thread.c: threads that leave the list of runnable threads and
-- come back to it.
use osy.Common.{
  ℕ, true, false, ◌||◌, ◌==◌, if◌then◌else◌, List, [], ◌∷◌, ◌++◌, ◌≡◌, ◌≢◌, refl, sym, ap, ◌∙◌,
  ◌>>◌, Returns, Returns-and, Returns-mono, ==_self, ==_false, Bool-cases, eq-of_==, inl, inr,
  subst, arith,
}
use osy.LinkList.{null, list_remove}
use osy.LinkList.Ring.{has, has-append}
use osy.LinkList.Remove.{Distinct-split, remove_lem, Removed}
use osy.Threads.{
  State, Thread, ThreadState, Places, ready, is_sleeping, is_zombie, with_links, thread_wakeup,
  sched_remove, set_state, set_thread,
}
use osy.Threads.Switch.{
  with_state, with_state_lem, thread_wakeup-sleeping, thread_wakeup-awake, OnLinks, on_links_lem,
}
use osy.Threads.Data.{Dead, SameData, thread_wakeup-data, set_thread-joiner}
use osy.Threads.Queue.{
  IsQueue, is_stopped, listed_state, has-middle, has-snoc, sleeping_of, not_asleep, absurd_in,
  zombie_unlisted,
}

module _ (at : Places) (idle : ℕ) (known : List ℕ) (s : State) (ys zs : List ℕ)
    (q : IsQueue at idle known s (ys ++ s.current ∷ zs)) where
  -- A current thread that stops leaves the list; the others stay as they are.
  pub leave-IsQueue :
      (st : ThreadState)
      → is_stopped st ≡ true
      → s.current ≢ idle
      → Returns
          (λ _ t.
            IsQueue at idle known t (ys ++ zs)
            × (t.current ≡ s.current)
            × ((t.threads s.current).state ≡ st)
            × Dead s t)
          ((set_state at s.current st >> sched_remove at s.current) s)
  unfolding set_state sched_remove
  leave-IsQueue st stops busy =
      let u : State = record s {
        threads = set_thread s.threads s.current (record (s.threads s.current) { state = st });
      } in
      let split = Distinct-split ys s.current zs q.list.distinct in
      let middle : (w : ℕ) → has w (ys ++ s.current ∷ zs) ≡ ((w == s.current) || has w (ys ++ zs)) =
        λ w. has-middle w ys s.current zs in
      let out : has s.current (ys ++ zs) ≡ false =
        ground (arith, split, has-append s.current ys zs) in
      Returns-mono (OnLinks (λ _ links. Removed s.links at.runnable s.current ys zs links) u) _
        (with_links u (list_remove s.current s.links))
        (on_links_lem _ u (list_remove s.current s.links)
          (remove_lem s.links at.runnable s.current ys zs q.list))
        λ _ t h.
          let states : (w : ℕ) → (t.threads w).state ≡ with_state s s.current st w =
            λ w. ap (λ f. (f w).state) (h.1) ∙ with_state_lem s s.current w st in
          let same : SameData s t = λ w.
            let d =
              set_thread-joiner s.threads s.current (record (s.threads s.current) { state = st }) w
                refl refl in
            (ap (λ f. (f w).joiner) (h.1) ∙ d.0, ap (λ f. (f w).retval) (h.1) ∙ d.1) in
          (
            record {
              list = h.0.0;
              idle_in = ground (arith, middle idle, q.idle_in, busy);
              known_in = λ w e. q.known_in w (ground (arith, middle w, e));
              listed = λ w e.
                  let other : (w == s.current) ≡ false = ==_false w s.current λ g.
                    absurd_in w (ys ++ zs) e (subst (λ a. has a (ys ++ zs) ≡ false) (sym g) out) in
                  let old : (s.threads w).state ≡ listed_state s w =
                    q.listed w (ground (arith, middle w, e)) in
                  let current : t.current ≡ s.current = h.3 in
                  states w ∙ rw (current, other) (old ∙ (rw other refl));
              absent = λ w e f.
                  subst (λ x. is_stopped x ≡ true) (sym (states w))
                    (elim (Bool-cases (w == s.current)) [
                      | inl g ↦ rw g stops
                      | inr g ↦ rw g (q.absent w e (ground (arith, middle w, f, g)))
                    ]);
              joiners = λ w e.
                  subst (λ a. has a (null ∷ known) ≡ true) (sym ((same w).0)) (q.joiners w e);
              current_in = subst (λ a. has a known ≡ true) (sym h.3) q.current_in;
              outside = q.outside;
            },
            h.3,
            states s.current ∙ (let self = ==_self s.current in rw self refl),
            λ u z.
                let unlisted = zombie_unlisted at idle known s (ys ++ s.current ∷ zs) q u z in
                let off : (u == s.current) ≡ false = ground (arith, middle u, unlisted) in
                (states u ∙ rw off refl, (same u).1),
          )

-- The list after `thread_wakeup`.
abbrev pub woken : State → ℕ → List ℕ → List ℕ
woken s t rs = if is_sleeping (s.threads t).state then rs ++ t ∷ [] else rs

module _ (at : Places) (idle : ℕ) (known : List ℕ) (s : State) (t : ℕ) (rs : List ℕ)
    (q : IsQueue at idle known s rs) (in_known : has t known ≡ true) where
  wakeup-sleeping :
      is_sleeping (s.threads t).state ≡ true
      → t ≢ s.current
      → Returns
          (λ _ u. IsQueue at idle known u (rs ++ t ∷ []) × (u.current ≡ s.current) × Dead s u)
          (thread_wakeup at t s)
  wakeup-sleeping sleeps other =
      let new : has t rs ≡ false = elim (Bool-cases (has t rs)) [
        | inl e ↦
            let off = ==_false t s.current other in
            let is_ready : (s.threads t).state ≡ ready = q.listed t e ∙ (rw off refl) in
            absurd (not_asleep (s.threads t).state sleeps is_ready)
        | inr e ↦ e
      ] in
      let head : t ≢ at.runnable =
        λ e. absurd_in t known in_known (subst (λ a. has a known ≡ false) (sym e) q.outside.0) in
      let nonnull : t ≢ null =
        λ e. absurd_in t known in_known (subst (λ a. has a known ≡ false) (sym e) q.outside.1) in
      Returns-mono _ _ (thread_wakeup at t s)
        (Returns-and _ (λ _ u. SameData s u) (thread_wakeup at t s)
          (thread_wakeup-sleeping at s t rs q.list (ground (arith, new, head)) nonnull
            (sleeping_of (s.threads t).state sleeps))
          (thread_wakeup-data at t s))
        λ _ u h.
          let snoc : (w : ℕ) → has w (rs ++ t ∷ []) ≡ has w (t ∷ rs) = λ w. has-snoc w rs t in
          let current : u.current ≡ s.current = h.0.1 in
          let states : (w : ℕ) → (u.threads w).state ≡ with_state s t ready w = h.0.2 in
          (
            record {
              list = h.0.0;
              idle_in = ground (arith, snoc idle, q.idle_in);
              known_in = λ w e. elim (Bool-cases (w == t)) [
                | inl g ↦ let same = eq-of_== w t g in rw same in_known
                | inr g ↦ q.known_in w (ground (arith, snoc w, e, g))
              ];
              listed = λ w e. elim (Bool-cases (w == t)) [
                | inl g ↦
                    let off : (w == s.current) ≡ false =
                      ==_false w s.current λ x. other (sym (eq-of_== w t g) ∙ x) in
                    states w ∙ rw (current, g, off) refl
                | inr g ↦ states w ∙ rw (current, g) (q.listed w (ground (arith, snoc w, e, g)))
              ];
              absent = λ w e f.
                  let off : (w == t) ≡ false = ground (arith, snoc w, f) in
                  subst (λ x. is_stopped x ≡ true) (sym (states w))
                    (rw off (q.absent w e (ground (arith, snoc w, f))));
              joiners =
                  λ w e. subst (λ a. has a (null ∷ known) ≡ true) (sym ((h.1 w).0)) (q.joiners w e);
              current_in = subst (λ a. has a known ≡ true) (sym current) q.current_in;
              outside = q.outside;
            },
            current,
            λ w z.
                let off : (w == t) ≡ false = elim (Bool-cases (w == t)) [
                  | inr g ↦ g
                  | inl g ↦
                      let here : is_zombie (s.threads t).state ≡ true =
                        subst (λ a. is_zombie (s.threads a).state ≡ true) (eq-of_== w t g) z in
                      let asleep = sleeping_of (s.threads t).state sleeps in
                      absurd (ground (arith, sym here ∙ ap is_zombie asleep))
                ] in
                (states w ∙ rw off refl, (h.1 w).1),
          )

  -- `thread_wakeup` of a thread that is not current.
  pub wakeup-IsQueue :
      (is_sleeping (s.threads t).state ≡ true → t ≢ s.current)
      → Returns
          (λ _ u. IsQueue at idle known u (woken s t rs) × (u.current ≡ s.current) × Dead s u)
          (thread_wakeup at t s)
  wakeup-IsQueue other = elim (Bool-cases (is_sleeping (s.threads t).state)) [
    | inl e ↦ rw e (wakeup-sleeping e (other e))
    | inr e ↦ rw (e, thread_wakeup-awake at s t rs e) (q, refl, λ u z. (refl, refl))
  ]

-- A thread's value and joiner may change, the latter to a known thread.
pub store-IsQueue :
    (at : Places) (idle : ℕ) (known : List ℕ) (s : State) (rs : List ℕ) (k : ℕ) (v : Thread)
    → IsQueue at idle known s rs
    → v.state ≡ (s.threads k).state
    → has v.joiner (null ∷ known) ≡ true
    → IsQueue at idle known (record s { threads = set_thread s.threads k v }) rs
store-IsQueue at idle known s rs k v q same joins = record {
  list = q.list;
  idle_in = q.idle_in;
  known_in = q.known_in;
  listed = λ u e. states u ∙ q.listed u e;
  absent = λ u e f. subst (λ x. is_stopped x ≡ true) (sym (states u)) (q.absent u e f);
  joiners = λ u e. elim (Bool-cases (u == k)) [
    | inl g ↦
        let new : (set_thread s.threads k v u).joiner ≡ v.joiner = rw g refl in
        subst (λ a. has a (null ∷ known) ≡ true) (sym new) joins
    | inr g ↦
        let old : (set_thread s.threads k v u).joiner ≡ (s.threads u).joiner = rw g refl in
        subst (λ a. has a (null ∷ known) ≡ true) (sym old) (q.joiners u e)
  ];
  current_in = q.current_in;
  outside = q.outside;
}
  where
    states : (u : ℕ) → (set_thread s.threads k v u).state ≡ (s.threads u).state
    states u = elim (Bool-cases (u == k)) [
      | inl g ↦ let here = eq-of_== u k g in rw (g, here) same
      | inr g ↦ rw g refl
    ]
