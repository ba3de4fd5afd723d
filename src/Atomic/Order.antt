-- ===== src/Atomic/Order.antt =====
-- kernel/adt/atomic.h: the operations of all processors take effect one after the other.
use osy.Common.{
  ℕ, Bool, true, false, not, ◌&&◌, Option, none, some, ◌==◌, List, [], ◌∷◌, ◌++◌, ◌≡◌, refl, sym,
  ap, ◌∙◌, Bool-cases, inl, inr, eq-of_==, subst,
}
use osy.LinkList.Ring.{has, Distinct}
use osy.Atomic.{
  Operation, Pc, start, loaded, finished, System, unlink, set_pc, load, save, advance, step, run,
  initial,
}

-- An operation done at once
abbrev pub apply : Operation → ℕ → ℕ
apply op v = elim (op.store v) [ none ↦ v | some new ↦ new ]

abbrev pub is_finished : Pc → Bool
is_finished (finished orig) = true
is_finished _ = false

module _ (ops : ℕ → Operation) where
  -- The value after the operations of some processors, the latest first, one after the other
  abbrev pub after : (value : ℕ) → List ℕ → ℕ
  after value [] = value
  after value (i ∷ log) = apply (ops i) (after value log)

  -- A finished operation read what the operations before it left.
  abbrev pub Took : (value : ℕ) → List ℕ → (i orig : ℕ) → Type 0
  Took value log i orig =
      (newer : List ℕ) × (older : List ℕ) × (log ≡ newer ++ i ∷ older) × (orig ≡ after value older)

  abbrev Fits : (value cell : ℕ) → (log : List ℕ) → ℕ → Pc → Type 0
  Fits value cell log i start = Unit
  Fits value cell log i (loaded orig true) = orig ≡ cell
  Fits value cell log i (loaded orig false) = Unit
  Fits value cell log i (finished orig) = Took value log i orig

  record IsOrdered (value : ℕ) (s : System) : Type 0 where
    now : s.value ≡ after value s.log
    fits : (i : ℕ) → Fits value s.value s.log i (s.pc i)
    logged : (i : ℕ) → has i s.log ≡ is_finished (s.pc i)
    once : Distinct s.log

  initial-IsOrdered : (value : ℕ) → IsOrdered value (initial value)
  initial-IsOrdered value = record { now = refl; fits = λ i. tt; logged = λ i. refl; once = tt }

  -- Another operation comes behind.
  Fits-later :
      (value cell k : ℕ) (log : List ℕ) (i : ℕ) (p : Pc)
      → Fits value cell log i p
      → Fits value cell (k ∷ log) i p
  Fits-later value cell k log i start f = tt
  Fits-later value cell k log i (loaded orig true) f = f
  Fits-later value cell k log i (loaded orig false) f = tt
  Fits-later value cell k log i (finished orig) f = (k ∷ f.0, f.1, ap (λ l. k ∷ l) (f.2), f.3)

  Fits-unlink :
      (value cell new : ℕ) (log : List ℕ) (i : ℕ) (p : Pc)
      → Fits value cell log i p
      → Fits value new log i (unlink p)
  Fits-unlink value cell new log i start f = tt
  Fits-unlink value cell new log i (loaded orig linked) f = tt
  Fits-unlink value cell new log i (finished orig) f = f

  finished-unlink : (p : Pc) → is_finished (unlink p) ≡ is_finished p
  finished-unlink start = refl
  finished-unlink (loaded orig linked) = refl
  finished-unlink (finished orig) = refl

  -- A processor goes on within its loop.
  move-IsOrdered :
      (value i : ℕ) (p : Pc) (s : System)
      → IsOrdered value s
      → Fits value s.value s.log i p
      → is_finished p ≡ is_finished (s.pc i)
      → IsOrdered value (record s { pc = set_pc s.pc i p })
  move-IsOrdered value i p s o f e = record {
    now = o.now;
    fits = λ j. elim (Bool-cases (j == i)) [
      | inl g ↦ let here = eq-of_== j i g in rw (g, here) f
      | inr g ↦ rw g (o.fits j)
    ];
    logged = λ j. elim (Bool-cases (j == i)) [
      | inl g ↦ let here = eq-of_== j i g in rw (g, here) (o.logged i ∙ sym e)
      | inr g ↦ rw g (o.logged j)
    ];
    once = o.once;
  }

  -- A processor leaves its loop, with what it has read.
  commit-IsOrdered :
      (value i new : ℕ) (g : ℕ → Pc) (s : System)
      → IsOrdered value s
      → is_finished (s.pc i) ≡ false
      → new ≡ apply (ops i) s.value
      → ((j : ℕ) → Fits value new s.log j (g j))
      → ((j : ℕ) → is_finished (g j) ≡ is_finished (s.pc j))
      → IsOrdered value
          (record { value = new; pc = set_pc g i (finished s.value); log = i ∷ s.log })
  commit-IsOrdered value i new g s o busy e f same = record {
    now = e ∙ ap (apply (ops i)) o.now;
    fits = λ j. elim (Bool-cases (j == i)) [
      | inl h ↦ let here = eq-of_== j i h in rw (h, here) ([], s.log, refl, o.now)
      | inr h ↦ rw h (Fits-later value new i s.log j (g j) (f j))
    ];
    logged = λ j. elim (Bool-cases (j == i)) [
      | inl h ↦ rw h refl
      | inr h ↦ rw h (o.logged j ∙ sym (same j))
    ];
    once = (o.logged i ∙ busy, o.once);
  }

  load-IsOrdered :
      (value i : ℕ) (store : Option ℕ) (s : System)
      → IsOrdered value s
      → s.pc i ≡ start
      → (ops i).store s.value ≡ store
      → IsOrdered value (load i store s)
  unfolding load
  load-IsOrdered value i none s o at e =
      commit-IsOrdered value i s.value s.pc s o (rw at refl) (rw (e, apply) refl) o.fits λ j. refl
  load-IsOrdered value i (some new) s o at e =
      move-IsOrdered value i (loaded s.value true) s o refl (rw at refl)

  save-IsOrdered :
      (value i orig : ℕ) (linked fails : Bool) (store : Option ℕ) (s : System)
      → IsOrdered value s
      → s.pc i ≡ loaded orig linked
      → (ops i).store orig ≡ store
      → IsOrdered value (save i orig (linked && not fails) store s)
  unfolding save
  save-IsOrdered value i orig false fails store s o at e =
      move-IsOrdered value i start s o tt (rw at refl)
  save-IsOrdered value i orig true true store s o at e =
      move-IsOrdered value i start s o tt (rw at refl)
  save-IsOrdered value i orig true false none s o at e =
      move-IsOrdered value i start s o tt (rw at refl)
  save-IsOrdered value i orig true false (some new) s o at e =
      let same : orig ≡ s.value = subst (λ p. Fits value s.value s.log i p) at (o.fits i) in
      let stores : (ops i).store s.value ≡ some new =
        subst (λ v. (ops i).store v ≡ some new) same e in
      let out : (ℕ → Pc) = λ j. unlink (s.pc j) in
      subst
        (λ r.
          IsOrdered value (record { value = new; pc = set_pc out i (finished r); log = i ∷ s.log }))
        (sym same)
        (commit-IsOrdered value i new out s o (rw at refl) (rw (stores, apply) refl)
          (λ j. Fits-unlink value s.value new s.log j (s.pc j) (o.fits j))
          λ j. finished-unlink (s.pc j))

  advance-IsOrdered :
      (value i : ℕ) (fails : Bool) (p : Pc) (s : System)
      → IsOrdered value s
      → s.pc i ≡ p
      → IsOrdered value (advance ops i fails p s)
  unfolding advance
  advance-IsOrdered value i fails start s o at = load-IsOrdered value i _ s o at refl
  advance-IsOrdered value i fails (loaded orig linked) s o at =
      save-IsOrdered value i orig linked fails _ s o at refl
  advance-IsOrdered value i fails (finished orig) s o at = o

  run-IsOrdered :
      (value : ℕ) (steps : List (ℕ × Bool)) (s : System)
      → IsOrdered value s
      → IsOrdered value (run ops steps s)
  unfolding run step
  run-IsOrdered value [] s o = o
  run-IsOrdered value ((i, fails) ∷ rest) s o =
      run-IsOrdered value rest (step ops i fails s)
        (advance-IsOrdered value i fails (s.pc i) s o refl)

  -- Let processors do one operation each on a shared word, interleaved in any way, with sc failing
  -- as it likes. The processors that are behind their loops did their operations in an order
  -- without repetition; the word is what these operations, done one after the other in this order,
  -- make of its first value; and each of them has read what those before it left.
  pub run_lem :
      (value : ℕ) (steps : List (ℕ × Bool))
      → let t = run ops steps (initial value) in
        (t.value ≡ after value t.log)
        × Distinct t.log
        × ((i : ℕ) → has i t.log ≡ is_finished (t.pc i))
        × ((i orig : ℕ) → t.pc i ≡ finished orig → Took value t.log i orig)
  run_lem value steps =
      let t : System = run ops steps (initial value) in
      let o = run-IsOrdered value steps (initial value) (initial-IsOrdered value) in
      (o.now, o.once, o.logged, λ i orig e. subst (λ p. Fits value t.value t.log i p) e (o.fits i))
