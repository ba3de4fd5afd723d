-- ===== src/Threads/Expiry.antt =====
-- kernel/time/timer.c: the search for an expired timer.
use osy.Common.{
  ℕ, zero, suc, ◌<◌, false, Option, none, some, ◌==◌, ltb, if◌then◌else◌, List, [], ◌∷◌, ◌≡◌, ◌≢◌,
  refl, ==_self, ==_false, Bool-cases, inl, inr, arith, length, All,
}
use osy.LinkList.{null}
use osy.LinkList.Ring.{IsList, has, Chain}
use osy.Threads.{State, find_expired}

-- The first timer of a list that has expired.
unfoldable pub first_expired : State → List ℕ → Option ℕ
first_expired s [] = none
first_expired s (t ∷ ts) = if ltb (s.timers t).expires s.jiffies then some t else first_expired s ts

walk_lem :
    (fuel : ℕ) (s : State) (list p : ℕ) (ts : List ℕ)
    → Chain s.links p ts list
    → has list ts ≡ false
    → All (λ t. t ≢ null) ts
    → length ts < fuel
    → find_expired fuel s list (s.links.next p) ≡ some (first_expired s ts)
unfolding find_expired first_expired
walk_lem zero s list p ts c out nonnull enough = elim enough [ ]
walk_lem (suc fuel) s list p [] c out nonnull enough =
    let end = c.0 in let self = ==_self list in rw (end, self) refl
walk_lem (suc fuel) s list p (t ∷ ts) c out nonnull enough =
    let next = c.0 in
    let go : (t == list) ≡ false = ==_false t list (ground (arith, out)) in
    let item = ==_false t null nonnull.0 in
    let rest = walk_lem fuel s list t ts c.2 (ground (arith, out)) nonnull.1 (omega arith) in
    elim (Bool-cases (ltb (s.timers t).expires s.jiffies)) [
      | inl e ↦ rw (next, go, item, e) refl
      | inr e ↦ rw (next, go, item, e, rest) refl
    ]

-- On a well-formed list of pending timers, with more fuel than timers, the search through the links
-- ends and finds the first timer of the list that has expired, or none if none has.
pub find_expired_lem :
    (fuel : ℕ) (s : State) (list : ℕ) (ts : List ℕ)
    → IsList s.links list ts
    → length ts < fuel
    → find_expired fuel s list (s.links.next list) ≡ some (first_expired s ts)
find_expired_lem fuel s list ts r enough =
    walk_lem fuel s list list ts r.chain r.fresh r.items enough
