-- ===== src/LinkList/Ring.antt =====
-- What a well-formed list of kernel/adt/list.h is: a ring of distinct links through its head.
use mathlib.Core.Bool.{or_assoc}
use osy.Common.{ℕ, ◌≡◌, ◌≢◌, refl, Bool, true, false, ◌||◌, List, [], ◌∷◌, ◌++◌, ◌==◌, All, arith}
use osy.LinkList.{Links, null}

abbrev pub has : ℕ → List ℕ → Bool
has a [] = false
has a (x ∷ xs) = (a == x) || has a xs

abbrev pub Distinct : List ℕ → Type 0
Distinct [] = Unit
Distinct (x ∷ xs) = (has x xs ≡ false) × Distinct xs

-- From `p` the links lead through `xs` to `q`, forwards and backwards.
abbrev pub Chain : Links → ℕ → List ℕ → ℕ → Type 0
Chain s p [] q = (s.next p ≡ q) × (s.prev q ≡ p)
Chain s p (x ∷ xs) q = (s.next p ≡ x) × (s.prev x ≡ p) × Chain s x xs q

-- `list` is the head of a ring through the items `xs`, in order.
pub record IsList (s : Links) (list : ℕ) (xs : List ℕ) : Type 0 where
  pub chain : Chain s list xs list
  pub fresh : has list xs ≡ false
  pub distinct : Distinct xs
  pub nonnull : list ≢ null
  pub items : All (λ x. x ≢ null) xs

pub has-append : (a : ℕ) (xs ys : List ℕ) → has a (xs ++ ys) ≡ (has a xs || has a ys)
has-append a [] ys = refl
has-append a (x ∷ xs) ys = rw (has-append a xs ys, or_assoc)

-- A chain depends on `next` of all its links but the last, and on `prev` of all but the first.
pub Chain-frame :
    {s t : Links} (p : ℕ) (xs : List ℕ) (q : ℕ)
    → Chain s p xs q
    → ((a : ℕ) → has a (p ∷ xs) ≡ true → t.next a ≡ s.next a)
    → ((a : ℕ) → has a (q ∷ xs) ≡ true → t.prev a ≡ s.prev a)
    → Chain t p xs q
Chain-frame p [] q c f g = (ground (arith, f p), ground (arith, g q))
Chain-frame p (x ∷ xs) q c f g = (
  ground (arith, f p),
  ground (arith, g x),
  Chain-frame x xs q c.2 (λ a h. f a (ground arith)) (λ a h. g a (ground arith)),
)

-- The chain of `k` becomes a chain of `p`: `p` takes over what `k` leads to.
pub Chain-rehead :
    {s t : Links} (k p : ℕ) (xs : List ℕ) (q : ℕ)
    → Chain s k xs q
    → has q xs ≡ false
    → Distinct xs
    → t.next p ≡ s.next k
    → t.prev (s.next k) ≡ p
    → ((a : ℕ) → has a xs ≡ true → t.next a ≡ s.next a)
    → ((a : ℕ) → has a (q ∷ xs) ≡ true → a ≢ s.next k → t.prev a ≡ s.prev a)
    → Chain t p xs q
Chain-rehead k p [] q c out d e1 e2 f g = ground arith
Chain-rehead k p (x ∷ xs) q c out d e1 e2 f g = (
  ground arith,
  ground arith,
  Chain-frame x xs q c.2 (λ a h. f a (ground arith))
      (λ a h. g a (ground arith) (ground (arith, hit a h))),
)
  where
    hit : (a : ℕ) → has a (q ∷ xs) ≡ true → a ≢ x
    hit a h = ground arith

-- The last link of a chain is the `prev` of its end.
pub Chain-last :
    (s : Links) (p : ℕ) (xs : List ℕ) (q : ℕ) → Chain s p xs q → has (s.prev q) (p ∷ xs) ≡ true
Chain-last s p [] q c = ground arith
Chain-last s p (x ∷ xs) q c = ground (arith, Chain-last s x xs q c.2)

-- The first link of a chain is the `next` of its start.
pub Chain-first :
    (s : Links) (p : ℕ) (xs : List ℕ) (q : ℕ) → Chain s p xs q → has (s.next p) (q ∷ xs) ≡ true
Chain-first s p [] q c = ground arith
Chain-first s p (x ∷ xs) q c = ground arith

pub nonnull_of_item : (a : ℕ) (xs : List ℕ) → All (λ x. x ≢ null) xs → has a xs ≡ true → a ≢ null
nonnull_of_item a [] h i = cc
nonnull_of_item a (x ∷ xs) h i = ground (arith, nonnull_of_item a xs h.1)

-- The neighbours of the head, which the operations write, are links of the ring.
pub prev_nonnull : {s : Links} {l : ℕ} {xs : List ℕ} → IsList s l xs → s.prev l ≢ null
prev_nonnull {s} {l} {xs} r =
    nonnull_of_item (s.prev l) (l ∷ xs) (r.nonnull, r.items) (Chain-last s l xs l r.chain)

pub next_nonnull : {s : Links} {l : ℕ} {xs : List ℕ} → IsList s l xs → s.next l ≢ null
next_nonnull {s} {l} {xs} r =
    nonnull_of_item (s.next l) (l ∷ xs) (r.nonnull, r.items) (Chain-first s l xs l r.chain)
