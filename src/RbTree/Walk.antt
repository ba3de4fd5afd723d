-- ===== src/RbTree/Walk.antt =====
-- kernel/adt/rbtree.h: `rbtree_first` and `rbtree_next`, and the list of nodes in order.
use osy.Common.{
  ℕ, zero, suc, ◌+◌, ◌≤◌, ◌<◌, Bool, not, List, [], ◌∷◌, ◌++◌, ◌==◌, if◌then◌else◌, ◌≡◌, ◌≢◌, refl,
  sym, ◌∙◌, ap, arith, Bool-cases, inl, inr, subst, some, ==_false, ==_self, length,
}
use mathlib.Core.List.{append_assoc, append-nil}
use osy.RbTree.{Nodes, no_node, walk_left, rbtree_first, rbtree_next, up_from_right, has_right}
use osy.RbTree.Shape.{Tree, leaf, node, Frame, Context, flat, join, plug, IsTree, Holds, count_root}
use osy.RbTree.Place.{ascend}
use osy.RbTree.Search.{size}
use osy.RbTree.Recolor.{get_left_lem, get_parent_lem}

-- The first node of a list, or NULL
abbrev pub first : List ℕ → ℕ
first [] = no_node
first (x ∷ xs) = x

-- The nodes before and after the subtree at a place, in order
abbrev pub before : Context → List ℕ
before [] = []
before (f ∷ fs) = if f.is_left then before fs else before fs ++ (flat f.other ++ (f.at ∷ []))

abbrev pub after : Context → List ℕ
after [] = []
after (f ∷ fs) = if f.is_left then f.at ∷ (flat f.other ++ after fs) else after fs

flat-around : (fs : Context) (t : Tree) → flat (plug fs t) ≡ before fs ++ (flat t ++ after fs)
flat-around [] t = sym (append-nil (flat t))
flat-around (f ∷ fs) t = flat-around fs (join f t) ∙ elim (Bool-cases f.is_left) [
  | inl e ↦
      rw e (ap (λ xs. before fs ++ xs) (append_assoc (flat t) (f.at ∷ flat f.other) (after fs)))
  | inr e ↦ rw e (
      ap (λ xs. before fs ++ xs) (append_assoc (flat f.other) (f.at ∷ flat t) (after fs))
      ∙ sym (append_assoc (before fs) (flat f.other) (f.at ∷ (flat t ++ after fs)))
      ∙ sym (append_assoc (before fs ++ flat f.other) (f.at ∷ []) (flat t ++ after fs))
      ∙ ap (λ xs. xs ++ (flat t ++ after fs)) (append_assoc (before fs) (flat f.other) (f.at ∷ [])))
]

first-append : (xs ys zs : List ℕ) (x : ℕ) → first ((xs ++ (x ∷ ys)) ++ zs) ≡ first (xs ++ (x ∷ ys))
first-append [] ys zs x = refl
first-append (y ∷ xs) ys zs x = refl

pub walk_left_lem :
    (fuel : ℕ) (s : Nodes) (up p a : ℕ) (c : Bool) (l r : Tree)
    → IsTree s up p (node l a c r)
    → size (node l a c r) ≤ fuel
    → walk_left fuel p s ≡ some (first (flat (node l a c r)), s)
unfolding walk_left
walk_left_lem zero s up p a c l r h enough = let no : ⊥ = omega (arith, enough) in absurd no
walk_left_lem (suc fuel) s up p a c leaf r h enough = rw (h.0, get_left_lem s a h.1, h.4) refl
walk_left_lem (suc fuel) s up p a c (node ll b d lr) r h enough =
    rw (h.0, get_left_lem s a h.1, h.4.0, ==_false b no_node h.4.1)
      (subst (λ q. walk_left fuel q s ≡ some (first (flat (node (node ll b d lr) a c r)), s)) h.4.0
        (walk_left_lem fuel s a (s.left a) b d ll lr h.4 (omega (arith, enough))
          ∙ ap (λ q. some (q, s)) (sym (first-append (flat ll) (flat lr) (a ∷ flat r) b))))

right_side :
    (s : Nodes) (f : Frame) (fs : Context) (up p : ℕ) (t : Tree)
    → Holds s (f ∷ fs) up p t
    → p ≢ no_node
    → (p == s.right f.at) ≡ not f.is_left
right_side s f fs up p t h some_p =
    let c = h.above in
    let root = count_root s up p t h.below some_p in
    elim (Bool-cases f.is_left) [
      | inl e ↦
          let beside : IsTree s f.at (s.right f.at) f.other = rw e at (c.4) in
          rw e (ground (arith, h.unique p, root, count_root s f.at (s.right f.at) f.other beside))
      | inr e ↦ let link : s.right f.at ≡ p = rw e at (c.3) in rw (e, link, ==_self p) refl
    ]

parent_of : (s : Nodes) (up p : ℕ) (t : Tree) → IsTree s up p t → p ≢ no_node → s.parent p ≡ up
parent_of s up p leaf h n = absurd (n h)
parent_of s up p (node l a c r) h n = rw (h.0) (h.3)

-- The way up ends at the first node after the subtree.
up_from_right_lem :
    (fuel : ℕ) (s : Nodes) (fs : Context) (up p : ℕ) (t : Tree)
    → Holds s fs up p t
    → p ≢ no_node
    → length fs < fuel
    → up_from_right fuel p s ≡ some (first (after fs), s)
unfolding up_from_right
up_from_right_lem zero s fs up p t h some_p enough = let no : ⊥ = omega (arith, enough) in absurd no
up_from_right_lem (suc fuel) s [] up p t h some_p enough =
    rw (get_parent_lem s p some_p, parent_of s up p t h.below some_p, h.above.0) refl
up_from_right_lem (suc fuel) s (f ∷ fs) up p t h some_p enough =
    let k = h.above in
    elim (Bool-cases f.is_left) [
      | inl e ↦
          rw
            (
              get_parent_lem s p some_p,
              parent_of s up p t h.below some_p,
              k.0,
              ==_false f.at no_node k.1,
              right_side s f fs up p t h some_p,
              e,
            )
            refl
      | inr e ↦
          rw
            (
              get_parent_lem s p some_p,
              parent_of s up p t h.below some_p,
              k.0,
              ==_false f.at no_node k.1,
              right_side s f fs up p t h some_p,
              e,
            )
            (up_from_right_lem fuel s fs (s.parent f.at) f.at (join f t) (ascend s f fs up p t h)
              k.1 (omega (arith, enough)))
    ]

next_step :
    (fuel : ℕ) (s : Nodes) (fs : Context) (up a : ℕ) (c : Bool) (l r : Tree)
    → Holds s fs up a (node l a c r)
    → size r + length fs < fuel
    → rbtree_next fuel a s ≡ some (first (flat r ++ after fs), s)
unfolding rbtree_next has_right
next_step fuel s fs up a c l leaf h enough =
    let k = h.below in
    rw (==_false a no_node k.1, k.5)
      (up_from_right_lem fuel s fs up a (node l a c leaf) h k.1 (omega (arith, enough)))
next_step fuel s fs up a c l (node rl b d rr) h enough =
    let k = h.below in
    rw (==_false a no_node k.1, k.5.0, ==_false b no_node k.5.1)
      (walk_left_lem fuel s a (s.right a) b d rl rr k.5 (omega (arith, enough))
        ∙ ap (λ q. some (q, s)) (sym (first-append (flat rl) (flat rr) (after fs) b)))

-- Anywhere in a tree, with more fuel than nodes in the right subtree and above, `rbtree_next` ends,
-- changes nothing, and returns the node behind the given one in the list of all nodes in order, or
-- NULL if there is none.
pub rbtree_next_lem :
    (fuel : ℕ) (s : Nodes) (fs : Context) (up a : ℕ) (c : Bool) (l r : Tree)
    → Holds s fs up a (node l a c r)
    → size r + length fs < fuel
    → (flat (plug fs (node l a c r)) ≡ (before fs ++ flat l) ++ (a ∷ (flat r ++ after fs)))
      × (rbtree_next fuel a s ≡ some (first (flat r ++ after fs), s))
rbtree_next_lem fuel s fs up a c l r h enough = (
  flat-around fs (node l a c r)
      ∙ ap (λ xs. before fs ++ xs) (append_assoc (flat l) (a ∷ flat r) (after fs))
      ∙ sym (append_assoc (before fs) (flat l) (a ∷ (flat r ++ after fs))),
  next_step fuel s fs up a c l r h enough,
)

-- In a tree that is not empty, `rbtree_first` ends with as much fuel as there are nodes, changes
-- nothing, and returns the first node in order.
pub rbtree_first_lem :
    (fuel : ℕ) (s : Nodes) (up p : ℕ) (t : Tree)
    → IsTree s up p t
    → p ≢ no_node
    → size t ≤ fuel
    → rbtree_first fuel p s ≡ some (first (flat t), s)
unfolding rbtree_first
rbtree_first_lem fuel s up p leaf h some_p enough = absurd (some_p h)
rbtree_first_lem fuel s up p (node l a c r) h some_p enough =
    rw (==_false p no_node some_p) (walk_left_lem fuel s up p a c l r h enough)
