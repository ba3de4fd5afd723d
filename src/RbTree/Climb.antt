-- ===== src/RbTree/Climb.antt =====
-- kernel/adt/rbtree.c: `__rbtree_rebalance_insert` as a whole.
use osy.Common.{
  ℕ, zero, suc, ◌+◌, ◌<◌, Bool, true, false, List, [], ◌∷◌, ◌≡◌, ◌≢◌, refl, sym, arith, Bool-cases,
  inl, inr, subst, Returns, Returns-bind, Returns-mono, length,
}
use osy.RbTree.{Nodes, no_node, set_red, get_root}
use osy.RbTree.Shape.{Tree, leaf, node, Context, plug, flat, Holds}
use osy.RbTree.Place.{frame, set_red_lem, Holds-at}
use osy.RbTree.Colors.{IsRedBlack-blacken, IsRedBlack, IsRedBlackTree, is_red_context}
use osy.RbTree.Insertion.{climb, rebalance_insert}
use osy.RbTree.Recolor.{get_parent_lem}
use osy.RbTree.Rebalance.{Climbed, Climbs, Red, stop, parent_red, climb_step}

climb_black :
    (fuel : ℕ) (s : Nodes) (fs : Context) (h p : ℕ) (l r : Tree)
    → Red s fs h p l r
    → is_red_context fs ≡ false
    → Returns (λ _ t. Climbed t (flat (plug fs (node l p true r)))) (climb (suc fuel) p s)
unfolding climb
climb_black fuel s fs h p l r k black =
    let (up, at) = k.place in
    rw (get_parent_lem s p at.below.1, at.below.3, parent_red s fs up p _ at, black)
      (stop s fs h p l r k black)

climb_below :
    (fuel : ℕ) (s : Nodes) (gs : Context) (h n par gp : ℕ) (c d g e : Bool) (x y z u : Tree)
    → Climbs fuel
    → length gs + 2 < suc fuel
    → Red s (frame par c d z ∷ frame gp g e u ∷ gs) h n x y
    → Returns
        (λ _ t. Climbed t (flat (plug (frame par c d z ∷ frame gp g e u ∷ gs) (node x n true y))))
        (climb (suc fuel) n s)
climb_below fuel s gs h n par gp false d g e x y z u next enough k =
    climb_black fuel s _ h n x y k refl
climb_below fuel s gs h n par gp true d true e x y z u next enough k =
    ground (arith, (k.fits.1 refl).1)
climb_below fuel s gs h n par gp true d false e x y z u next enough k =
    climb_step fuel s gs h n par gp d e x y z next enough u k

-- With more fuel than there are nodes above, the loop ends.
pub climb_lem : (fuel : ℕ) → Climbs fuel
climb_lem zero s fs h p l r k enough = let no : ⊥ = omega (arith, enough) in absurd no
climb_lem (suc fuel) s [] h p l r k enough = climb_black fuel s [] h p l r k refl
climb_lem (suc fuel) s (f ∷ []) h p l r k enough = elim (Bool-cases f.red) [
  | inl e ↦ absurd ((k.fits.1 e).1)
  | inr e ↦ climb_black fuel s (f ∷ []) h p l r k e
]
climb_lem (suc fuel) s (f ∷ g ∷ gs) h p l r k enough =
    climb_below fuel s gs h p f.at g.at f.red f.is_left g.red g.is_left l r f.other g.other
      (climb_lem fuel) (omega (arith, enough)) k

-- The last write makes the root black.
paint_root :
    (s : Nodes) (xs : List ℕ) (t : Tree) (h : ℕ)
    → Holds s [] no_node s.root t
    → IsRedBlack h t
    → flat t ≡ xs
    → s.root ≢ no_node
    → Returns (λ _ t. IsRedBlackTree t xs) (set_red s.root false s)
paint_root s xs leaf h k b order some_root = absurd (some_root k.below)
paint_root s xs (node l a c r) h k b order some_root =
    let colors = IsRedBlack-blacken h (node l a c r) b in
    subst (λ p. Returns (λ _ t. IsRedBlackTree t xs) (set_red p false s)) (sym k.below.0)
      (Returns-mono (λ _ t. Holds t [] no_node a (node l a false r)) (λ _ t. IsRedBlackTree t xs)
        (set_red a false s)
        (set_red_lem s [] no_node a c false l r (Holds-at s [] no_node s.root a c l r k))
        λ _ t k'. (
          record {
            tree = node l a false r;
            holds = subst (λ p. Holds t [] no_node p (node l a false r)) (sym k'.above.1) k';
            height = colors.0;
            colors = colors.1;
            order = order;
          },
          refl,
        ))

pub rebalance_insert_lem :
    (fuel : ℕ) (s : Nodes) (fs : Context) (h p : ℕ) (l r : Tree)
    → Red s fs h p l r
    → length fs < fuel
    → Returns
        (λ _ t. IsRedBlackTree t (flat (plug fs (node l p true r))))
        (rebalance_insert fuel p s)
unfolding rebalance_insert get_root
rebalance_insert_lem fuel s fs h p l r k enough =
    let xs = flat (plug fs (node l p true r)) in
    Returns-bind (λ _ t. Climbed t xs) (λ _ t. IsRedBlackTree t xs) (climb fuel p s) _
      (climb_lem fuel s fs h p l r k enough)
      λ _ t c. paint_root t xs c.0.tree c.0.height c.0.holds c.0.colors c.0.order c.1
