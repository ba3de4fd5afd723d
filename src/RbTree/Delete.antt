-- ===== src/RbTree/Delete.antt =====
-- kernel/adt/rbtree.c: `__rbtree_delete` of any node of a red-black tree.
use osy.Common.{
  ℕ, suc, ◌+◌, ◌<◌, Bool, true, false, not, ◌∷◌, ◌++◌, ◌≡◌, sym, ◌∙◌, ap, arith, subst, length,
  length-append, Returns, Returns-bind, ==_false, ◌>>=◌, Cmd,
}
use mathlib.Core.List.{append-nil}
use osy.RbTree.{Nodes, no_node, has_left, has_right, when}
use osy.RbTree.Shape.{Tree, leaf, node, Context, plug, flat, flat_context, Holds}
use osy.RbTree.Place.{frame}
use osy.RbTree.Colors.{is_red_tree, IsRedBlack, IsRedBlackTree, FitsAt, flat-plug}
use osy.RbTree.Search.{size}
use osy.RbTree.Fits.{Fits, Fits-plug, IsRedBlack-split}
use osy.RbTree.Settle.{close, rebalance_delete_lem}
use osy.RbTree.Cut.{CutAt, cut_out-left, cut_out-right}
use osy.RbTree.Ways.{plug-append, Fits-down}
use osy.RbTree.Successor.{next, Succeeded, cut_successor_lem}
use osy.RbTree.Deletion.{rbtree_delete, rebalance_delete, cut_out, cut_successor}

-- What is left of a place when a node of a color is cut out: after a red one nothing is amiss, after
-- a black one a black node is missing.
abbrev Short : Bool → Context → Tree → Type 0
Short true fs x = (k : ℕ) × IsRedBlack k x × (is_red_tree x ≡ false) × FitsAt k fs
Short false fs x = (k : ℕ) × IsRedBlack k x × FitsAt (suc k) fs

Short-right :
    (k a : ℕ) (c : Bool) (fs : Context) (x : Tree) → Fits k fs (node leaf a c x) → Short c fs x
Short-right k a true fs x e = (k, e.colors.1, e.colors.3, e.fits)
Short-right k a false fs x e = (e.colors.0, e.colors.3, subst (λ h. FitsAt h fs) e.colors.1 e.fits)

Short-left :
    (k a : ℕ) (c : Bool) (fs : Context) (x : Tree) → Fits k fs (node x a c leaf) → Short c fs x
Short-left k a true fs x e = (k, e.colors.0, e.colors.2, e.fits)
Short-left k a false fs x e = (e.colors.0, e.colors.2, subst (λ h. FitsAt h fs) e.colors.1 e.fits)

-- The rebalancing that the color of the cut node asks for
mend :
    (fuel : ℕ) (t : Nodes) (fs : Context) (up child : ℕ) (c : Bool) (x : Tree)
    → Holds t fs up child x
    → Short c fs x
    → length fs < fuel
    → Returns
        (λ _ v. IsRedBlackTree v (flat (plug fs x)))
        (when (not c) (rebalance_delete fuel up child) t)
unfolding when
mend fuel t fs up child true x h short enough =
    close t fs short.0 child x (up, h) short.1 short.3 short.2
mend fuel t fs up child false x h short enough =
    rebalance_delete_lem fuel t fs short.0 up child x h short.1 short.2 enough

-- A place of a tree fits whatever address its node has.
Fits-rename :
    (k n m : ℕ) (c : Bool) (fs : Context) (l r : Tree)
    → Fits k fs (node l n c r)
    → Fits k fs (node l m c r)
Fits-rename k n m true fs l r e = record {
  colors = e.colors;
  fits = e.fits;
  below_red = e.below_red;
  red_below = e.red_below;
}
Fits-rename k n m false fs l r e = record {
  colors = e.colors;
  fits = e.fits;
  below_red = e.below_red;
  red_below = e.red_below;
}

module _ (fuel : ℕ) (s : Nodes) (fs : Context) (up n : ℕ) (c : Bool) where
  mend_cut :
      (x : Tree) (m : Cmd Nodes (Bool × ℕ × ℕ))
      → Returns (CutAt fs up c x) (m s)
      → Short c fs x
      → length fs < fuel
      → Returns
          (λ _ v. IsRedBlackTree v (flat (plug fs x)))
          ((do (color, parent, child) ← m; when (not color) (rebalance_delete fuel parent child)) s)
  mend_cut x m run short enough =
      Returns-bind (CutAt fs up c x) (λ _ v. IsRedBlackTree v (flat (plug fs x))) (m s) _ run
        λ r t k. rw (k.0, k.1) (mend fuel t fs up r.2 c x k.2 short enough)

  mend_successor :
      (l rl : Tree) (b : ℕ) (d : Bool) (rr : Tree) (k : ℕ)
      → Holds s fs up n (node l n c (node rl b d rr))
      → Fits k fs (node l n c (node rl b d rr))
      → size (node l n c (node rl b d rr)) + length fs < fuel
      → Returns
          (λ _ v. IsRedBlackTree v (flat_context fs (flat l ++ flat (node rl b d rr))))
          ((do
            (color, parent, child) ← cut_successor fuel n
            when (not color) (rebalance_delete fuel parent child))
            s)
  mend_successor l rl b d rr k h fits enough =
      let e = next s fs up n c l rl b d rr in
      let f = frame e.m c false l in
      let split =
        IsRedBlack-split k f fs (node rl b d rr)
          (Fits-rename k n e.m c fs l (node rl b d rr) fits) in
      let low =
        Fits-down split.0 e.way (f ∷ fs) (node leaf e.m e.c e.r)
          (subst (Fits split.0 (f ∷ fs)) e.same split.1) in
      let order : flat (plug (e.way ++ (f ∷ fs)) e.r)
          ≡ flat_context fs (flat l ++ flat (node rl b d rr)) =
        ap flat (plug-append e.way (f ∷ fs) e.r)
        ∙ flat-plug fs (node l e.m c (plug e.way e.r))
        ∙ ap (λ xs. flat_context fs (flat l ++ xs)) (sym e.order) in
      Returns-bind (Succeeded s fs up n c l rl b d rr)
        (λ _ v. IsRedBlackTree v (flat_context fs (flat l ++ flat (node rl b d rr))))
        (cut_successor fuel n s) _
        (cut_successor_lem s fs up n c l rl b d rr fuel h (omega (arith, enough)))
        λ r t g.
          subst
            (λ xs.
              Returns (λ _ v. IsRedBlackTree v xs)
                (when (not r.0) (rebalance_delete fuel r.1 r.2) t))
            order
            (rw (g.0) (
              mend fuel t (e.way ++ (f ∷ fs)) r.1 r.2 e.c e.r g.1
                (Short-right low.0 e.m e.c (e.way ++ (f ∷ fs)) e.r low.1)
                (omega (arith, enough, e.short, length-append e.way (f ∷ fs)))))

-- In a red-black tree, `rbtree_delete` of any node of it does not fail with more fuel than nodes
-- below and above the node, and leaves a red-black tree: the nodes in order are those of before
-- without the deleted one.
pub rbtree_delete_lem :
    (fuel : ℕ) (s : Nodes) (fs : Context) (k up n : ℕ) (c : Bool) (l r : Tree)
    → Holds s fs up n (node l n c r)
    → IsRedBlack k (plug fs (node l n c r))
    → is_red_tree (plug fs (node l n c r)) ≡ false
    → size (node l n c r) + length fs < fuel
    → Returns
        (λ _ t. IsRedBlackTree t (flat_context fs (flat l ++ flat r)))
        (rbtree_delete fuel n s)
unfolding rbtree_delete has_left has_right
rbtree_delete_lem fuel s fs k up n c leaf r h colors black enough =
    let tree = h.below in
    let fits = Fits-plug k fs (node leaf n c r) colors black in
    subst (λ xs. Returns (λ _ t. IsRedBlackTree t xs) (rbtree_delete fuel n s)) (flat-plug fs r)
      (rw (==_false n no_node tree.1, tree.4)
        (mend_cut fuel s fs up n c r (cut_out n) (cut_out-right s fs up n c r h)
          (Short-right fits.0 n c fs r fits.1) (omega (arith, enough))))
rbtree_delete_lem fuel s fs k up n c (node ll a e lr) leaf h colors black enough =
    let tree = h.below in
    let l = node ll a e lr in
    let fits = Fits-plug k fs (node l n c leaf) colors black in
    subst (λ xs. Returns (λ _ t. IsRedBlackTree t xs) (rbtree_delete fuel n s))
      (flat-plug fs l ∙ ap (flat_context fs) (sym (append-nil (flat l))))
      (rw (==_false n no_node tree.1, tree.4.0, ==_false a no_node tree.4.1, tree.5)
        (mend_cut fuel s fs up n c l (cut_out n) (cut_out-left s fs up n a c e ll lr h)
          (Short-left fits.0 n c fs l fits.1) (omega (arith, enough))))
rbtree_delete_lem fuel s fs k up n c (node ll a e lr) (node rl b d rr) h colors black enough =
    let tree = h.below in
    let l = node ll a e lr in
    let fits = Fits-plug k fs (node l n c (node rl b d rr)) colors black in
    rw
      (
        ==_false n no_node tree.1,
        tree.4.0,
        ==_false a no_node tree.4.1,
        tree.5.0,
        ==_false b no_node tree.5.1,
      )
      (mend_successor fuel s fs up n c l rl b d rr fits.0 h fits.1 enough)
