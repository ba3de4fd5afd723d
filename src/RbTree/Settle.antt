-- ===== src/RbTree/Settle.antt =====
-- kernel/adt/rbtree.c: `__rbtree_rebalance_delete` from any place whose tree is one black node short.
use osy.Common.{
  ℕ, zero, suc, ◌<◌, true, false, [], ◌∷◌, if◌then◌else◌, ◌≡◌, refl, sym, ◌∙◌, arith, Bool-cases,
  inl, inr, subst, Returns, Returns-bind, Returns-mono, ==_false, length,
}
use osy.RbTree.{Nodes, no_node, is_node, set_red, when}
use osy.RbTree.Shape.{Tree, leaf, node, Context, join, plug, flat, Holds}
use osy.RbTree.Place.{At, At-root, set_red-At, plug_lem}
use osy.RbTree.Colors.{
  is_red_tree, is_red_tree-join, IsRedBlack, IsRedBlackTree, IsRedBlack-plug, FitsAt,
  HasBlackParent, Finished, flat-plug_eq, blacken,
}
use osy.RbTree.Lift.{descend_red, descend_root}
use osy.RbTree.Sink.{Sinks, sink_below}
use osy.RbTree.Deletion.{descend, rebalance_delete}

IsRedBlack-blacken_red :
    (h : ℕ) (t : Tree) → IsRedBlack h t → is_red_tree t ≡ true → IsRedBlack (suc h) (blacken t)
IsRedBlack-blacken_red h leaf b e = ground (arith, e)
IsRedBlack-blacken_red h (node l a false r) b e = ground (arith, e)
IsRedBlack-blacken_red h (node l a true r) b e = (h, refl, b.0, b.1)

-- With more fuel than there are nodes above, the loop ends.
pub descend_lem : (fuel : ℕ) → Sinks fuel
descend_lem zero s fs h up p t k ht fits enough = let no : ⊥ = omega (arith, enough) in absurd no
descend_lem (suc fuel) s [] h up p t k ht fits enough = descend_root fuel s h up p t k ht
descend_lem (suc fuel) s (f ∷ gs) h up p t k ht fits enough = elim (Bool-cases (is_red_tree t)) [
  | inl e ↦
      descend_red (suc fuel) s (f ∷ gs) (suc h) up p t k e (IsRedBlack-blacken_red h t ht e) fits
        (omega arith)
  | inr e ↦
      subst (λ q. Returns (λ r w. Finished w r (flat (plug (f ∷ gs) t))) (descend (suc fuel) q p s))
        (sym k.above.0)
        (sink_below fuel s gs h p f.at f.red f.is_left f.other t (descend_lem fuel) (up, k) ht e
          fits (omega (arith, enough)))
]

pub is_red_tree-plug :
    (k : ℕ) (fs : Context) (t : Tree)
    → FitsAt k fs
    → (is_red_tree t ≡ true → HasBlackParent fs)
    → is_red_tree (plug fs t) ≡ false
is_red_tree-plug k [] t fits h = elim (Bool-cases (is_red_tree t)) [
  | inl e ↦ absurd (h e)
  | inr e ↦ e
]
is_red_tree-plug k (f ∷ fs) t fits h =
    is_red_tree-plug (if f.red then k else suc k) fs (join f t) fits.2
      (λ e. (fits.1 (sym (is_red_tree-join f t) ∙ e)).1)

-- A black tree that fits makes the whole a red-black tree.
pub close :
    (s : Nodes) (fs : Context) (k p : ℕ) (t : Tree)
    → At s fs p t
    → IsRedBlack k t
    → FitsAt k fs
    → is_red_tree t ≡ false
    → IsRedBlackTree s (flat (plug fs t))
close s fs k p t place colors fits black =
    let whole = IsRedBlack-plug k fs t fits colors (λ _. black) in
    (
      record {
        tree = plug fs t;
        holds = plug_lem s fs place.0 p t place.1;
        height = whole.0;
        colors = whole.1;
        order = refl;
      },
      is_red_tree-plug k fs t fits (λ e. ground (arith, e, black)),
    )

-- The last write makes the node black at which the loop ended.
paint_last :
    (s : Nodes) (fs : Context) (k p : ℕ) (t : Tree)
    → At s fs p t
    → IsRedBlack k (blacken t)
    → FitsAt k fs
    → Returns (λ _ v. IsRedBlackTree v (flat (plug fs t))) (when (is_node p) (set_red p false) s)
unfolding when
paint_last s fs k p leaf place colors fits =
    rw (place.1.below) (close s fs k p leaf place colors fits refl)
paint_last s fs k p (node l a c r) place colors fits =
    let tree = place.1.below in
    rw (tree.0, ==_false a no_node tree.1)
      (Returns-mono (λ _ v. At v fs a (node l a false r))
        (λ _ v. IsRedBlackTree v (flat (plug fs (node l a c r)))) (set_red a false s)
        (set_red-At s fs a c false l r (At-root s fs p a c l r place))
        λ _ v h.
          subst (IsRedBlackTree v) (flat-plug_eq fs _ _ refl)
            (close v fs k a (node l a false r) h colors fits refl))

pub rebalance_delete_lem :
    (fuel : ℕ) (s : Nodes) (fs : Context) (h up p : ℕ) (t : Tree)
    → Holds s fs up p t
    → IsRedBlack h t
    → FitsAt (suc h) fs
    → length fs < fuel
    → Returns (λ _ v. IsRedBlackTree v (flat (plug fs t))) (rebalance_delete fuel up p s)
unfolding rebalance_delete
rebalance_delete_lem fuel s fs h up p t k ht fits enough =
    Returns-bind (λ r v. Finished v r (flat (plug fs t)))
      (λ _ v. IsRedBlackTree v (flat (plug fs t))) (descend fuel up p s) _
      (descend_lem fuel s fs h up p t k ht fits enough)
      λ r v e.
        subst (λ xs. Returns (λ _ w. IsRedBlackTree w xs) (when (is_node r) (set_red r false) v))
          e.order (paint_last v e.context e.height r e.tree e.place e.colors e.fits)
