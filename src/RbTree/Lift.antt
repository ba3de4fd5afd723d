-- ===== src/RbTree/Lift.antt =====
-- kernel/adt/rbtree.c: the tests of `__rbtree_rebalance_delete`, and a red sibling.
use osy.Common.{
  ℕ, zero, suc, ◌≤◌, Bool, true, false, not, ◌&&◌, [], ◌∷◌, ◌==◌, ◌≡◌, refl, arith, Bool-cases, inl,
  inr, subst, some, Returns, Returns-bind,
}
use osy.RbTree.{Nodes, no_node, get_root, set_red, rotate}
use osy.RbTree.Shape.{
  Tree, node, Frame, Context, join, plug, flat, count_context, IsTree, IsContext, Holds, count_root,
  count_context_null,
}
use osy.RbTree.Place.{frame, At, At-ascend, At-descend, At-root_join, set_red-At_join}
use osy.RbTree.Colors.{is_red_tree, IsRedBlack, FitsAt, Finished, blacken, IsRedBlack-blacken}
use osy.RbTree.Sides.{near, far, join-node, rotate-At, is_black_lem, other_child}
use osy.RbTree.Recolor.{is_red_lem}
use osy.RbTree.Deletion.{lift_sibling, descend}

-- The root is above each place that is not the root.
root_above :
    (s : Nodes) (up p : ℕ) (f : Frame) (fs : Context)
    → IsContext s up p (f ∷ fs)
    → 1 ≤ count_context s.root (f ∷ fs)
root_above s up p f [] h = ground (arith, h.5.1)
root_above s up p f (g ∷ gs) h =
    let rest = root_above s (s.parent f.at) f.at g gs h.5 in ground (arith, rest)

pub root_apart :
    (s : Nodes) (f : Frame) (fs : Context) (up p : ℕ) (t : Tree)
    → Holds s (f ∷ fs) up p t
    → (p == s.root) ≡ false
root_apart s f fs up p t h =
    let above = root_above s up p f fs h.above in
    let null = count_context_null s up p (f ∷ fs) h.above in
    let root = count_root s up p t h.below in
    elim (Bool-cases (p == no_node)) [
      | inl e ↦ ground (arith, e, above, null)
      | inr e ↦ ground (arith, e, above, h.unique p, root (λ i. ground (arith, i, e)))
    ]

-- A red node ends the loop.
pub descend_red :
    (fuel : ℕ) (s : Nodes) (fs : Context) (k up p : ℕ) (t : Tree)
    → Holds s fs up p t
    → is_red_tree t ≡ true
    → IsRedBlack k (blacken t)
    → FitsAt k fs
    → 1 ≤ fuel
    → Returns (λ r v. Finished v r (flat (plug fs t))) (descend fuel up p s)
unfolding descend get_root
descend_red zero s fs k up p t h red colors fits enough =
    let no : ⊥ = omega (arith, enough) in absurd no
descend_red (suc fuel) s fs k up p t h red colors fits enough =
    rw (is_black_lem s up p t h.below, red)
      (record {
        context = fs;
        tree = t;
        place = (up, h);
        height = k;
        colors = colors;
        fits = fits;
        order = refl;
      })

-- So does the root.
pub descend_root :
    (fuel : ℕ) (s : Nodes) (h up p : ℕ) (t : Tree)
    → Holds s [] up p t
    → IsRedBlack h t
    → Returns (λ r v. Finished v r (flat t)) (descend (suc fuel) up p s)
unfolding descend get_root
descend_root fuel s h up p t k colors =
    let black = IsRedBlack-blacken h t colors in
    let same : (p == s.root) ≡ true = ground (arith, k.above.1) in
    let ends : (not (is_red_tree t) && not true) ≡ false = ground arith in
    rw (is_black_lem s up p t k.below, same, ends)
      (record {
        context = [];
        tree = t;
        place = (up, k);
        height = black.0;
        colors = black.1;
        fits = tt;
        order = refl;
      })

pub lift_black :
    (s : Nodes) (up par b v : ℕ) (d : Bool) (ol or : Tree)
    → IsTree s up v (node ol b false or)
    → lift_sibling par v d s ≡ some (v, s)
unfolding lift_sibling
lift_black s up par b v d ol or h = rw (is_red_lem s up v (node ol b false or) h) refl

-- A red sibling is rotated over the parent, whose other child is black then.
pub lift_red :
    (s : Nodes) (gs : Context) (p par b n : ℕ) (d : Bool) (ol or nl nr t : Tree)
    → At s (frame par false d (node ol b true or) ∷ gs) p t
    → near d ol or ≡ node nl n false nr
    → Returns
        (λ r v.
          (r ≡ n)
          × ((q : ℕ) × At v
                (frame par true d (node nl n false nr) ∷ frame b false d (far d ol or) ∷ gs)
                q
                t))
        (lift_sibling par b d s)
unfolding lift_sibling
lift_red s gs p par b n d ol or nl nr t place e =
    let sib = node ol b true or in
    let nt = node nl n false nr in
    let ft = far d ol or in
    let goal : ℕ → Nodes → Type 0 =
      λ r v. (r ≡ n) × ((q : ℕ) × At v (frame par true d nt ∷ frame b false d ft ∷ gs) q t) in
    let whole = At-ascend s (frame par false d sib) gs p t place in
    let shaped : At s gs par (join (frame par false d (join (frame b true d ft) nt)) t) =
      subst (λ k. At s gs par (join (frame par false d (join (frame b true d ft) k)) t)) e
        (subst (λ k. At s gs par (join (frame par false d k) t)) (join-node d ol b true or)
          whole) in
    rw (is_red_lem s par b sib (subst (λ q. IsTree s par q sib) place.1.above.4.0 place.1.above.4))
      (Returns-bind (λ _ v. At v gs b (join (frame b true d ft) (join (frame par false d nt) t)))
        goal (rotate par d s) _ (rotate-At s gs d par b false true t nt ft shaped)
        λ _ s1 h1.
          Returns-bind (λ _ v. At v (frame b true d ft ∷ gs) par (join (frame par true d nt) t))
            goal (set_red par true s1) _
            (set_red-At_join s1 _ par false true d nt t (
              At-root_join s1 _ _ par false d nt t
                (At-descend s1 b true d ft (join (frame par false d nt) t) gs h1)))
            λ _ s2 h2.
              Returns-bind
                (λ _ v. At v gs b (join (frame b false d ft) (join (frame par true d nt) t))) goal
                (set_red b false s2) _
                (set_red-At_join s2 gs b true false d ft (join (frame par true d nt) t)
                  (At-ascend s2 (frame b true d ft) gs par (join (frame par true d nt) t) h2))
                λ _ s3 h3.
                  let at_par =
                    At-root_join s3 _ _ par true d nt t
                      (At-descend s3 b false d ft (join (frame par true d nt) t) gs h3) in
                  let end = At-descend s3 par true d nt t _ at_par in
                  rw (other_child s3 (frame b false d ft ∷ gs) _ par n true false d nl nr t end)
                    (refl, (_, end)))
