-- ===== src/RbTree/Sink.antt =====
-- kernel/adt/rbtree.c: `__rbtree_rebalance_delete` as a whole.
use osy.Common.{
  ℕ, suc, ◌≤◌, ◌<◌, Bool, true, false, List, ◌∷◌, if◌then◌else◌, ◌≡◌, refl, sym, ◌∙◌, ap, arith,
  subst, Returns, Returns-bind, length, Option,
}
use osy.RbTree.{Nodes, get_root}
use osy.RbTree.Shape.{Tree, leaf, node, Context, join, plug, flat, IsTree, Holds}
use osy.RbTree.Place.{frame, At}
use osy.RbTree.Colors.{
  is_red_tree, is_red_tree-join, IsRedBlack, IsRedBlack-join, FitsAt, HasBlackParent, Finished,
  flat-plug_eq, blacken-join,
}
use osy.RbTree.Sides.{
  near, far, join-node, flat-rotate_join, flat-recolored, is_black_lem, other_child, own_side,
}
use osy.RbTree.Recolor.{get_left_lem}
use osy.RbTree.Round.{round, near_colors}
use osy.RbTree.Lift.{root_apart, descend_red, lift_black, lift_red}
use osy.RbTree.Deletion.{lift_sibling, descend}

-- What a round may rely on: the rest of the loop, from a place that is higher up.
abbrev pub Sinks : ℕ → Type 0
Sinks fuel =
    (s : Nodes) (fs : Context) (h up p : ℕ) (t : Tree)
    → Holds s fs up p t
    → IsRedBlack h t
    → FitsAt (suc h) fs
    → length fs < fuel
    → Returns (λ r v. Finished v r (flat (plug fs t))) (descend fuel up p s)

-- The rest of the loop after a round in which the sibling got red
go_on :
    (fuel : ℕ) (v : Nodes) (gs : Context) (h up par b : ℕ) (c d : Bool) (ol or t : Tree)
    → (c ≡ false → Sinks fuel × (length gs < fuel))
    → 1 ≤ fuel
    → IsRedBlack h t
    → IsRedBlack h ol
    → IsRedBlack h or
    → (is_red_tree ol ≡ false) × (is_red_tree or ≡ false)
    → FitsAt (if c then suc h else suc (suc h)) gs
    → Holds v gs up par (join (frame par c d (node ol b true or)) t)
    → Returns
        (λ r w. Finished w r (flat (plug gs (join (frame par c d (node ol b false or)) t))))
        (descend fuel up par v)
go_on fuel v gs h up par b c d ol or t next enough ht hl hr black fits k =
    let red = node ol b true or in
    subst (λ xs. Returns (λ r w. Finished w r xs) (descend fuel up par v))
      (flat-plug_eq gs _ _ (flat-recolored d par c c red (node ol b false or) t t refl refl))
      (by_color c next fits k)
  where
    by_color :
        (c : Bool)
        → (c ≡ false → Sinks fuel × (length gs < fuel))
        → FitsAt (if c then suc h else suc (suc h)) gs
        → Holds v gs up par (join (frame par c d (node ol b true or)) t)
        → Returns
            (λ r w. Finished w r (flat (plug gs (join (frame par c d (node ol b true or)) t))))
            (descend fuel up par v)
    by_color true next fits k =
        descend_red fuel v gs (suc h) up par (join (frame par true d (node ol b true or)) t) k
          (is_red_tree-join (frame par true d (node ol b true or)) t)
          (subst (IsRedBlack (suc h)) (sym (blacken-join d par (node ol b true or) t)) (
            IsRedBlack-join h (frame par false d (node ol b true or)) t ht
              (hl, hr, black.0, black.1) (λ e. ground (arith, e))))
          fits enough
    by_color false next fits k =
        let rest = next refl in
        rest.0 v gs (suc h) up par (join (frame par false d (node ol b true or)) t) k
          (IsRedBlack-join h (frame par false d (node ol b true or)) t ht (hl, hr, black.0, black.1)
            (λ e. ground (arith, e)))
          fits rest.1

pub reorder :
    (xs ys : List ℕ) (m : Option (ℕ × Nodes))
    → xs ≡ ys
    → Returns (λ r w. Finished w r xs) m
    → Returns (λ r w. Finished w r ys) m
reorder xs ys m e h = subst (λ zs. Returns (λ r w. Finished w r zs) m) e h

-- The height of a black node is that of its subtrees and one.
pub black_subtrees :
    (h a : ℕ) (l r : Tree) → IsRedBlack (suc h) (node l a false r) → IsRedBlack h l × IsRedBlack h r
black_subtrees h a l r b =
    let same : b.0 ≡ h = omega (arith, b.1) in
    (subst (λ k. IsRedBlack k l) same b.2, subst (λ k. IsRedBlack k r) same b.3)

module _ (fuel : ℕ) (s : Nodes) (gs : Context) (h p par b : ℕ) (d : Bool) (ol or t : Tree)
    (ht : IsRedBlack h t) (black : is_red_tree t ≡ false) (enough : 1 ≤ fuel) where
  -- A round with a black sibling
  sink_black :
      (c : Bool)
      → (c ≡ false → Sinks fuel × (length gs < fuel))
      → At s (frame par c d (node ol b false or) ∷ gs) p t
      → IsRedBlack h ol
      → IsRedBlack h or
      → FitsAt (if c then suc h else suc (suc h)) gs
      → (c ≡ true → HasBlackParent gs)
      → Returns
          (λ r w. Finished w r (flat (plug gs (join (frame par c d (node ol b false or)) t))))
          (descend (suc fuel) par p s)
  unfolding descend get_root
  sink_black c next place hl hr fits above =
      let sib = node ol b false or in
      let tree = place.1.above.4 in
      rw
        (
          is_black_lem s place.0 p t place.1.below,
          black,
          root_apart s (frame par c d sib) gs place.0 p t place.1,
          get_left_lem s par place.1.above.1,
          own_side s gs p par b c false d ol or t place,
          other_child s gs p par b c false d ol or t place,
          lift_black s par par b b d ol or (subst (λ q. IsTree s par q sib) tree.0 tree),
        )
        (round fuel s gs h p par b c d ol or t place ht hl hr fits above
          λ v up k at. go_on fuel v gs h up par b c d ol or t next enough ht hl hr k fits at)

  -- A round with a red sibling, whose child is the sibling afterwards
  sink_red :
      (n : ℕ) (nl nr : Tree)
      → At s (frame par false d (node ol b true or) ∷ gs) p t
      → near d ol or ≡ node nl n false nr
      → IsRedBlack (suc h) (node nl n false nr)
      → IsRedBlack (suc h) (far d ol or)
      → FitsAt (suc (suc h)) gs
      → Returns
          (λ r w. Finished w r (flat (plug gs (join (frame par false d (node ol b true or)) t))))
          (descend (suc fuel) par p s)
  unfolding descend get_root
  sink_red n nl nr place e hn hf fits =
      let sib = node ol b true or in
      let nt = node nl n false nr in
      let ft = far d ol or in
      let fs = frame b false d ft ∷ gs in
      let goal : ℕ → Nodes → Type 0 =
        λ r w. Finished w r (flat (plug gs (join (frame par false d sib) t))) in
      let sub = black_subtrees h n nl nr hn in
      let same : flat (plug fs (join (frame par true d nt) t))
          ≡ flat (plug gs (join (frame par false d sib) t)) =
        flat-plug_eq gs _ _ (
          flat-rotate_join d par b true false false true t nt ft
          ∙ ap (λ k. flat (join (frame par false d (join (frame b true d ft) k)) t)) (sym e)
          ∙ ap (λ k. flat (join (frame par false d k) t)) (sym (join-node d ol b true or))) in
      rw
        (
          is_black_lem s place.0 p t place.1.below,
          black,
          root_apart s (frame par false d sib) gs place.0 p t place.1,
          get_left_lem s par place.1.above.1,
          own_side s gs p par b false true d ol or t place,
          other_child s gs p par b false true d ol or t place,
        )
        (Returns-bind (λ r v. (r ≡ n) × ((q : ℕ) × At v (frame par true d nt ∷ fs) q t)) goal
          (lift_sibling par b d s) _ (lift_red s gs p par b n d ol or nl nr t place e)
          λ r v k. rw (k.0) (
            reorder _ _ _ same (
              round fuel v fs h k.1.0 par n true d nl nr t k.1.1 ht sub.0 sub.1
                (hf, (λ i. ground (arith, i)), fits) (λ i. refl)
                λ w up m at.
                  go_on fuel w fs h up par n true d nl nr t (λ i. ground (arith, i)) enough ht sub.0
                    sub.1 m (hf, (λ i. ground (arith, i)), fits) at)))

near_black :
    (d : Bool) (l r : Tree)
    → is_red_tree l ≡ false
    → is_red_tree r ≡ false
    → is_red_tree (near d l r) ≡ false
near_black true l r bl br = bl
near_black false l r bl br = br

record BlackNode (t : Tree) : Type 0 where
  n : ℕ
  l : Tree
  r : Tree
  same : t ≡ node l n false r

black_node : (h : ℕ) (t : Tree) → IsRedBlack (suc h) t → is_red_tree t ≡ false → BlackNode t
black_node h leaf b e = let no : ⊥ = omega (arith, b) in absurd no
black_node h (node l a false r) b e = record { n = a; l = l; r = r; same = refl }
black_node h (node l a true r) b e = ground (arith, e)

pub sink_below :
    (fuel : ℕ) (s : Nodes) (gs : Context) (h p par : ℕ) (c d : Bool) (o t : Tree)
    → Sinks fuel
    → At s (frame par c d o ∷ gs) p t
    → IsRedBlack h t
    → is_red_tree t ≡ false
    → FitsAt (suc h) (frame par c d o ∷ gs)
    → length gs < fuel
    → Returns
        (λ r w. Finished w r (flat (plug gs (join (frame par c d o) t))))
        (descend (suc fuel) par p s)
sink_below fuel s gs h p par c d leaf t next place ht black fits enough =
    let no : ⊥ = omega (arith, fits.0) in absurd no
sink_below fuel s gs h p par c d (node ol b false or) t next place ht black fits enough =
    let sub = black_subtrees h b ol or fits.0 in
    sink_black fuel s gs h p par b d ol or t ht black (omega (arith, enough)) c
      (λ _. (next, enough)) place sub.0 sub.1 fits.2 (λ e. (fits.1 e).1)
sink_below fuel s gs h p par true d (node ol b true or) t next place ht black fits enough =
    ground (arith, (fits.1 refl).0)
sink_below fuel s gs h p par false d (node ol b true or) t next place ht black fits enough =
    let parts = near_colors (suc h) d ol or fits.0.0 fits.0.1 in
    let nearest = black_node h (near d ol or) parts.0 (near_black d ol or fits.0.2 fits.0.3) in
    sink_red fuel s gs h p par b d ol or t ht black (omega (arith, enough)) nearest.n nearest.l
      nearest.r place nearest.same (subst (IsRedBlack (suc h)) nearest.same parts.0) parts.1 fits.2
