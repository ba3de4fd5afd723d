-- ===== src/RbTree/Round.antt =====
-- kernel/adt/rbtree.c: a round of `__rbtree_rebalance_delete` with a black sibling.
use osy.Common.{
  ℕ, suc, Bool, true, false, not, ◌&&◌, List, ◌∷◌, if◌then◌else◌, ◌≡◌, sym, ◌∙◌, ap, arith,
  Bool-cases, inl, inr, subst, some, Returns, Returns-bind, ◌>>◌, ◌>>=◌, assert,
}
use osy.RbTree.{
  Nodes, get_parent, get_left, get_right, get_red, get_root, is_red, is_black, set_red, rotate,
}
use osy.RbTree.Shape.{Tree, node, Context, join, plug, flat, IsTree, Holds}
use osy.RbTree.Place.{
  frame, At, At-ascend, At-descend, At-across, At-across_back, At-root, At-root_join, set_red-At,
}
use osy.RbTree.Colors.{is_red_tree, IsRedBlack, FitsAt, HasBlackParent, Finished}
use osy.RbTree.Sides.{near, far, join-node, is_black_lem, get_child_lem}
use osy.RbTree.Recolor.{get_left_lem, get_right_lem, get_parent_lem, is_red_lem}
use osy.RbTree.Borrow.{AtTurned, Turned, turn_far}
use osy.RbTree.Descend.{settle}
use osy.RbTree.Deletion.{get_child, turn_sibling, descend}

near_tree :
    (s : Nodes) (b : ℕ) (d : Bool) (l r : Tree)
    → IsTree s b (s.left b) l
    → IsTree s b (s.right b) r
    → IsTree s b (if d then s.left b else s.right b) (near d l r)
near_tree s b true l r hl hr = hl
near_tree s b false l r hl hr = hr

far_tree :
    (s : Nodes) (b : ℕ) (d : Bool) (l r : Tree)
    → IsTree s b (s.left b) l
    → IsTree s b (s.right b) r
    → IsTree s b (if not d then s.left b else s.right b) (far d l r)
far_tree s b true l r hl hr = hr
far_tree s b false l r hl hr = hl

near_color :
    (d : Bool) (l r : Tree)
    → (not (is_red_tree l) && not (is_red_tree r)) ≡ false
    → is_red_tree (far d l r) ≡ false
    → is_red_tree (near d l r) ≡ true
near_color true l r e f = ground (arith, e, f)
near_color false l r e f = ground (arith, e, f)

pub near_colors :
    (h : ℕ) (d : Bool) (l r : Tree)
    → IsRedBlack h l
    → IsRedBlack h r
    → IsRedBlack h (near d l r) × IsRedBlack h (far d l r)
near_colors h true l r hl hr = (hl, hr)
near_colors h false l r hl hr = (hr, hl)

get_parent-At :
    (s : Nodes) (fs : Context) (a : ℕ) (c d : Bool) (o t : Tree)
    (h : At s fs a (join (frame a c d o) t))
    → get_parent a s ≡ some (h.0, s)
get_parent-At s fs a c true o t h =
    get_parent_lem s a h.1.below.1 ∙ ap (λ q. some (q, s)) h.1.below.3
get_parent-At s fs a c false o t h =
    get_parent_lem s a h.1.below.1 ∙ ap (λ q. some (q, s)) h.1.below.3

inner_red :
    (s : Nodes) (gs : Context) (h par inner top : ℕ) (c d : Bool) (t : Tree) (xs : List ℕ)
    → AtTurned s gs h par c d t xs inner top
    → is_red inner s ≡ some (true, s)
inner_red s gs h par inner top c d t xs b =
    let apart = node b.x inner true b.y in
    let sib = join (frame top false d apart) b.close in
    let at_top =
      At-root_join s _ _ top false d apart b.close
        (At-descend s par c (not d) t sib gs (At-across s par c d sib t gs b.place)) in
    let at_inner = At-root s _ _ inner true b.x b.y (
      At-descend s top false (not d) b.close apart _
        (At-across s top false d apart b.close _ at_top)) in
    is_red_lem s at_inner.0 inner apart at_inner.1.below

module _ (fuel : ℕ) (s : Nodes) (gs : Context) (h p par b : ℕ) (c d : Bool) (ol or t : Tree)
    (place : At s (frame par c d (node ol b false or) ∷ gs) p t) where
  abbrev sibling : Tree
  sibling = node ol b false or

  abbrev Goal : ℕ → Nodes → Type 0
  Goal r v = Finished v r (flat (plug gs (join (frame par c d sibling) t)))

  -- The sibling has a red child.
  borrow :
      IsRedBlack h t
      → IsRedBlack h ol
      → IsRedBlack h or
      → FitsAt (if c then suc h else suc (suc h)) gs
      → (c ≡ true → HasBlackParent gs)
      → (not (is_red_tree ol) && not (is_red_tree or)) ≡ false
      → Returns Goal (
          (do
            outer ← get_child (not d) b
            (inner, top) ← turn_sibling outer b d
            red ← is_red inner
            assert red
            rotate par d
            color ← get_red par
            set_red top color
            set_red par false
            set_red inner false
            get_root)
            s)
  borrow ht hl hr fits above e =
      let tree = place.1.above.4 in
      let nr = near d ol or in
      let fr = far d ol or in
      let colors = near_colors h d ol or hl hr in
      let shaped : sibling ≡ join (frame b false d fr) nr = join-node d ol b false or in
      let whole = At-ascend s (frame par c d sibling) gs p t place in
      rw (get_child_lem s b (not d) tree.1) (
        Returns-bind (Turned s gs h par b c d t (flat (join (frame b false d fr) nr))) Goal
          (turn_sibling (if not d then s.left b else s.right b) b d s) _
          (turn_far s gs h par b c d t nr fr
            (subst (λ k. At s gs par (join (frame par c d k) t)) shaped whole) colors.0 colors.1
            (near_color d ol or e) (tree.1, (b, near_tree s b d ol or tree.4 tree.5))
            (b, far_tree s b d ol or tree.4 tree.5))
          λ r v k. rw (inner_red v gs h par r.0 r.1 c d t _ k) (
            subst
              (λ x.
                Returns (λ q w. Finished w q (flat (plug gs (join (frame par c d x) t))))
                  ((do
                    rotate par d
                    color ← get_red par
                    set_red r.1 color
                    set_red par false
                    set_red r.0 false
                    get_root)
                    v))
              (sym shaped)
              (settle v gs h par r.0 r.1 c d t (join (frame b false d fr) nr) k ht fits above)))

  -- The sibling gets red, and the parent is next.
  pass_up :
      ((v : Nodes) (up : ℕ)
        → Holds v gs up par (join (frame par c d (node ol b true or)) t)
        → Returns Goal (descend fuel up par v))
      → Returns Goal ((do set_red b true; above ← get_parent par; descend fuel above par) s)
  pass_up next =
      let whole = At-ascend s (frame par c d sibling) gs p t place in
      let at_b =
        At-root s _ _ b false ol or
          (At-descend s par c (not d) t sibling gs (At-across s par c d sibling t gs whole)) in
      let red = node ol b true or in
      Returns-bind (λ _ v. At v (frame par c (not d) t ∷ gs) b red) Goal (set_red b true s) _
        (set_red-At s _ b false true ol or at_b)
        λ _ v k.
          let back =
            At-across_back v par c d red t gs (At-ascend v (frame par c (not d) t) gs b red k) in
          rw (get_parent-At v gs par c d red t back) (next v back.0 back.1)

  -- What a round does with a black sibling
  pub round :
      IsRedBlack h t
      → IsRedBlack h ol
      → IsRedBlack h or
      → FitsAt (if c then suc h else suc (suc h)) gs
      → (c ≡ true → HasBlackParent gs)
      → ((v : Nodes) (up : ℕ)
          → (is_red_tree ol ≡ false) × (is_red_tree or ≡ false)
          → Holds v gs up par (join (frame par c d (node ol b true or)) t)
          → Returns Goal (descend fuel up par v))
      → Returns Goal (
          (do
            sl ← get_left b
            left_black ← is_black sl
            sr ← get_right b
            right_black ← is_black sr
            if left_black && right_black
                then (do set_red b true; above ← get_parent par; descend fuel above par)
                else (do
                  outer ← get_child (not d) b
                  (inner, top) ← turn_sibling outer b d
                  red ← is_red inner
                  assert red
                  rotate par d
                  color ← get_red par
                  set_red top color
                  set_red par false
                  set_red inner false
                  get_root))
            s)
  round ht hl hr fits above next =
      let tree = place.1.above.4 in
      let reads = is_black_lem s b (s.left b) ol tree.4 in
      elim (Bool-cases (not (is_red_tree ol) && not (is_red_tree or))) [
        | inl e ↦
            rw
              (
                get_left_lem s b tree.1,
                reads,
                get_right_lem s b tree.1,
                is_black_lem s b (s.right b) or tree.5,
                e,
              )
              (pass_up λ v up k. next v up (ground (arith, e), ground (arith, e)) k)
        | inr e ↦
            rw
              (
                get_left_lem s b tree.1,
                reads,
                get_right_lem s b tree.1,
                is_black_lem s b (s.right b) or tree.5,
                e,
              )
              (borrow ht hl hr fits above e)
      ]
