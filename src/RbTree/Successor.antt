-- ===== src/RbTree/Successor.antt =====
-- kernel/adt/rbtree.c: a node with two children is replaced by the first node of its right subtree.
use osy.Common.{
  ℕ, ◌+◌, ◌≤◌, Bool, false, [], ◌∷◌, ◌++◌, ◌==◌, if◌then◌else◌, ◌≡◌, ◌≢◌, refl, sym, ◌∙◌, ap, arith,
  subst, Returns, Returns-bind, ==_false, ==_self, pure, ◌>>◌,
}
use osy.RbTree.{Nodes, no_node, get_red, move_parent}
use osy.RbTree.Shape.{
  Tree, leaf, node, Context, plug, flat, count, count_context, once, IsTree, Holds,
}
use osy.RbTree.Place.{frame, At, At-ascend, At-descend, At-root}
use osy.RbTree.Search.{size}
use osy.RbTree.Walk.{first, rbtree_first_lem}
use osy.RbTree.Recolor.{get_right_lem}
use osy.RbTree.Cut.{cut_lem}
use osy.RbTree.Replace.{replace_lem}
use osy.RbTree.Ways.{
  count_context-append, count-plug, go_down, go_up, root_of_lem, top_of, top_of_lem, Leftmost,
  leftmost,
}
use osy.RbTree.Deletion.{cut_successor, replace}

-- The parent of the cut node, after another one was renamed.
parent_after :
    (way fs : Context) (n m : ℕ) (c : Bool) (l : Tree)
    → count_context n (way ++ (frame n c false l ∷ fs)) ≤ 1
    → (if top_of (way ++ (frame n c false l ∷ fs)) == n
        then m
        else top_of (way ++ (frame n c false l ∷ fs)))
      ≡ top_of (way ++ (frame m c false l ∷ fs))
parent_after [] fs n m c l one = rw (==_self n) refl
parent_after (g ∷ gs) fs n m c l one =
    let apart : (g.at == n) ≡ false =
      ground (arith, one, count_context-append n gs (frame n c false l ∷ fs)) in
    rw apart refl

module _ (s : Nodes) (fs : Context) (up n : ℕ) (c : Bool) (l : Tree) (rl : Tree) (b : ℕ) (d : Bool)
    (rr : Tree) where
  abbrev right : Tree
  right = node rl b d rr

  abbrev pub next : Leftmost (node rl b d rr)
  next = leftmost rl b d rr

  -- Where the node is cut, before and after the other one is replaced
  abbrev old_place : Context
  old_place = next.way ++ (frame n c false l ∷ fs)

  abbrev pub new_place : Context
  new_place = next.way ++ (frame next.m c false l ∷ fs)

  -- The color of the cut node, and the place where its child stands in the end
  abbrev pub Succeeded : Bool × ℕ × ℕ → Nodes → Type 0
  Succeeded r t = (r.0 ≡ next.c) × Holds t new_place r.1 r.2 next.r

  at_next :
      Holds s fs up n (node l n c (node rl b d rr))
      → At s old_place next.m (node leaf next.m next.c next.r)
  at_next h =
      let below =
        go_down s next.way (frame n c false l ∷ fs) (s.right n) (node leaf next.m next.c next.r) (
          subst (At s (frame n c false l ∷ fs) (s.right n)) next.same
            (At-descend s n c false l (node rl b d rr) fs (up, h))) in
      At-root s old_place below.0 next.m next.c leaf next.r below.1

  -- The node is out of the tree, and takes the place of the one that is deleted.
  put_in :
      (t : Nodes) (parent child : ℕ)
      → Holds t old_place parent child next.r
      → (next.m ≢ no_node)
      → ((a : ℕ) → count_context a old_place + (once a next.m + count a next.r) ≤ 1)
      → Returns Succeeded
          ((do replace n next.m; pure (next.c, (if parent == n then next.m else parent), child)) t)
  put_in t parent child h some_m one =
      let m = next.m in
      let rest = plug next.way next.r in
      let above = go_up t next.way (frame n c false l ∷ fs) child next.r (parent, h) in
      let at_n = At-ascend t (frame n c false l) fs above.0 rest above.1 in
      let free : count_context m fs + count m (node l n c rest) ≡ 0 = ground (
        arith,
        one m,
        count_context-append m next.way (frame n c false l ∷ fs),
        count-plug m next.way next.r,
      ) in
      Returns-bind (λ _ w. Holds w fs at_n.0 m (node l m c rest)) Succeeded (replace n m t) _
        (replace_lem t fs at_n.0 n m c l rest at_n.1 some_m free)
        λ _ w k.
          let low = At-descend w m c false l rest fs (at_n.0, k) in
          let end = go_down w next.way (frame m c false l ∷ fs) (w.right m) next.r low in
          let place = end.1 in
          let same_child : end.0 ≡ child =
            root_of_lem w place.0 end.0 next.r place.1.below
            ∙ sym (root_of_lem t parent child next.r h.below) in
          let same_parent : place.0 ≡ (if parent == n then m else parent) =
            top_of_lem w place.0 end.0 new_place place.1.above
            ∙ sym (parent_after next.way fs n m c l (omega (arith, one n)))
            ∙ ap (λ q. if q == n then m else q)
                (sym (top_of_lem t parent child old_place h.above)) in
          (
            refl,
            subst (λ q. Holds w new_place (if parent == n then m else parent) q next.r) same_child
                (subst (λ q. Holds w new_place q end.0 next.r) same_parent place.1),
          )

  pub cut_successor_lem :
      (fuel : ℕ)
      → Holds s fs up n (node l n c (node rl b d rr))
      → size (node rl b d rr) ≤ fuel
      → Returns Succeeded (cut_successor fuel n s)
  unfolding cut_successor get_red
  cut_successor_lem fuel h enough =
      let tree = h.below in
      let at = at_next h in
      let m = next.m in
      let some_m = at.1.below.1 in
      let m_node = ==_false m no_node some_m in
      let found =
        rbtree_first_lem fuel s n b (node rl b d rr)
          (subst (λ q. IsTree s n q (node rl b d rr)) tree.5.0 tree.5) tree.5.1 enough in
      let is_next : first (flat (node rl b d rr)) ≡ m = ap first next.order in
      rw (get_right_lem s n tree.1, tree.5.0, found, is_next, get_right_lem s m some_m)
        (Returns-bind
          (λ v t. (v ≡ at.0) × Holds t old_place at.0 (s.right m) next.r × (t.red m ≡ next.c))
          Succeeded (move_parent m (s.right m) s) _
          (cut_lem s old_place at.0 m (s.right m) next.c leaf next.r next.r at.1 at.1.below.5
            (λ a. omega arith))
          λ v t k.
            rw (m_node, k.2, k.0)
              (put_in t at.0 (s.right m) k.1 some_m (λ a. omega (arith, at.1.unique a))))
