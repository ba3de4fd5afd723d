-- ===== src/RbTree/Cut.antt =====
-- kernel/adt/rbtree.c: a node with at most one child is cut out of the tree.
use osy.Common.{
  ℕ, ◌+◌, ◌≤◌, Bool, ◌==◌, ◌≡◌, ◌≢◌, ◌∙◌, arith, Bool-cases, inl, inr, subst, Returns, Returns-bind,
  Returns-mono, ==_false, ◌>>=◌, pure,
}
use osy.RbTree.{Nodes, no_node, get_red, has_left, move_parent}
use osy.RbTree.Shape.{
  Tree, leaf, node, Context, count, count_context, IsTree, IsContext, Holds, IsTree-reparent,
  count_root, count_context_null,
}
use osy.RbTree.Rotation.{Moved, move_parent_lem, up_apart}
use osy.RbTree.Recolor.{get_left_lem, get_right_lem}
use osy.RbTree.Deletion.{cut_out}

-- The child takes the place of its parent.
pub cut_lem :
    (s : Nodes) (fs : Context) (up n q : ℕ) (c : Bool) (l r x : Tree)
    → Holds s fs up n (node l n c r)
    → IsTree s n q x
    → ((a : ℕ) → count a x ≤ count a l + count a r)
    → Returns (λ v t. (v ≡ up) × Holds t fs up q x × (t.red n ≡ c)) (move_parent n q s)
cut_lem s fs up n q c l r x h at_x inside =
    let tree = h.below in
    let q_free : count_context q fs ≡ 0 = elim (Bool-cases (q == no_node)) [
      | inl e ↦ ground (arith, e, count_context_null s up n fs h.above)
      | inr e ↦
          ground
            (arith, e, h.unique q, inside q, count_root s n q x at_x (λ i. ground (arith, i, e)))
    ] in
    let below_up : (a : ℕ) → 1 ≤ count a x → a ≢ up =
      λ a o. up_apart s up n fs (node l n c r) h.above tree h.unique a (omega (arith, inside a)) in
    Returns-mono (λ v t. (v ≡ up) × IsContext t up q fs × Moved s up q t) _ (move_parent n q s)
      (move_parent_lem s fs up n q h.above tree.3 tree.1 (λ a. omega (arith, h.unique a))
        (ground (arith, h.unique n)) q_free)
      λ v t m. (
        m.0,
        record {
          above = m.1;
          below =
              IsTree-reparent s t n up q x at_x
                (λ a o. let k = m.2.0 a (below_up a o) in (k.0, k.1, m.2.1 a)) (λ a o i. m.2.2 a i)
                m.2.3 (λ a. omega (arith, h.unique a, inside a));
          unique = λ a. omega (arith, h.unique a, inside a);
        },
        m.2.1 n ∙ tree.2,
      )

-- What is cut: the color of the node, and the place where its child stands.
abbrev pub CutAt : (fs : Context) (up : ℕ) (c : Bool) (x : Tree) → Bool × ℕ × ℕ → Nodes → Type 0
CutAt fs up c x r t = (r.0 ≡ c) × (r.1 ≡ up) × Holds t fs up r.2 x

cut_rest :
    (s : Nodes) (fs : Context) (up n q : ℕ) (c : Bool) (l r x : Tree)
    → Holds s fs up n (node l n c r)
    → IsTree s n q x
    → ((a : ℕ) → count a x ≤ count a l + count a r)
    → Returns
        (CutAt fs up c x)
        ((do parent ← move_parent n q; color ← get_red n; pure (color, parent, q)) s)
unfolding get_red
cut_rest s fs up n q c l r x h at_x inside =
    Returns-bind (λ v t. (v ≡ up) × Holds t fs up q x × (t.red n ≡ c)) (CutAt fs up c x)
      (move_parent n q s) _ (cut_lem s fs up n q c l r x h at_x inside)
      λ v t k. rw (==_false n no_node h.below.1) (k.2, k.0, k.1)

pub cut_out-right :
    (s : Nodes) (fs : Context) (up n : ℕ) (c : Bool) (x : Tree)
    → Holds s fs up n (node leaf n c x)
    → Returns (CutAt fs up c x) (cut_out n s)
unfolding cut_out has_left
cut_out-right s fs up n c x h =
    let tree = h.below in
    rw (get_left_lem s n tree.1, tree.4, get_right_lem s n tree.1)
      (cut_rest s fs up n (s.right n) c leaf x x h tree.5 (λ a. omega arith))

pub cut_out-left :
    (s : Nodes) (fs : Context) (up n b : ℕ) (c d : Bool) (l r : Tree)
    → Holds s fs up n (node (node l b d r) n c leaf)
    → Returns (CutAt fs up c (node l b d r)) (cut_out n s)
unfolding cut_out has_left
cut_out-left s fs up n b c d l r h =
    let tree = h.below in
    rw
      (
        get_left_lem s n tree.1,
        tree.4.0,
        ==_false b no_node tree.4.1,
        get_left_lem s n tree.1,
        tree.4.0,
      )
      (cut_rest s fs up n b c (node l b d r) leaf (node l b d r) h
        (subst (λ q. IsTree s n q (node l b d r)) tree.4.0 tree.4) (λ a. omega arith))
