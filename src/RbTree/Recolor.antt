-- ===== src/RbTree/Recolor.antt =====
-- kernel/adt/rbtree.c: the reads of `__rbtree_rebalance_insert`, and its change of colors when the
-- uncle is red.
use osy.Common.{
  ℕ, Bool, true, false, not, ◌∷◌, if◌then◌else◌, ◌≡◌, ◌≢◌, refl, some, Returns, Returns-bind,
  ==_false, Cmd, ◌>>◌,
}
use osy.RbTree.{Nodes, no_node, get_parent, get_left, get_right, is_red, set_red}
use osy.RbTree.Shape.{Tree, leaf, node, Context, join, IsTree}
use osy.RbTree.Place.{
  frame, At, At-ascend, At-descend, At-across, At-across_back, At-root, At-root_join, set_red-At,
  set_red-At_join, side,
}
use osy.RbTree.Colors.{is_red_tree}
use osy.RbTree.Insertion.{uncle_of}

pub get_parent_lem : (s : Nodes) (a : ℕ) → a ≢ no_node → get_parent a s ≡ some (s.parent a, s)
unfolding get_parent
get_parent_lem s a n = rw (==_false a no_node n) refl

pub get_left_lem : (s : Nodes) (a : ℕ) → a ≢ no_node → get_left a s ≡ some (s.left a, s)
unfolding get_left
get_left_lem s a n = rw (==_false a no_node n) refl

pub get_right_lem : (s : Nodes) (a : ℕ) → a ≢ no_node → get_right a s ≡ some (s.right a, s)
unfolding get_right
get_right_lem s a n = rw (==_false a no_node n) refl

pub is_red_lem :
    (s : Nodes) (up p : ℕ) (t : Tree) → IsTree s up p t → is_red p s ≡ some (is_red_tree t, s)
unfolding is_red
is_red_lem s up p leaf h = rw h refl
is_red_lem s up p (node l a c r) h = rw (h.0, ==_false a no_node h.1, h.2) refl

-- The uncle is the other child of the grandparent.
pub uncle_of_lem :
    (s : Nodes) (par gp : ℕ) (e : Bool) (uncle t : Tree) (gs : Context)
    → At s (frame gp false e uncle ∷ gs) par t
    → par ≢ no_node
    → uncle_of gp par s ≡ some ((if e then s.right gp else s.left gp), s)
unfolding uncle_of
uncle_of_lem s par gp true uncle t gs (up, h) n =
    rw (get_left_lem s gp (h.above.1), side s (frame gp false true uncle) gs up par t h n)
      (get_right_lem s gp (h.above.1))
uncle_of_lem s par gp false uncle t gs (up, h) n =
    rw (get_left_lem s gp (h.above.1), side s (frame gp false false uncle) gs up par t h n)
      (get_left_lem s gp (h.above.1))

-- The uncle and the parent get black, and the grandparent red.
pub recolor :
    (s : Nodes) (gs : Context) (par gp u : ℕ) (d e : Bool) (z t ul ur : Tree)
    (m : Cmd Nodes (Unit {0})) (Q : Unit {0} → Nodes → Type 0)
    → At s gs gp (join (frame gp false e (node ul u true ur)) (join (frame par true d z) t))
    → ((s' : Nodes)
        → At s' gs gp (join (frame gp true e (node ul u false ur)) (join (frame par false d z) t))
        → Returns Q (m s'))
    → Returns Q ((do set_red u false; set_red par false; set_red gp true; m) s)
recolor s gs par gp u d e z t ul ur m Q h k =
    let lower = join (frame par true d z) t in
    let across = At-across s gp false e (node ul u true ur) lower gs h in
    let at_u =
      At-root s _ _ u true ul ur
        (At-descend s gp false (not e) lower (node ul u true ur) gs across) in
    Returns-bind (λ _ s1. At s1 (frame gp false (not e) lower ∷ gs) u (node ul u false ur)) Q
      (set_red u false s) _ (set_red-At s _ u true false ul ur at_u)
      λ _ s1 h1.
        let black_u = node ul u false ur in
        let back =
          At-across_back s1 gp false e black_u lower gs
            (At-ascend s1 (frame gp false (not e) lower) gs u black_u h1) in
        let at_par =
          At-root_join s1 _ _ par true d z t (At-descend s1 gp false e black_u lower gs back) in
        let lower' = join (frame par false d z) t in
        Returns-bind (λ _ s2. At s2 (frame gp false e black_u ∷ gs) par lower') Q
          (set_red par false s1) _ (set_red-At_join s1 _ par true false d z t at_par)
          λ _ s2 h2.
            Returns-bind (λ _ s3. At s3 gs gp (join (frame gp true e black_u) lower')) Q
              (set_red gp true s2) _
              (set_red-At_join s2 gs gp false true e black_u lower'
                (At-ascend s2 (frame gp false e black_u) gs par lower' h2))
              λ _ s3 h3. k s3 h3
