-- ===== src/RbTree/Boundary.antt =====
-- kernel/adt/rbtree.c: the rotations of `__rbtree_rebalance_insert`, when the uncle is black.
use osy.Common.{
  ℕ, Bool, true, false, not, List, ◌∷◌, ◌≡◌, refl, sym, Returns, Returns-bind, Returns-mono, Cmd,
  ◌>>◌,
}
use mathlib.Core.List.{append_assoc}
use osy.RbTree.{Nodes, set_red, rotate, rotate_left, rotate_right}
use osy.RbTree.Shape.{Tree, node, Context, join, flat}
use osy.RbTree.Place.{frame, At, At-ascend, At-descend, At-root, set_red-At}
use osy.RbTree.RotateLeft.{rotate_left_lem, LeftRotated}
use osy.RbTree.RotateRight.{rotate_right_lem, RightRotated}
use osy.RbTree.Colors.{is_red_tree, IsRedBlack}
use osy.RbTree.Insertion.{to_boundary}
use osy.RbTree.Recolor.{get_parent_lem}

pub rotate_left-At :
    (s : Nodes) (fs : Context) (a b : ℕ) (ca cb : Bool) (x y z : Tree)
    → At s fs a (node x a ca (node y b cb z))
    → Returns (λ _ t. At t fs b (node (node x a ca y) b cb z)) (rotate a true s)
unfolding rotate
rotate_left-At s fs a b ca cb x y z (up, h) =
    Returns-mono (λ _ t. LeftRotated s fs up a b ca cb x y z t)
      (λ _ t. At t fs b (node (node x a ca y) b cb z)) (rotate_left a s)
      (rotate_left_lem s fs up a b ca cb x y z h) λ _ t k. (up, k.0)

pub rotate_right-At :
    (s : Nodes) (fs : Context) (a b : ℕ) (ca cb : Bool) (x y z : Tree)
    → At s fs a (node (node z b cb y) a ca x)
    → Returns (λ _ t. At t fs b (node z b cb (node y a ca x))) (rotate a false s)
unfolding rotate
rotate_right-At s fs a b ca cb x y z (up, h) =
    Returns-mono (λ _ t. RightRotated s fs up a b ca cb x y z t)
      (λ _ t. At t fs b (node z b cb (node y a ca x))) (rotate_right a s)
      (rotate_right_lem s fs up a b ca cb x y z h) λ _ t k. (up, k.0)

-- A rotation keeps the nodes in order.
pub flat-rotate :
    (x y z : Tree) (a b : ℕ) (ca cb cc cd : Bool)
    → flat (node (node x a ca y) b cb z) ≡ flat (node x a cc (node y b cd z))
flat-rotate x y z a b ca cb cc cd = append_assoc (flat x) (a ∷ flat y) (b ∷ flat z)

-- After the first rotation, a red node that is on the same side as its red parent.
pub record AtBoundary (s : Nodes) (rest : Context) (h : ℕ) (e : Bool) (xs : List ℕ) (n par : ℕ)
    : Type 0 where
  pub x : Tree
  pub y : Tree
  pub z : Tree
  pub place : At s (frame par true e z ∷ rest) n (node x n true y)
  pub colors : IsRedBlack h (node x n true y)
  pub other : IsRedBlack h z
  pub black : is_red_tree z ≡ false
  pub order : flat (join (frame par true e z) (node x n true y)) ≡ xs

pub to_boundary_lem :
    (s : Nodes) (rest : Context) (h : ℕ) (d e : Bool) (n par : ℕ) (x y z : Tree)
    → At s (frame par true d z ∷ rest) n (node x n true y)
    → IsRedBlack h (node x n true y)
    → IsRedBlack h z
    → is_red_tree z ≡ false
    → Returns
        (λ r t. AtBoundary t rest h e (flat (join (frame par true d z) (node x n true y))) r.0 r.1)
        (to_boundary n par d e s)
unfolding to_boundary
to_boundary_lem s rest h true true n par x y z place colors other black = record {
  x = x;
  y = y;
  z = z;
  place = place;
  colors = colors;
  other = other;
  black = black;
  order = refl;
}
to_boundary_lem s rest h false false n par x y z place colors other black = record {
  x = x;
  y = y;
  z = z;
  place = place;
  colors = colors;
  other = other;
  black = black;
  order = refl;
}
to_boundary_lem s rest h false true n par x y z place colors other black =
    Returns-bind (λ _ t. At t rest n (node (node z par true x) n true y)) _ (rotate par true s) _
      (rotate_left-At s rest par n true true z x y
        (At-ascend s (frame par true false z) rest n (node x n true y) place))
      λ _ t k.
        let below = k.1.below.4 in
        rw (get_parent_lem t par below.1, below.3)
          (record {
            x = z;
            y = x;
            z = y;
            place =
                At-root t _ _ par true z x (At-descend t n true true y (node z par true x) rest k);
            colors = (other, colors.0, black, colors.2);
            other = colors.1;
            black = colors.3;
            order = flat-rotate z x y par n true true true true;
          })
to_boundary_lem s rest h true false n par x y z place colors other black =
    Returns-bind (λ _ t. At t rest n (node x n true (node y par true z))) _ (rotate par false s) _
      (rotate_right-At s rest par n true true z y x
        (At-ascend s (frame par true true z) rest n (node x n true y) place))
      λ _ t k.
        let below = k.1.below.5 in
        rw (get_parent_lem t par below.1, below.3)
          (record {
            x = y;
            y = z;
            z = x;
            place =
                At-root t _ _ par true y z (At-descend t n true false x (node y par true z) rest k);
            colors = (colors.1, other, colors.3, black);
            other = colors.0;
            black = colors.2;
            order = sym (flat-rotate x y z n par true true true true);
          })

-- What the parent's other subtree is after the second rotation
abbrev pub sibling : Bool → Tree → ℕ → Tree → Tree
sibling true z gp u = node z gp true u
sibling false z gp u = node u gp true z

-- The second rotation, of the grandparent, and the change of colors after it.
pub turn_outer :
    (s : Nodes) (gs : Context) (n par gp : ℕ) (e : Bool) (x y z u : Tree) (m : Cmd Nodes (Unit {0}))
    (Q : Unit {0} → Nodes → Type 0)
    → At s (frame par true e z ∷ frame gp false e u ∷ gs) n (node x n true y)
    → ((s' : Nodes)
        → At s' (frame par false e (sibling e z gp u) ∷ gs) n (node x n true y)
        → Returns Q (m s'))
    → Returns Q ((do rotate gp (not e); set_red gp true; set_red par false; m) s)
turn_outer s gs n par gp true x y z u m Q h k =
    let t = node x n true y in
    let below =
      At-ascend s (frame gp false true u) gs par (node t par true z)
        (At-ascend s (frame par true true z) (frame gp false true u ∷ gs) n t h) in
    Returns-bind (λ _ s1. At s1 gs par (node t par true (node z gp false u))) Q (rotate gp false s)
      _ (rotate_right-At s gs gp par false true u z t below)
      λ _ s1 h1.
        Returns-bind (λ _ s2. At s2 (frame par true false t ∷ gs) gp (node z gp true u)) Q
          (set_red gp true s1) _
          (set_red-At s1 _ gp false true z u (
            At-root s1 _ _ gp false z u (At-descend s1 par true false t (node z gp false u) gs h1)))
          λ _ s2 h2.
            Returns-bind (λ _ s3. At s3 gs par (node t par false (node z gp true u))) Q
              (set_red par false s2) _
              (set_red-At s2 gs par true false t (node z gp true u)
                (At-ascend s2 (frame par true false t) gs gp (node z gp true u) h2))
              λ _ s3 h3. k s3 (
                At-root s3 _ _ n true x y (At-descend s3 par false true (node z gp true u) t gs h3))
turn_outer s gs n par gp false x y z u m Q h k =
    let t = node x n true y in
    let below =
      At-ascend s (frame gp false false u) gs par (node z par true t)
        (At-ascend s (frame par true false z) (frame gp false false u ∷ gs) n t h) in
    Returns-bind (λ _ s1. At s1 gs par (node (node u gp false z) par true t)) Q (rotate gp true s) _
      (rotate_left-At s gs gp par false true u z t below)
      λ _ s1 h1.
        Returns-bind (λ _ s2. At s2 (frame par true true t ∷ gs) gp (node u gp true z)) Q
          (set_red gp true s1) _
          (set_red-At s1 _ gp false true u z
            (At-root s1 _ _ gp false u z (At-descend s1 par true true t (node u gp false z) gs h1)))
          λ _ s2 h2.
            Returns-bind (λ _ s3. At s3 gs par (node (node u gp true z) par false t)) Q
              (set_red par false s2) _
              (set_red-At s2 gs par true false (node u gp true z) t
                (At-ascend s2 (frame par true true t) gs gp (node u gp true z) h2))
              λ _ s3 h3. k s3 (
                At-root s3 _ _ n true x y
                  (At-descend s3 par false false (node u gp true z) t gs h3))

pub flat-turn_outer :
    (e : Bool) (z u t : Tree) (par gp : ℕ)
    → flat (join (frame par false e (sibling e z gp u)) t)
      ≡ flat (join (frame gp false e u) (join (frame par true e z) t))
flat-turn_outer true z u t par gp = sym (flat-rotate t z u par gp true false false true)
flat-turn_outer false z u t par gp = flat-rotate u z t gp par true false false true

pub IsRedBlack-sibling :
    (h : ℕ) (e : Bool) (z u : Tree) (gp : ℕ)
    → IsRedBlack h z
    → IsRedBlack h u
    → is_red_tree z ≡ false
    → is_red_tree u ≡ false
    → IsRedBlack h (sibling e z gp u)
IsRedBlack-sibling h true z u gp hz hu bz bu = (hz, hu, bz, bu)
IsRedBlack-sibling h false z u gp hz hu bz bu = (hu, hz, bu, bz)

-- Anywhere in a tree, a left rotation of a node with a right child does not fail and turns the two,
-- which keeps the nodes in order; a right rotation of the child, which is above then, does not fail
-- and gives the tree of before.
pub rotate-rotate :
    (s : Nodes) (fs : Context) (a b : ℕ) (ca cb : Bool) (x y z : Tree)
    → At s fs a (node x a ca (node y b cb z))
    → (flat (node (node x a ca y) b cb z) ≡ flat (node x a ca (node y b cb z)))
      × Returns
          (λ _ t.
            At t fs b (node (node x a ca y) b cb z)
            × Returns (λ _ u. At u fs a (node x a ca (node y b cb z))) (rotate b false t))
          (rotate a true s)
rotate-rotate s fs a b ca cb x y z h = (
  flat-rotate x y z a b ca cb ca cb,
  Returns-mono (λ _ t. At t fs b (node (node x a ca y) b cb z)) _ (rotate a true s)
      (rotate_left-At s fs a b ca cb x y z h) λ _ t k. (k, rotate_right-At t fs b a cb ca z y x k),
)
