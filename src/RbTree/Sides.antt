-- ===== src/RbTree/Sides.antt =====
-- Trees and places of kernel/adt/rbtree.c seen from one side, which `nleft` tells, so that a case
-- and its mirror image are one.
use osy.Common.{
  ℕ, suc, Bool, true, false, not, ◌∷◌, ◌==◌, if◌then◌else◌, ◌≡◌, ◌≢◌, refl, sym, ◌∙◌, ap, arith,
  Bool-cases, inl, inr, some, Returns, ==_false, ==_self,
}
use osy.RbTree.{Nodes, no_node, is_black, rotate}
use osy.RbTree.Shape.{Tree, leaf, node, Context, join, flat, IsTree, count_root}
use osy.RbTree.Place.{frame, At}
use osy.RbTree.Colors.{is_red_tree, IsRedBlack}
use osy.RbTree.Boundary.{rotate_left-At, rotate_right-At, flat-rotate}
use osy.RbTree.Deletion.{get_child}
use osy.RbTree.Recolor.{get_left_lem, get_right_lem}

-- The subtree of a node on the side, and the other one
abbrev pub near : Bool → Tree → Tree → Tree
near d l r = if d then l else r

abbrev pub far : Bool → Tree → Tree → Tree
far d l r = if d then r else l

pub join-node :
    (d : Bool) (l : Tree) (a : ℕ) (c : Bool) (r : Tree)
    → node l a c r ≡ join (frame a c d (far d l r)) (near d l r)
join-node true l a c r = refl
join-node false l a c r = refl

pub join-across :
    (d : Bool) (a : ℕ) (c : Bool) (o t : Tree)
    → join (frame a c d o) t ≡ join (frame a c (not d) t) o
join-across true a c o t = refl
join-across false a c o t = refl

pub rotate-At :
    (s : Nodes) (fs : Context) (d : Bool) (a b : ℕ) (ca cb : Bool) (x y z : Tree)
    → At s fs a (join (frame a ca d (join (frame b cb d z) y)) x)
    → Returns (λ _ t. At t fs b (join (frame b cb d z) (join (frame a ca d y) x))) (rotate a d s)
rotate-At s fs true a b ca cb x y z h = rotate_left-At s fs a b ca cb x y z h
rotate-At s fs false a b ca cb x y z h = rotate_right-At s fs a b ca cb x y z h

pub flat-rotate_join :
    (d : Bool) (a b : ℕ) (ca cb cc cd : Bool) (x y z : Tree)
    → flat (join (frame b cb d z) (join (frame a ca d y) x))
      ≡ flat (join (frame a cc d (join (frame b cd d z) y)) x)
flat-rotate_join true a b ca cb cc cd x y z = flat-rotate x y z a b ca cb cc cd
flat-rotate_join false a b ca cb cc cd x y z = sym (flat-rotate z y x b a cd cc cb ca)

pub flat-recolored :
    (d : Bool) (a : ℕ) (c c' : Bool) (o o' t t' : Tree)
    → flat o ≡ flat o'
    → flat t ≡ flat t'
    → flat (join (frame a c d o) t) ≡ flat (join (frame a c' d o') t')
flat-recolored true a c c' o o' t t' e f = rw (e, f) refl
flat-recolored false a c c' o o' t t' e f = rw (e, f) refl

-- What a black, or a red, node says of its subtrees
pub IsRedBlack-black :
    (h a : ℕ) (d : Bool) (o t : Tree)
    → IsRedBlack h (join (frame a false d o) t)
    → (k : ℕ) × (h ≡ suc k) × IsRedBlack k t × IsRedBlack k o
IsRedBlack-black h a true o t b = b
IsRedBlack-black h a false o t b = (b.0, b.1, b.3, b.2)

pub IsRedBlack-red :
    (h a : ℕ) (d : Bool) (o t : Tree)
    → IsRedBlack h (join (frame a true d o) t)
    → IsRedBlack h t × IsRedBlack h o × (is_red_tree t ≡ false) × (is_red_tree o ≡ false)
IsRedBlack-red h a true o t b = b
IsRedBlack-red h a false o t b = (b.1, b.0, b.3, b.2)

-- The address of the other child, as the code reads it
pub get_child_lem :
    (s : Nodes) (a : ℕ) (d : Bool)
    → a ≢ no_node
    → get_child d a s ≡ some ((if d then s.left a else s.right a), s)
unfolding get_child
get_child_lem s a true n = get_left_lem s a n
get_child_lem s a false n = get_right_lem s a n

pub other_child :
    (s : Nodes) (gs : Context) (p par b : ℕ) (c oc d : Bool) (ol or t : Tree)
    → At s (frame par c d (node ol b oc or) ∷ gs) p t
    → get_child (not d) par s ≡ some (b, s)
other_child s gs p par b c oc true ol or t h =
    get_child_lem s par false h.1.above.1 ∙ ap (λ q. some (q, s)) h.1.above.4.0
other_child s gs p par b c oc false ol or t h =
    get_child_lem s par true h.1.above.1 ∙ ap (λ q. some (q, s)) h.1.above.4.0

pub is_black_lem :
    (s : Nodes) (up p : ℕ) (t : Tree)
    → IsTree s up p t
    → is_black p s ≡ some (not (is_red_tree t), s)
unfolding is_black
is_black_lem s up p leaf h = rw h refl
is_black_lem s up p (node l a c r) h = rw (h.0, ==_false a no_node h.1, h.2) refl

-- A place is on the side of its frame, where the sibling is a node.
pub own_side :
    (s : Nodes) (gs : Context) (p par b : ℕ) (c oc d : Bool) (ol or t : Tree)
    → At s (frame par c d (node ol b oc or) ∷ gs) p t
    → (p == s.left par) ≡ d
own_side s gs p par b c oc true ol or t (up, h) = rw (h.above.3, ==_self p) refl
own_side s gs p par b c oc false ol or t (up, h) =
    let left : s.left par ≡ b = h.above.4.0 in
    let root = count_root s up p t h.below in
    elim (Bool-cases (p == no_node)) [
      | inl e ↦ ground (arith, e, left, h.above.4.1)
      | inr e ↦ ground (arith, e, left, h.unique b, root (λ i. ground (arith, i, e)))
    ]

pub node-join :
    (d : Bool) (a : ℕ) (c : Bool) (o t : Tree)
    → join (frame a c d o) t ≡ node (near d t o) a c (far d t o)
node-join true a c o t = refl
node-join false a c o t = refl
