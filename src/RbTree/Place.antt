-- ===== src/RbTree/Place.antt =====
-- Moving between places of the tree that the nodes of kernel/adt/rbtree.h form.
use osy.Common.{
  ℕ, Bool, true, false, [], ◌∷◌, ◌==◌, if◌then◌else◌, ◌≡◌, ◌≢◌, refl, sym, ◌∙◌, arith, Bool-cases,
  inl, inr, subst, not, Returns, Returns-mono, ==_false,
}
use osy.RbTree.{Nodes, no_node, set_red, put}
use osy.RbTree.Shape.{
  Tree, node, Frame, Context, join, plug, IsTree, IsContext, Holds, IsTree-frame, IsContext-frame,
  count_root,
}

pub Holds-at :
    (s : Nodes) (fs : Context) (up p a : ℕ) (c : Bool) (l r : Tree)
    → Holds s fs up p (node l a c r)
    → Holds s fs up a (node l a c r)
Holds-at s fs up p a c l r h = subst (λ q. Holds s fs up q (node l a c r)) (h.below.0) h

pub down_left :
    (s : Nodes) (fs : Context) (up a : ℕ) (c : Bool) (l r : Tree)
    → Holds s fs up a (node l a c r)
    → Holds s ((record { at = a; red = c; is_left = true; other = r }) ∷ fs) a (s.left a) l
down_left s fs up a c l r h = record {
  above = (
    refl,
    h.below.1,
    h.below.2,
    refl,
    h.below.5,
    subst (λ u. IsContext s u a fs) (sym h.below.3) h.above,
  );
  below = h.below.4;
  unique = λ b. omega (arith, h.unique b);
}

pub down_right :
    (s : Nodes) (fs : Context) (up a : ℕ) (c : Bool) (l r : Tree)
    → Holds s fs up a (node l a c r)
    → Holds s ((record { at = a; red = c; is_left = false; other = l }) ∷ fs) a (s.right a) r
down_right s fs up a c l r h = record {
  above = (
    refl,
    h.below.1,
    h.below.2,
    refl,
    h.below.4,
    subst (λ u. IsContext s u a fs) (sym h.below.3) h.above,
  );
  below = h.below.5;
  unique = λ b. omega (arith, h.unique b);
}

pub ascend :
    (s : Nodes) (f : Frame) (fs : Context) (up p : ℕ) (t : Tree)
    → Holds s (f ∷ fs) up p t
    → Holds s fs (s.parent f.at) f.at (join f t)
ascend s f fs up p t h =
    let c = h.above in
    let tree = subst (λ u. IsTree s u p t) c.0 h.below in
    elim (Bool-cases f.is_left) [
      | inl e ↦
          let link : s.left f.at ≡ p = rw e at (c.3) in
          let beside : IsTree s f.at (s.right f.at) f.other = rw e at (c.4) in
          record {
            above = c.5;
            below =
                rw e
                  (refl, c.1, c.2, refl, (subst (λ q. IsTree s f.at q t) (sym link) tree), beside);
            unique = λ b. rw e (omega (arith, h.unique b));
          }
      | inr e ↦
          let link : s.right f.at ≡ p = rw e at (c.3) in
          let beside : IsTree s f.at (s.left f.at) f.other = rw e at (c.4) in
          record {
            above = c.5;
            below =
                rw e
                  (refl, c.1, c.2, refl, beside, (subst (λ q. IsTree s f.at q t) (sym link) tree));
            unique = λ b. rw e (omega (arith, h.unique b));
          }
    ]

-- Which child of its parent a node is, as the code tests it
pub side :
    (s : Nodes) (f : Frame) (fs : Context) (up p : ℕ) (t : Tree)
    → Holds s (f ∷ fs) up p t
    → p ≢ no_node
    → (s.left f.at == p) ≡ f.is_left
side s f fs up p t h some_p =
    let c = h.above in
    let root = count_root s up p t h.below some_p in
    elim (Bool-cases f.is_left) [
      | inl e ↦ let link : s.left f.at ≡ p = rw e at (c.3) in rw e (ground (arith, link))
      | inr e ↦
          let beside : IsTree s f.at (s.left f.at) f.other = rw e at (c.4) in
          rw e (ground (arith, h.unique p, root, count_root s f.at (s.left f.at) f.other beside))
    ]

-- The whole tree from a place of it
pub plug_lem :
    (s : Nodes) (fs : Context) (up p : ℕ) (t : Tree)
    → Holds s fs up p t
    → Holds s [] no_node s.root (plug fs t)
plug_lem s [] up p t h =
    let root = h.above.1 in
    record {
      above = (refl, refl);
      below = subst (λ u. IsTree s u s.root t) h.above.0 (rw root h.below);
      unique = h.unique;
    }
plug_lem s (f ∷ fs) up p t h = plug_lem s fs _ _ (join f t) (ascend s f fs up p t h)

pub plug-root :
    (s : Nodes) (fs : Context) (up p : ℕ) → IsContext s up p fs → p ≢ no_node → s.root ≢ no_node
plug-root s [] up p h n = λ e. n (sym h.1 ∙ e)
plug-root s (f ∷ fs) up p h n = plug-root s fs _ f.at h.5 h.1

-- The color of a node is changed.
pub set_red_lem :
    (s : Nodes) (fs : Context) (up a : ℕ) (c d : Bool) (l r : Tree)
    → Holds s fs up a (node l a c r)
    → Returns (λ _ t. Holds t fs up a (node l a d r)) (set_red a d s)
unfolding set_red
set_red_lem s fs up a c d l r h =
    let k = h.below in
    let t : Nodes = record s { red = put s.red a d } in
    rw (==_false a no_node k.1) (record {
      above =
          IsContext-frame s t up a fs h.above
            (λ b o. (refl, refl, refl, ground (arith, h.unique b))) refl;
      below = (
        refl,
        k.1,
        ground arith,
        k.3,
        IsTree-frame s t a (s.left a) l k.4 (λ b o. (refl, refl, refl, ground (arith, h.unique b))),
        IsTree-frame s t a (s.right a) r k.5
            (λ b o. (refl, refl, refl, ground (arith, h.unique b))),
      );
      unique = h.unique;
    })

abbrev pub frame : ℕ → Bool → Bool → Tree → Frame
frame a c d o = record { at = a; red = c; is_left = d; other = o }

-- The tree at a place, whatever is above it
abbrev pub At : Nodes → Context → ℕ → Tree → Type 0
At s fs p t = (up : ℕ) × Holds s fs up p t

pub At-ascend :
    (s : Nodes) (f : Frame) (fs : Context) (p : ℕ) (t : Tree)
    → At s (f ∷ fs) p t
    → At s fs f.at (join f t)
At-ascend s f fs p t (up, h) = (s.parent f.at, ascend s f fs up p t h)

-- From a node to one of its children
pub At-descend :
    (s : Nodes) (a : ℕ) (c d : Bool) (o t : Tree) (fs : Context)
    → At s fs a (join (frame a c d o) t)
    → At s (frame a c d o ∷ fs) (if d then s.left a else s.right a) t
At-descend s a c true o t fs (up, h) = (a, down_left s fs up a c t o h)
At-descend s a c false o t fs (up, h) = (a, down_right s fs up a c o t h)

-- The other child in its place
pub At-across :
    (s : Nodes) (a : ℕ) (c d : Bool) (o t : Tree) (fs : Context)
    → At s fs a (join (frame a c d o) t)
    → At s fs a (join (frame a c (not d) t) o)
At-across s a c true o t fs h = h
At-across s a c false o t fs h = h

pub At-across_back :
    (s : Nodes) (a : ℕ) (c d : Bool) (o t : Tree) (fs : Context)
    → At s fs a (join (frame a c (not d) t) o)
    → At s fs a (join (frame a c d o) t)
At-across_back s a c true o t fs h = h
At-across_back s a c false o t fs h = h

pub At-root :
    (s : Nodes) (fs : Context) (p a : ℕ) (c : Bool) (l r : Tree)
    → At s fs p (node l a c r)
    → At s fs a (node l a c r)
At-root s fs p a c l r (up, h) = (up, Holds-at s fs up p a c l r h)

pub At-root_join :
    (s : Nodes) (fs : Context) (p a : ℕ) (c d : Bool) (o t : Tree)
    → At s fs p (join (frame a c d o) t)
    → At s fs a (join (frame a c d o) t)
At-root_join s fs p a c true o t h = At-root s fs p a c t o h
At-root_join s fs p a c false o t h = At-root s fs p a c o t h

pub set_red-At :
    (s : Nodes) (fs : Context) (a : ℕ) (c c' : Bool) (l r : Tree)
    → At s fs a (node l a c r)
    → Returns (λ _ t. At t fs a (node l a c' r)) (set_red a c' s)
set_red-At s fs a c c' l r (up, h) =
    Returns-mono (λ _ t. Holds t fs up a (node l a c' r)) (λ _ t. At t fs a (node l a c' r))
      (set_red a c' s) (set_red_lem s fs up a c c' l r h) λ _ t k. (up, k)

pub set_red-At_join :
    (s : Nodes) (fs : Context) (a : ℕ) (c c' d : Bool) (o x : Tree)
    → At s fs a (join (frame a c d o) x)
    → Returns (λ _ t. At t fs a (join (frame a c' d o) x)) (set_red a c' s)
set_red-At_join s fs a c c' true o x h = set_red-At s fs a c c' x o h
set_red-At_join s fs a c c' false o x h = set_red-At s fs a c c' o x h
