-- ===== src/RbTree/Rebalance.antt =====
-- kernel/adt/rbtree.c: a round of the loop of `__rbtree_rebalance_insert`, from a red node on.
use osy.Common.{
  ℕ, suc, ◌+◌, ◌<◌, Bool, true, false, not, List, [], ◌∷◌, ◌==◌, if◌then◌else◌, ◌≡◌, ◌≢◌, refl, ◌∙◌,
  arith, subst, some, Returns, Returns-bind, ==_false, length, ◌>>◌, ◌>>=◌,
}
use osy.RbTree.{Nodes, no_node, set_red, is_red, rotate, get_left}
use osy.RbTree.Shape.{Tree, leaf, node, Context, join, plug, flat, IsTree, Holds}
use osy.RbTree.Place.{frame, At, At-ascend, side, plug_lem, plug-root}
use osy.RbTree.Colors.{
  is_red_tree, IsRedBlack, FitsAt, is_red_context, Balanced, IsRedBlack-join, IsRedBlack-plug,
  is_red_tree-join, flat-plug_eq, flat-join_eq,
}
use osy.RbTree.Insertion.{to_boundary, climb}
use osy.RbTree.Recolor.{get_parent_lem, get_left_lem, is_red_lem, uncle_of_lem, recolor}
use osy.RbTree.Boundary.{
  AtBoundary, to_boundary_lem, turn_outer, flat-turn_outer, IsRedBlack-sibling, sibling,
}

-- The nodes form a tree that is red-black but for its root's color, and that is not empty.
abbrev pub Climbed : Nodes → List ℕ → Type 0
Climbed t xs = Balanced t xs × (t.root ≢ no_node)

pub record Red (s : Nodes) (fs : Context) (h p : ℕ) (l r : Tree) : Type 0 where
  pub place : At s fs p (node l p true r)
  pub colors : IsRedBlack h (node l p true r)
  pub fits : FitsAt h fs

-- The loop has nothing to do below a black node, or at the root.
pub stop :
    (s : Nodes) (fs : Context) (h p : ℕ) (l r : Tree)
    → Red s fs h p l r
    → is_red_context fs ≡ false
    → Climbed s (flat (plug fs (node l p true r)))
stop s fs h p l r k black =
    let at = k.place.1 in
    let whole =
      IsRedBlack-plug h fs (node l p true r) k.fits k.colors (λ e. ground (arith, e, black)) in
    (
      record {
        tree = plug fs (node l p true r);
        holds = plug_lem s fs _ p (node l p true r) at;
        height = whole.0;
        colors = whole.1;
        order = refl;
      },
      plug-root s fs _ p at.above at.below.1,
    )

-- The color of what is above a place, as the code reads it
pub parent_red :
    (s : Nodes) (fs : Context) (up p : ℕ) (t : Tree)
    → Holds s fs up p t
    → is_red up s ≡ some (is_red_context fs, s)
unfolding is_red
parent_red s [] up p t h = rw (h.above.0) refl
parent_red s (f ∷ fs) up p t h = rw (h.above.0, ==_false f.at no_node h.above.1, h.above.2) refl

-- What a step of the loop may rely on: the rest of it, from a place that is higher up.
abbrev pub Climbs : ℕ → Type 0
Climbs fuel =
    (s : Nodes) (fs : Context) (h p : ℕ) (l r : Tree)
    → Red s fs h p l r
    → length fs < fuel
    → Returns (λ _ t. Climbed t (flat (plug fs (node l p true r)))) (climb fuel p s)

recolored :
    (fuel : ℕ) (s : Nodes) (gs : Context) (h gp u : ℕ) (e : Bool) (ul ur t : Tree)
    → Climbs fuel
    → At s gs gp (join (frame gp true e (node ul u false ur)) t)
    → IsRedBlack h (node ul u true ur)
    → IsRedBlack (suc h) t
    → is_red_tree t ≡ false
    → FitsAt (suc h) gs
    → length gs < fuel
    → Returns
        (λ _ v. Climbed v (flat (plug gs (join (frame gp true e (node ul u false ur)) t))))
        (climb fuel gp s)
recolored fuel s gs h gp u true ul ur t next at uncle tree black fits enough =
    next s gs (suc h) gp t (node ul u false ur)
      (record {
        place = at;
        colors = (tree, (h, refl, uncle.0, uncle.1), black, refl);
        fits = fits;
      })
      enough
recolored fuel s gs h gp u false ul ur t next at uncle tree black fits enough =
    next s gs (suc h) gp (node ul u false ur) t
      (record {
        place = at;
        colors = ((h, refl, uncle.0, uncle.1), tree, refl, black);
        fits = fits;
      })
      enough

flat-recolor :
    (gp par u : ℕ) (d e : Bool) (ul ur z t : Tree)
    → flat (join (frame gp true e (node ul u false ur)) (join (frame par false d z) t))
      ≡ flat (join (frame gp false e (node ul u true ur)) (join (frame par true d z) t))
flat-recolor gp par u true true ul ur z t = refl
flat-recolor gp par u true false ul ur z t = refl
flat-recolor gp par u false true ul ur z t = refl
flat-recolor gp par u false false ul ur z t = refl

module _ (fuel : ℕ) (s : Nodes) (gs : Context) (h n par gp : ℕ) (d e : Bool) (x y z : Tree)
    (next : Climbs fuel) (enough : length gs + 2 < suc fuel) where
  -- The uncle is black: one or two rotations, after which the loop stops.
  turn :
      (u : Tree)
      → Red s (frame par true d z ∷ frame gp false e u ∷ gs) h n x y
      → is_red_tree u ≡ false
      → Returns
          (λ _ t. Climbed t (
            flat
              (plug gs (join (frame gp false e u) (join (frame par true d z) (node x n true y))))))
          ((do
            (n', par') ← to_boundary n par d e
            rotate gp (not e)
            set_red gp true
            set_red par' false
            climb fuel n')
            s)
  turn u k black =
      let whole =
        plug gs (join (frame gp false e u) (join (frame par true d z) (node x n true y))) in
      Returns-bind
        (λ r t.
          AtBoundary t (frame gp false e u ∷ gs) h e
            (flat (join (frame par true d z) (node x n true y))) r.0 r.1)
        (λ _ t. Climbed t (flat whole)) (to_boundary n par d e s) _
        (to_boundary_lem s (frame gp false e u ∷ gs) h d e n par x y z k.place k.colors k.fits.0
          (k.fits.1 refl).0)
        λ r s1 b.
          turn_outer s1 gs r.0 r.1 gp e b.x b.y b.z u (climb fuel r.0)
            (λ _ t. Climbed t (flat whole)) b.place
            λ s2 at.
              let t = node b.x r.0 true b.y in
              let f = frame r.1 false e (sibling e b.z gp u) in
              let order : flat (plug gs (join f t)) ≡ flat whole = flat-plug_eq gs _ _ (
                flat-turn_outer e b.z u t r.1 gp ∙ flat-join_eq (frame gp false e u) _ _ b.order) in
              subst (λ xs. Returns (λ _ v. Climbed v xs) (climb fuel r.0 s2)) order
                (next s2 (f ∷ gs) h r.0 b.x b.y
                  (record {
                    place = at;
                    colors = b.colors;
                    fits = (
                      IsRedBlack-sibling h e b.z u gp b.other k.fits.2.0 b.black black,
                      (λ e. ground (arith, e)),
                      k.fits.2.2,
                    );
                  })
                  (omega (arith, enough)))

  -- The uncle is red: new colors, and the loop goes on from the grandparent.
  repaint :
      (u : ℕ) (ul ur : Tree)
      → Red s (frame par true d z ∷ frame gp false e (node ul u true ur) ∷ gs) h n x y
      → Returns
          (λ _ t. Climbed t (
            flat (
              plug gs (
                join
                  (frame gp false e (node ul u true ur))
                  (join (frame par true d z) (node x n true y))))))
          ((do set_red u false; set_red par false; set_red gp true; climb fuel gp) s)
  repaint u ul ur k =
      let t = node x n true y in
      let lower = join (frame par false d z) t in
      let whole =
        plug gs (join (frame gp false e (node ul u true ur)) (join (frame par true d z) t)) in
      recolor s gs par gp u d e z t ul ur (climb fuel gp) (λ _ v. Climbed v (flat whole))
        (At-ascend s (frame gp false e (node ul u true ur)) gs par (join (frame par true d z) t) (
          At-ascend s (frame par true d z) (frame gp false e (node ul u true ur) ∷ gs) n t k.place))
        λ s1 at.
          subst (λ xs. Returns (λ _ v. Climbed v xs) (climb fuel gp s1))
            (flat-plug_eq gs _ _ (flat-recolor gp par u d e ul ur z t))
            (recolored fuel s1 gs h gp u e ul ur lower next at k.fits.2.0
              (IsRedBlack-join h (frame par false d z) t k.colors k.fits.0 (λ i. ground (arith, i)))
              (is_red_tree-join (frame par false d z) t) k.fits.2.2 (omega (arith, enough)))

  -- The same, with the tests that tell the sides
  turn_read :
      (u : Tree)
      → Red s (frame par true d z ∷ frame gp false e u ∷ gs) h n x y
      → is_red_tree u ≡ false
      → Returns
          (λ _ t. Climbed t (
            flat
              (plug gs (join (frame gp false e u) (join (frame par true d z) (node x n true y))))))
          ((do
            l ← get_left par
            gl ← get_left gp
            (n', par') ← to_boundary n par (l == n) (gl == par)
            rotate gp (not (gl == par))
            set_red gp true
            set_red par' false
            climb fuel n')
            s)
  turn_read u k black =
      let (up, at) = k.place in
      let above = at.above in
      let lower =
        At-ascend s (frame par true d z) (frame gp false e u ∷ gs) n (node x n true y) (up, at) in
      rw
        (
          get_left_lem s par above.1,
          get_left_lem s gp above.5.1,
          side s (frame par true d z) _ up n _ at at.below.1,
          side s (frame gp false e u) _ _ par _ lower.1 above.1,
        )
        (turn u k black)

  -- The two ways of a round, by the uncle's color
  by_uncle :
      (u : Tree) (v : ℕ)
      → IsTree s gp v u
      → Red s (frame par true d z ∷ frame gp false e u ∷ gs) h n x y
      → Returns
          (λ _ t. Climbed t (
            flat
              (plug gs (join (frame gp false e u) (join (frame par true d z) (node x n true y))))))
          ((if is_red_tree u
              then (do set_red v false; set_red par false; set_red gp true; climb fuel gp)
              else (do
                l ← get_left par
                gl ← get_left gp
                (n', par') ← to_boundary n par (l == n) (gl == par)
                rotate gp (not (gl == par))
                set_red gp true
                set_red par' false
                climb fuel n'))
            s)
  by_uncle leaf v at k = turn_read leaf k refl
  by_uncle (node ul u true ur) v at k = rw (at.0) (repaint u ul ur k)
  by_uncle (node ul u false ur) v at k = turn_read (node ul u false ur) k refl

  -- One round of the loop, below a red parent.
  pub climb_step :
      (u : Tree)
      → Red s (frame par true d z ∷ frame gp false e u ∷ gs) h n x y
      → Returns
          (λ _ t. Climbed t (
            flat
              (plug gs (join (frame gp false e u) (join (frame par true d z) (node x n true y))))))
          (climb (suc fuel) n s)
  unfolding climb
  climb_step u k =
      let (up, at) = k.place in
      let lower =
        At-ascend s (frame par true d z) (frame gp false e u ∷ gs) n (node x n true y) (up, at) in
      let above = at.above in
      let up_par : s.parent n ≡ par = at.below.3 ∙ above.0 in
      let red_par : is_red par s ≡ some (true, s) =
        subst (λ p. is_red p s ≡ some (true, s)) above.0 (parent_red s _ up n _ at) in
      let up_gp : s.parent par ≡ gp = above.5.0 in
      let uncle =
        uncle_of_lem s par gp e u (join (frame par true d z) (node x n true y)) gs lower above.1 in
      let beside : IsTree s gp (if e then s.right gp else s.left gp) u = above.5.4 in
      rw
        (
          get_parent_lem s n at.below.1,
          up_par,
          red_par,
          get_parent_lem s par above.1,
          up_gp,
          uncle,
          is_red_lem s gp _ u beside,
        )
        (by_uncle u _ beside k)
