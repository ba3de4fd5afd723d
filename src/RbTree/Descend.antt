-- ===== src/RbTree/Descend.antt =====
-- kernel/adt/rbtree.c: the rounds of `__rbtree_rebalance_delete`.
use osy.Common.{
  ℕ, suc, Bool, true, false, not, [], ◌∷◌, if◌then◌else◌, ◌≡◌, refl, ◌∙◌, arith, Bool-cases, inl,
  inr, some, Returns, Returns-bind, ==_false, ◌>>◌, ◌>>=◌,
}
use osy.RbTree.{Nodes, no_node, get_red, get_root, set_red, rotate}
use osy.RbTree.Shape.{Tree, node, Context, join, plug, flat}
use osy.RbTree.Place.{
  frame, At, At-ascend, At-descend, At-across, At-across_back, At-root, At-root_join, set_red-At,
  set_red-At_join, plug_lem,
}
use osy.RbTree.Colors.{
  is_red_tree-join, IsRedBlack, IsRedBlack-join, IsRedBlack-plug, FitsAt, HasBlackParent,
  HasBlackParent-is_red, Finished, IsRedBlack-blacken, flat-plug_eq,
}
use osy.RbTree.Sides.{rotate-At, flat-rotate_join, flat-recolored}
use osy.RbTree.Borrow.{AtTurned}

get_red-At :
    (s : Nodes) (fs : Context) (a : ℕ) (c d : Bool) (o t : Tree)
    → At s fs a (join (frame a c d o) t)
    → get_red a s ≡ some (c, s)
unfolding get_red
get_red-At s fs a c true o t h = rw (==_false a no_node h.1.below.1, h.1.below.2) refl
get_red-At s fs a c false o t h = rw (==_false a no_node h.1.below.1, h.1.below.2) refl

-- The colors after the rotation of the parent
module _ (gs : Context) (h par top inner : ℕ) (c d : Bool) (t close x y : Tree) where
  abbrev lower : Bool → Tree
  lower k = join (frame par k d close) t

  abbrev apart : Bool → Tree
  apart k = node x inner k y

  paint :
      (s : Nodes) (goal : ℕ → Nodes → Type 0)
      → At s gs top (join (frame top false d (apart true)) (lower c))
      → ((v : Nodes)
          → At v gs top (join (frame top c d (apart false)) (lower false))
          → goal v.root v)
      → Returns goal (
          (do
            color ← get_red par
            set_red top color
            set_red par false
            set_red inner false
            get_root)
            s)
  unfolding get_root
  paint s goal place k =
      let at_par =
        At-root_join s _ _ par c d close t
          (At-descend s top false d (apart true) (lower c) gs place) in
      rw (get_red-At s _ par c d close t at_par) (
        Returns-bind (λ _ v. At v gs top (join (frame top c d (apart true)) (lower c))) goal
          (set_red top c s) _ (set_red-At_join s gs top false c d (apart true) (lower c) place)
          λ _ s1 h1.
            Returns-bind (λ _ v. At v (frame top c d (apart true) ∷ gs) par (lower false)) goal
              (set_red par false s1) _
              (set_red-At_join s1 _ par c false d close t (
                At-root_join s1 _ _ par c d close t
                  (At-descend s1 top c d (apart true) (lower c) gs h1)))
              λ _ s2 h2.
                let up = At-ascend s2 (frame top c d (apart true)) gs par (lower false) h2 in
                let low = lower false in
                Returns-bind (λ _ v. At v (frame top c (not d) low ∷ gs) inner (apart false)) goal
                  (set_red inner false s2) _
                  (set_red-At s2 _ inner true false x y (
                    At-root s2 _ _ inner true x y (
                      At-descend s2 top c (not d) low (apart true) gs
                        (At-across s2 top c d (apart true) low gs up))))
                  λ _ s3 h3. k s3 (
                    At-across_back s3 top c d (apart false) low gs
                      (At-ascend s3 (frame top c (not d) low) gs inner (apart false) h3)))

  IsRedBlack-settled :
      IsRedBlack h t
      → IsRedBlack h close
      → IsRedBlack h (apart true)
      → IsRedBlack
          (if c then suc h else suc (suc h))
          (join (frame top c d (apart false)) (lower false))
  IsRedBlack-settled ht hc hi =
      IsRedBlack-join (suc h) (frame top c d (apart false)) (lower false)
        (IsRedBlack-join h (frame par false d close) t ht hc (λ e. ground (arith, e)))
        (h, refl, hi.0, hi.1) (λ e. (is_red_tree-join (frame par false d close) t, refl))

pub settle :
    (s : Nodes) (gs : Context) (h par inner top : ℕ) (c d : Bool) (t sib : Tree)
    → AtTurned s gs h par c d t (flat sib) inner top
    → IsRedBlack h t
    → FitsAt (if c then suc h else suc (suc h)) gs
    → (c ≡ true → HasBlackParent gs)
    → Returns
        (λ r v. Finished v r (flat (plug gs (join (frame par c d sib) t))))
        ((do
          rotate par d
          color ← get_red par
          set_red top color
          set_red par false
          set_red inner false
          get_root)
          s)
settle s gs h par inner top c d t sib b ht fits above =
    let goal : ℕ → Nodes → Type 0 =
      λ r v. Finished v r (flat (plug gs (join (frame par c d sib) t))) in
    let inside =
      join (frame top c d (node b.x inner false b.y)) (join (frame par false d b.close) t) in
    Returns-bind
      (λ _ v.
        At v gs top
          (join (frame top false d (node b.x inner true b.y)) (join (frame par c d b.close) t)))
      goal (rotate par d s) _
      (rotate-At s gs d par top c false t b.close (node b.x inner true b.y) b.place)
      λ _ s1 h1. paint gs h par top inner c d t b.close b.x b.y s1 goal h1 λ v place.
        let whole =
          IsRedBlack-plug (if c then suc h else suc (suc h)) gs inside fits
            (IsRedBlack-settled gs h par top inner c d t b.close b.x b.y ht b.close_colors
              b.inner_colors)
            (λ r.
              is_red_tree-join (frame top c d (node b.x inner false b.y))
                (join (frame par false d b.close) t)
              ∙ elim (Bool-cases c) [
                | inl e ↦ ground (arith, r, HasBlackParent-is_red gs (above e))
                | inr e ↦ e
              ]) in
        let black = IsRedBlack-blacken whole.0 (plug gs inside) whole.1 in
        record {
          context = [];
          tree = plug gs inside;
          place = (no_node, plug_lem v gs place.0 top inside place.1);
          height = black.0;
          colors = black.1;
          fits = tt;
          order = flat-plug_eq gs _ _ (
              flat-rotate_join d par top false c c false t b.close (node b.x inner false b.y)
              ∙ flat-recolored d par c c
                  (join (frame top false d (node b.x inner false b.y)) b.close) sib t t
                  (flat-recolored d top false false (node b.x inner false b.y)
                      (node b.x inner true b.y) b.close b.close refl refl
                    ∙ b.order)
                  refl);
        }
