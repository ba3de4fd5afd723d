-- ===== src/RbTree/Borrow.antt =====
-- kernel/adt/rbtree.c: the end of `__rbtree_rebalance_delete` when the sibling has a red child.
use osy.Common.{
  ℕ, Bool, true, false, not, List, ◌∷◌, if◌then◌else◌, ◌≡◌, ◌≢◌, refl, sym, ◌∙◌, ap, arith, subst,
  Returns, Returns-bind, ◌>>◌, pure,
}
use osy.RbTree.{Nodes, no_node, set_red, rotate}
use osy.RbTree.Shape.{Tree, leaf, node, Context, join, flat, IsTree}
use osy.RbTree.Place.{
  frame, At, At-ascend, At-descend, At-across, At-across_back, At-root_join, set_red-At_join,
}
use osy.RbTree.Colors.{is_red_tree, IsRedBlack}
use osy.RbTree.Boundary.{flat-rotate}
use osy.RbTree.Deletion.{turn_sibling}
use osy.RbTree.Recolor.{is_red_lem}
use osy.RbTree.Sides.{near, far, join-node, node-join, rotate-At, get_child_lem, is_black_lem}

-- The sibling has a red child that is farther from the place, `inner` in the code.
pub record AtTurned (s : Nodes) (gs : Context) (h par : ℕ) (c d : Bool) (t : Tree) (xs : List ℕ)
    (inner top : ℕ) : Type 0 where
  pub close : Tree
  pub x : Tree
  pub y : Tree
  pub place :
      At s gs par (join (frame par c d (join (frame top false d (node x inner true y)) close)) t)
  pub close_colors : IsRedBlack h close
  pub inner_colors : IsRedBlack h (node x inner true y)
  pub order : flat (join (frame top false d (node x inner true y)) close) ≡ xs

flat-turn :
    (d : Bool) (u w fr : Tree) (n b : ℕ) (ca cb cc cd : Bool)
    → flat (join (frame n ca d (join (frame b cb (not d) (near (not d) u w)) fr)) (far (not d) u w))
      ≡ flat (join (frame b cc d fr) (node u n cd w))
flat-turn true u w fr n b ca cb cc cd = sym (flat-rotate u w fr n b cd cc ca cb)
flat-turn false u w fr n b ca cb cc cd = flat-rotate fr u w b n cb ca cc cd

IsRedBlack-turned :
    (h b : ℕ) (d : Bool) (u w fr : Tree)
    → IsRedBlack h u
    → IsRedBlack h w
    → IsRedBlack h fr
    → (is_red_tree u ≡ false) × (is_red_tree w ≡ false)
    → is_red_tree fr ≡ false
    → IsRedBlack h (far d u w) × IsRedBlack h (join (frame b true d (near d u w)) fr)
IsRedBlack-turned h b true u w fr hu hw hf black bf = (hw, (hf, hu, bf, black.0))
IsRedBlack-turned h b false u w fr hu hw hf black bf = (hu, (hw, hf, black.1, bf))

module _ (s : Nodes) (gs : Context) (h par b : ℕ) (c d : Bool) (t : Tree) where
  abbrev pub Turned : List ℕ → ℕ × ℕ → Nodes → Type 0
  Turned xs r v = AtTurned v gs h par c d t xs r.0 r.1

  -- The sibling's other child, which is red, is rotated over the sibling.
  turn_over :
      (n : ℕ) (u w fr : Tree)
      → At s gs par (join (frame par c d (join (frame b false d fr) (node u n true w))) t)
      → IsRedBlack h (node u n true w)
      → IsRedBlack h fr
      → is_red_tree fr ≡ false
      → Returns
          (Turned (flat (join (frame b false d fr) (node u n true w))))
          ((do rotate b (not d); set_red n false; set_red b true; pure (b, n)) s)
  turn_over n u w fr place colors far_colors black =
      let sib = join (frame b false d fr) (node u n true w) in
      let goal = Turned (flat sib) in
      let nr = near (not d) u w in
      let fw = far (not d) u w in
      let start =
        At-root_join s _ _ b false d fr (node u n true w)
          (At-descend s par c (not d) t sib gs (At-across s par c d sib t gs place)) in
      let shaped : At s (frame par c (not d) t ∷ gs) b
          (join (frame b false (not d) (join (frame n true (not d) fw) nr)) fr) =
        subst (λ k. At s (frame par c (not d) t ∷ gs) b (join (frame b false (not d) k) fr))
          (join-node (not d) u n true w) (At-across s b false d fr (node u n true w) _ start) in
      let low = join (frame b false (not d) nr) fr in
      Returns-bind (λ _ v. At v (frame par c (not d) t ∷ gs) n (join (frame n true (not d) fw) low))
        goal (rotate b (not d) s) _
        (rotate-At s (frame par c (not d) t ∷ gs) (not d) b n false true fr nr fw shaped)
        λ _ s1 h1.
          Returns-bind
            (λ _ v. At v (frame par c (not d) t ∷ gs) n (join (frame n false (not d) fw) low)) goal
            (set_red n false s1) _ (set_red-At_join s1 _ n true false (not d) fw low h1)
            λ _ s2 h2.
              Returns-bind
                (λ _ v.
                  At v (frame n false (not d) fw ∷ frame par c (not d) t ∷ gs) b
                    (join (frame b true (not d) nr) fr))
                goal (set_red b true s2) _
                (set_red-At_join s2 _ b false true (not d) nr fr (
                  At-root_join s2 _ _ b false (not d) nr fr
                    (At-descend s2 n false (not d) fw low _ h2)))
                λ _ s3 h3.
                  let low' = join (frame b true (not d) nr) fr in
                  let l = near (not d) fr nr in
                  let r = far (not d) fr nr in
                  let same : low' ≡ node l b true r = node-join (not d) b true nr fr in
                  let turned =
                    IsRedBlack-turned h b (not d) u w fr colors.0 colors.1 far_colors
                      (colors.2, colors.3) black in
                  let back =
                    At-across_back s3 n false d low' fw _
                      (At-ascend s3 (frame n false (not d) fw) _ b low' h3) in
                  let whole = At-across_back s3 par c d (join (frame n false d low') fw) t gs (
                    At-ascend s3 (frame par c (not d) t) gs n (join (frame n false d low') fw)
                      back) in
                  record {
                    close = fw;
                    x = l;
                    y = r;
                    place =
                        subst
                          (λ k. At s3 gs par (join (frame par c d (join (frame n false d k) fw)) t))
                          same whole;
                    close_colors = turned.0;
                    inner_colors = subst (IsRedBlack h) same turned.1;
                    order =
                        ap (λ k. flat (join (frame n false d k) fw)) (sym same)
                        ∙ flat-turn d u w fr n b false true false true;
                  }

  turn_near :
      (vn : ℕ) (nr fr : Tree)
      → At s gs par (join (frame par c d (join (frame b false d fr) nr)) t)
      → IsRedBlack h nr
      → IsRedBlack h fr
      → is_red_tree fr ≡ false
      → is_red_tree nr ≡ true
      → (up : ℕ) × IsTree s up vn nr
      → Returns
          (Turned (flat (join (frame b false d fr) nr)))
          ((do rotate b (not d); set_red vn false; set_red b true; pure (b, vn)) s)
  turn_near vn leaf fr place hn hf black red at = ground (arith, red)
  turn_near vn (node u n false w) fr place hn hf black red at = ground (arith, red)
  turn_near vn (node u n true w) fr place hn hf black red at =
      subst
        (λ q.
          Returns (Turned (flat (join (frame b false d fr) (node u n true w))))
            ((do rotate b (not d); set_red q false; set_red b true; pure (b, q)) s))
        (sym at.1.0) (turn_over n u w fr place hn hf black)

  -- The places of the sibling's children
  abbrev near_at : ℕ
  near_at = if d then s.left b else s.right b

  abbrev far_at : ℕ
  far_at = if not d then s.left b else s.right b

  pub turn_far :
      (nr fr : Tree)
      → At s gs par (join (frame par c d (join (frame b false d fr) nr)) t)
      → IsRedBlack h nr
      → IsRedBlack h fr
      → (is_red_tree fr ≡ false → is_red_tree nr ≡ true)
      → (b ≢ no_node) × ((up : ℕ) × IsTree s up near_at nr)
      → (up : ℕ) × IsTree s up far_at fr
      → Returns (Turned (flat (join (frame b false d fr) nr))) (turn_sibling far_at b d s)
  unfolding turn_sibling
  turn_far nr leaf place hn hf red at_near at_far =
      rw
        (
          is_black_lem s at_far.0 far_at leaf at_far.1,
          get_child_lem s b d at_near.0,
          is_red_lem s at_near.1.0 near_at nr at_near.1.1,
          red refl,
        )
        (turn_near near_at nr leaf place hn hf refl (red refl) at_near.1)
  turn_far nr (node il i false ir) place hn hf red at_near at_far =
      rw
        (
          is_black_lem s at_far.0 far_at (node il i false ir) at_far.1,
          get_child_lem s b d at_near.0,
          is_red_lem s at_near.1.0 near_at nr at_near.1.1,
          red refl,
        )
        (turn_near near_at nr (node il i false ir) place hn hf refl (red refl) at_near.1)
  turn_far nr (node il i true ir) place hn hf red at_near at_far =
      rw (is_black_lem s at_far.0 far_at (node il i true ir) at_far.1) (
        subst (λ q. Turned (flat (join (frame b false d (node il i true ir)) nr)) (q, b) s)
          (sym at_far.1.0)
          (record {
            close = nr;
            x = il;
            y = ir;
            place = place;
            close_colors = hn;
            inner_colors = hf;
            order = refl;
          }))
