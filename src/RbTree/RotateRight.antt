-- ===== src/RbTree/RotateRight.antt =====
-- kernel/adt/rbtree.c: `__rbtree_rotate_right`.
use osy.Common.{
  ℕ, ◌+◌, ◌≤◌, Bool, ◌==◌, if◌then◌else◌, ◌≡◌, ◌≢◌, refl, sym, ◌∙◌, arith, Returns, Returns-bind,
  ==_false, ==_self, eq-of_==, ◌>>◌, Bool-cases, inl, inr,
}
use osy.RbTree.{Nodes, no_node, put, move_parent, rotate_right, set_parent}
use osy.RbTree.Shape.{
  Tree, node, Context, count, count_context, IsContext, Holds, Same, IsTree-frame, IsTree-reparent,
  IsContext-frame, count_root, count_null, count_context_null,
}
use osy.RbTree.Rotation.{Moved, move_parent_lem, up_apart, put_self, set_parent_lem}

module _ (s : Nodes) (fs : Context) (up a b : ℕ) (ca cb : Bool) (x y z : Tree) where
  -- The state in which a right rotation turns to the link from above.
  record RightTurned (u : Nodes) : Type 0 where
    rights : (c : ℕ) → u.right c ≡ (if c == b then a else s.right c)
    lefts : (c : ℕ) → u.left c ≡ (if c == a then s.right b else s.left c)
    colors : (c : ℕ) → u.red c ≡ s.red c
    parents : (c : ℕ) → c ≢ s.right b → u.parent c ≡ s.parent c
    inner : s.right b ≢ no_node → u.parent (s.right b) ≡ a
    root : u.root ≡ s.root

  abbrev pub RightRotated : Nodes → Type 0
  RightRotated t = Holds t fs up b (node z b cb (node y a ca x)) × ((c : ℕ) → t.red c ≡ s.red c)

  finish_right :
      Holds s fs up a (node (node z b cb y) a ca x)
      → (u : Nodes) → RightTurned u
      → Returns (λ _ t. RightRotated t) ((move_parent a b >> set_parent a b) u)
  unfolding set_parent
  finish_right h u k =
      let tree = h.below in
      let kid = tree.4 in
      let apart : (c : ℕ) → 1 ≤ count c (node (node z b cb y) a ca x) → c ≢ up =
        up_apart s up a fs (node (node z b cb y) a ca x) h.above tree h.unique in
      let y_root = count_root s b (s.right b) y kid.5 in
      let free : (c : ℕ) → c ≢ s.right b → 1 ≤ count_context c fs → Same s u c = λ c n o. (
        k.lefts c ∙ ground (arith, h.unique c),
        k.rights c ∙ ground (arith, h.unique c),
        k.parents c n,
        k.colors c,
      ) in
      let y_free : (c : ℕ) → 1 ≤ count_context c fs → c ≢ s.right b =
        λ c o e. ground (arith, h.unique c, e, y_root, count_context_null s up a fs h.above) in
      let context : IsContext u up a fs =
        IsContext-frame s u up a fs h.above (λ c o. free c (y_free c o) o) k.root in
      let a_free : a ≢ s.right b = λ e. ground (arith, h.unique a, e, y_root, tree.1) in
      let b_free : b ≢ s.right b = λ e. ground (arith, h.unique b, e, y_root, kid.1) in
      let differ : a ≢ b = λ e. ground (arith, h.unique a, e) in
      let a_node = ==_false a no_node tree.1 in
      Returns-bind (λ r v. (r ≡ up) × IsContext v up b fs × Moved u up b v) (λ _ t. RightRotated t)
        (move_parent a b u) (λ _. set_parent a b)
        (move_parent_lem u fs up a b context (k.parents a a_free ∙ tree.3) tree.1
          (λ c. ground (arith, h.unique c)) (ground (arith, h.unique a))
          (ground (arith, h.unique b)))
        λ r v m.
          let above = m.1 in
          let links = m.2.0 in
          let colors = m.2.1 in
          let parents = m.2.2 in
          let w : Nodes = record v { parent = put v.parent a b } in
          let kept : (c : ℕ)
              → 1 ≤ count c x + count c y + count c z
              → (w.right c ≡ s.right c)
                × (w.left c ≡ s.left c)
                × (w.red c ≡ s.red c)
                × (c ≢ s.right b → w.parent c ≡ s.parent c) =
            λ c o.
              let link = links c (apart c (omega arith)) in
              (
                link.1 ∙ k.rights c ∙ ground (arith, h.unique c),
                link.0 ∙ k.lefts c ∙ ground (arith, h.unique c),
                colors c ∙ k.colors c,
                λ n. ground (arith, h.unique c, parents c, k.parents c n),
              ) in
          let b_links = links b (apart b (ground arith)) in
          let a_links = links a (apart a (ground arith)) in
          let b_right : w.right b ≡ a = b_links.1 ∙ k.rights b ∙ ground arith in
          let b_left : w.left b ≡ s.left b = b_links.0 ∙ k.lefts b ∙ ground (arith, differ) in
          let a_right : w.right a ≡ s.right a = a_links.1 ∙ k.rights a ∙ ground (arith, differ) in
          let a_left : w.left a ≡ s.right b = a_links.0 ∙ k.lefts a ∙ ground arith in
          let b_up : w.parent b ≡ up = ground (arith, differ, m.2.3 kid.1) in
          let a_up : w.parent a ≡ b = ground arith in
          let inner_up : s.right b ≢ no_node → w.parent (s.right b) ≡ a = λ n.
            ground (arith, a_free, b_free, parents (s.right b) (λ e. b_free (sym e)), k.inner n) in
          let far_x : (c : ℕ) → 1 ≤ count c x → c ≢ s.right b =
            λ c o e. ground (arith, h.unique c, e, y_root, count_null s a (s.right a) x tree.5) in
          let far_z : (c : ℕ) → 1 ≤ count c z → c ≢ s.right b =
            λ c o e. ground (arith, h.unique c, e, y_root, count_null s b (s.left b) z kid.4) in
          rw a_node (
            record {
              above =
                  IsContext-frame v w up b fs above
                    (λ c o. (refl, refl, ground (arith, h.unique c), refl)) refl;
              below = (
                refl,
                kid.1,
                colors b ∙ k.colors b ∙ kid.2,
                b_up,
                rw b_left (
                    IsTree-frame s w b (s.left b) z kid.4
                      λ c o. let e = kept c (omega arith) in (e.1, e.0, e.3 (far_z c o), e.2)),
                rw b_right (
                  refl,
                  tree.1,
                  colors a ∙ k.colors a ∙ tree.2,
                  a_up,
                  rw a_left (
                      IsTree-reparent s w b a (s.right b) y kid.5
                        (λ c o. let e = kept c (omega arith) in (e.1, e.0, e.2))
                        (λ c o n. (kept c (omega arith)).3 n) inner_up
                        (λ c. omega (arith, h.unique c))),
                  rw a_right (
                      IsTree-frame s w a (s.right a) x tree.5
                        λ c o. let e = kept c (omega arith) in (e.1, e.0, e.3 (far_x c o), e.2)),
                ),
              );
              unique = λ c. omega (arith, h.unique c);
            },
            λ c. colors c ∙ k.colors c,
          )

  pub rotate_right_lem :
      Holds s fs up a (node (node z b cb y) a ca x)
      → Returns (λ _ t. RightRotated t) (rotate_right a s)
  unfolding rotate_right
  rotate_right_lem h =
      let tree = h.below in
      let kid = tree.4 in
      let a_node = ==_false a no_node tree.1 in
      let b_node = ==_false b no_node kid.1 in
      let left : s.left a ≡ b = kid.0 in
      let self = ==_self a in
      elim (Bool-cases (s.right b == no_node)) [
        | inl e ↦
            rw (a_node, left, b_node, self, e)
              (finish_right h
                (record s { left = put s.left a (s.right b); right = put s.right b a })
                (record {
                  rights = λ c. ground arith;
                  lefts = λ c. ground arith;
                  colors = λ c. refl;
                  parents = λ c n. refl;
                  inner = λ n. absurd (n (eq-of_== _ _ e));
                  root = refl;
                }))
        | inr e ↦
            rw
              (
                a_node,
                left,
                b_node,
                self,
                e,
                put_self s.left a (s.right b),
                set_parent_lem
                    (record s { left = put s.left a (s.right b); right = put s.right b a })
                    (s.right b) a e,
              )
              (finish_right h
                (record s {
                  left = put s.left a (s.right b);
                  right = put s.right b a;
                  parent = put s.parent (s.right b) a;
                })
                (record {
                  rights = λ c. ground arith;
                  lefts = λ c. ground arith;
                  colors = λ c. refl;
                  parents = λ c n. ground arith;
                  inner = λ n. ground arith;
                  root = refl;
                }))
      ]
