-- ===== src/RbTree/RotateLeft.antt =====
-- kernel/adt/rbtree.c: `__rbtree_rotate_left`.
use osy.Common.{
  ℕ, ◌+◌, ◌≤◌, Bool, ◌==◌, if◌then◌else◌, ◌≡◌, ◌≢◌, refl, sym, ◌∙◌, arith, Returns, Returns-bind,
  ==_false, ==_self, eq-of_==, ◌>>◌, Bool-cases, inl, inr,
}
use osy.RbTree.{Nodes, no_node, put, move_parent, rotate_left, set_parent}
use osy.RbTree.Shape.{
  Tree, node, Context, count, count_context, IsContext, Holds, Same, IsTree-frame, IsTree-reparent,
  IsContext-frame, count_root, count_null, count_context_null,
}
use osy.RbTree.Rotation.{Moved, move_parent_lem, up_apart, put_self, set_parent_lem}

module _ (s : Nodes) (fs : Context) (up a b : ℕ) (ca cb : Bool) (x y z : Tree) where
  -- The state in which a left rotation turns to the link from above.
  record LeftTurned (u : Nodes) : Type 0 where
    lefts : (c : ℕ) → u.left c ≡ (if c == b then a else s.left c)
    rights : (c : ℕ) → u.right c ≡ (if c == a then s.left b else s.right c)
    colors : (c : ℕ) → u.red c ≡ s.red c
    parents : (c : ℕ) → c ≢ s.left b → u.parent c ≡ s.parent c
    inner : s.left b ≢ no_node → u.parent (s.left b) ≡ a
    root : u.root ≡ s.root

  abbrev pub LeftRotated : Nodes → Type 0
  LeftRotated t = Holds t fs up b (node (node x a ca y) b cb z) × ((c : ℕ) → t.red c ≡ s.red c)

  finish_left :
      Holds s fs up a (node x a ca (node y b cb z))
      → (u : Nodes) → LeftTurned u
      → Returns (λ _ t. LeftRotated t) ((move_parent a b >> set_parent a b) u)
  unfolding set_parent
  finish_left h u k =
      let tree = h.below in
      let kid = tree.5 in
      let apart : (c : ℕ) → 1 ≤ count c (node x a ca (node y b cb z)) → c ≢ up =
        up_apart s up a fs (node x a ca (node y b cb z)) h.above tree h.unique in
      let y_root = count_root s b (s.left b) y kid.4 in
      let free : (c : ℕ) → c ≢ s.left b → 1 ≤ count_context c fs → Same s u c = λ c n o. (
        k.lefts c ∙ ground (arith, h.unique c),
        k.rights c ∙ ground (arith, h.unique c),
        k.parents c n,
        k.colors c,
      ) in
      let y_free : (c : ℕ) → 1 ≤ count_context c fs → c ≢ s.left b =
        λ c o e. ground (arith, h.unique c, e, y_root, count_context_null s up a fs h.above) in
      let context : IsContext u up a fs =
        IsContext-frame s u up a fs h.above (λ c o. free c (y_free c o) o) k.root in
      let a_free : a ≢ s.left b = λ e. ground (arith, h.unique a, e, y_root, tree.1) in
      let b_free : b ≢ s.left b = λ e. ground (arith, h.unique b, e, y_root, kid.1) in
      let differ : a ≢ b = λ e. ground (arith, h.unique a, e) in
      let a_node = ==_false a no_node tree.1 in
      Returns-bind (λ r v. (r ≡ up) × IsContext v up b fs × Moved u up b v) (λ _ t. LeftRotated t)
        (move_parent a b u) (λ _. set_parent a b)
        (move_parent_lem u fs up a b context (k.parents a a_free ∙ tree.3) tree.1
          (λ c. ground (arith, h.unique c)) (ground (arith, h.unique a))
          (ground (arith, h.unique b)))
        λ r v m.
          let above = m.1 in
          let links = m.2.0 in
          let colors = m.2.1 in
          let parents = m.2.2 in
          let w : Nodes = record v { parent = put v.parent a b } in
          let kept : (c : ℕ)
              → 1 ≤ count c x + count c y + count c z
              → (w.left c ≡ s.left c)
                × (w.right c ≡ s.right c)
                × (w.red c ≡ s.red c)
                × (c ≢ s.left b → w.parent c ≡ s.parent c) =
            λ c o.
              let link = links c (apart c (omega arith)) in
              (
                link.0 ∙ k.lefts c ∙ ground (arith, h.unique c),
                link.1 ∙ k.rights c ∙ ground (arith, h.unique c),
                colors c ∙ k.colors c,
                λ n. ground (arith, h.unique c, parents c, k.parents c n),
              ) in
          let b_links = links b (apart b (ground arith)) in
          let a_links = links a (apart a (ground arith)) in
          let b_left : w.left b ≡ a = b_links.0 ∙ k.lefts b ∙ ground arith in
          let b_right : w.right b ≡ s.right b = b_links.1 ∙ k.rights b ∙ ground (arith, differ) in
          let a_left : w.left a ≡ s.left a = a_links.0 ∙ k.lefts a ∙ ground (arith, differ) in
          let a_right : w.right a ≡ s.left b = a_links.1 ∙ k.rights a ∙ ground arith in
          let b_up : w.parent b ≡ up = ground (arith, differ, m.2.3 kid.1) in
          let a_up : w.parent a ≡ b = ground arith in
          let inner_up : s.left b ≢ no_node → w.parent (s.left b) ≡ a = λ n.
            ground (arith, a_free, b_free, parents (s.left b) (λ e. b_free (sym e)), k.inner n) in
          let far_x : (c : ℕ) → 1 ≤ count c x → c ≢ s.left b =
            λ c o e. ground (arith, h.unique c, e, y_root, count_null s a (s.left a) x tree.4) in
          let far_z : (c : ℕ) → 1 ≤ count c z → c ≢ s.left b =
            λ c o e. ground (arith, h.unique c, e, y_root, count_null s b (s.right b) z kid.5) in
          rw a_node (
            record {
              above =
                  IsContext-frame v w up b fs above
                    (λ c o. (refl, refl, ground (arith, h.unique c), refl)) refl;
              below = (
                refl,
                kid.1,
                colors b ∙ k.colors b ∙ kid.2,
                b_up,
                rw b_left (
                  refl,
                  tree.1,
                  colors a ∙ k.colors a ∙ tree.2,
                  a_up,
                  rw a_left (
                      IsTree-frame s w a (s.left a) x tree.4
                        λ c o. let e = kept c (omega arith) in (e.0, e.1, e.3 (far_x c o), e.2)),
                  rw a_right (
                      IsTree-reparent s w b a (s.left b) y kid.4
                        (λ c o. let e = kept c (omega arith) in (e.0, e.1, e.2))
                        (λ c o n. (kept c (omega arith)).3 n) inner_up
                        (λ c. omega (arith, h.unique c))),
                ),
                rw b_right (
                    IsTree-frame s w b (s.right b) z kid.5
                      λ c o. let e = kept c (omega arith) in (e.0, e.1, e.3 (far_z c o), e.2)),
              );
              unique = λ c. omega (arith, h.unique c);
            },
            λ c. colors c ∙ k.colors c,
          )

  pub rotate_left_lem :
      Holds s fs up a (node x a ca (node y b cb z))
      → Returns (λ _ t. LeftRotated t) (rotate_left a s)
  unfolding rotate_left
  rotate_left_lem h =
      let tree = h.below in
      let kid = tree.5 in
      let a_node = ==_false a no_node tree.1 in
      let b_node = ==_false b no_node kid.1 in
      let right : s.right a ≡ b = kid.0 in
      let self = ==_self a in
      elim (Bool-cases (s.left b == no_node)) [
        | inl e ↦
            rw (a_node, right, b_node, self, e)
              (finish_left h (record s { right = put s.right a (s.left b); left = put s.left b a })
                (record {
                  lefts = λ c. ground arith;
                  rights = λ c. ground arith;
                  colors = λ c. refl;
                  parents = λ c n. refl;
                  inner = λ n. absurd (n (eq-of_== _ _ e));
                  root = refl;
                }))
        | inr e ↦
            rw
              (
                a_node,
                right,
                b_node,
                self,
                e,
                put_self s.right a (s.left b),
                set_parent_lem
                    (record s { right = put s.right a (s.left b); left = put s.left b a })
                    (s.left b) a e,
              )
              (finish_left h
                (record s {
                  right = put s.right a (s.left b);
                  left = put s.left b a;
                  parent = put s.parent (s.left b) a;
                })
                (record {
                  lefts = λ c. ground arith;
                  rights = λ c. ground arith;
                  colors = λ c. refl;
                  parents = λ c n. ground arith;
                  inner = λ n. ground arith;
                  root = refl;
                }))
      ]
