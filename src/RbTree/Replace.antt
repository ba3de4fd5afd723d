-- ===== src/RbTree/Replace.antt =====
-- kernel/adt/rbtree.c: `__rbtree_replace` puts a free node into the place of another.
use osy.Common.{
  ℕ, ◌+◌, ◌≤◌, Bool, false, [], ◌∷◌, ◌==◌, if◌then◌else◌, ◌≡◌, ◌≢◌, refl, ◌∙◌, arith, Bool-cases,
  inl, inr, Returns, Returns-bind, Returns-mono, ==_false, ==_self, eq-of_==, ◌>>◌, pure,
}
use osy.RbTree.{Nodes, no_node, put, get_red, set_red, move_parent, move_children}
use osy.RbTree.Shape.{
  Tree, node, Context, once, count, count_context, IsContext, Holds, IsTree-reparent,
  IsContext-frame, count_root, count_null, count_context_null,
}
use osy.RbTree.Rotation.{Moved, move_parent_lem, up_apart, put_self, put_other, set_parent_lem}
use osy.RbTree.Deletion.{replace}

not_above :
    (s : Nodes) (up p m : ℕ) (fs : Context)
    → IsContext s up p fs
    → count_context m fs ≡ 0
    → m ≢ no_node
    → m ≢ up
not_above s up p m [] h free some_m = λ e. some_m (e ∙ h.0)
not_above s up p m (f ∷ fs) h free some_m = λ e. ground (arith, e, free, h.0)

module _ (s : Nodes) (fs : Context) (up n m : ℕ) (c : Bool) (l r : Tree) where
  -- The state in which `__rbtree_replace` turns to the link from above.
  record Adopted (u : Nodes) : Type 0 where
    lefts : (a : ℕ) → u.left a ≡ (if a == m then s.left n else s.left a)
    rights : (a : ℕ) → u.right a ≡ (if a == m then s.right n else s.right a)
    colors : (a : ℕ) → u.red a ≡ (if a == m then s.red n else s.red a)
    parents : (a : ℕ) → a ≢ s.left n → a ≢ s.right n → u.parent a ≡ s.parent a
    left_up : s.left n ≢ no_node → u.parent (s.left n) ≡ m
    right_up : s.right n ≢ no_node → u.parent (s.right n) ≡ m
    root : u.root ≡ s.root

  -- The child links of the new node are those of the old one
  finish_replace :
      Holds s fs up n (node l n c r)
      → m ≢ no_node
      → count_context m fs + count m (node l n c r) ≡ 0
      → (u : Nodes) → Adopted u
      → Returns (λ _ t. Holds t fs up m (node l m c r)) ((move_parent n m >> pure tt) u)
  finish_replace h some_m free u k =
      let tree = h.below in
      let l_root = count_root s n (s.left n) l tree.4 in
      let r_root = count_root s n (s.right n) r tree.5 in
      let l_free : (a : ℕ) → 1 ≤ count_context a fs + once a n → a ≢ s.left n = λ a o e.
        ground (arith, o, e, h.unique a, l_root, tree.1, count_context_null s up n fs h.above) in
      let r_free : (a : ℕ) → 1 ≤ count_context a fs + once a n → a ≢ s.right n = λ a o e.
        ground (arith, o, e, h.unique a, r_root, tree.1, count_context_null s up n fs h.above) in
      let fresh : (a : ℕ) → 1 ≤ count_context a fs + count a (node l n c r) → (a == m) ≡ false =
        λ a o. ==_false a m λ e. ground (arith, o, e, free) in
      let fields : (a : ℕ)
          → 1 ≤ count_context a fs + count a (node l n c r)
          → (u.left a ≡ s.left a) × (u.right a ≡ s.right a) × (u.red a ≡ s.red a) =
        λ a o. (
          k.lefts a ∙ rw (fresh a o) refl,
          k.rights a ∙ rw (fresh a o) refl,
          k.colors a ∙ rw (fresh a o) refl,
        ) in
      let context : IsContext u up n fs =
        IsContext-frame s u up n fs h.above
          (λ a o.
            let e = fields a (omega (arith, o)) in
            (
              e.0,
              e.1,
              k.parents a (l_free a (omega (arith, o))) (r_free a (omega (arith, o))),
              e.2,
            ))
          k.root in
      let one : (a : ℕ) → count_context a fs ≤ 1 = λ a. omega (arith, h.unique a) in
      let n_parent : u.parent n ≡ up =
        k.parents n (l_free n (ground arith)) (r_free n (ground arith)) ∙ tree.3 in
      let m_up = not_above s up n m fs h.above (omega (arith, free)) some_m in
      let l_null = count_null s n (s.left n) l tree.4 in
      let r_null = count_null s n (s.right n) r tree.5 in
      let below_up = up_apart s up n fs (node l n c r) h.above tree h.unique in
      Returns-bind (λ _ v. IsContext v up m fs × Moved u up m v)
        (λ _ t. Holds t fs up m (node l m c r)) (move_parent n m u) (λ _. pure tt)
        (Returns-mono (λ q v. (q ≡ up) × IsContext v up m fs × Moved u up m v) _ (move_parent n m u)
          (move_parent_lem u fs up n m context n_parent tree.1 one (ground (arith, h.unique n))
            (omega (arith, free)))
          λ q v e. (e.1, e.2))
        λ _ v e.
          let moved = e.1 in
          let kept : (a : ℕ)
              → 1 ≤ count a l + count a r
              → (v.left a ≡ s.left a) × (v.right a ≡ s.right a) × (v.red a ≡ s.red a) =
            λ a o.
              let i = moved.0 a (below_up a (omega (arith, o))) in
              let j = fields a (omega (arith, o)) in (i.0 ∙ j.0, i.1 ∙ j.1, moved.1 a ∙ j.2) in
          let other : (a : ℕ) → 1 ≤ count a l + count a r → a ≢ m =
            λ a o i. ground (arith, o, i, free) in
          let left_apart : (a : ℕ) → 1 ≤ count a r → a ≢ s.left n =
            λ a o i. ground (arith, o, i, h.unique a, l_root, r_null) in
          let right_apart : (a : ℕ) → 1 ≤ count a l → a ≢ s.right n =
            λ a o i. ground (arith, o, i, h.unique a, r_root, l_null) in
          let m_links = moved.0 m m_up in
          let m_left : v.left m ≡ s.left n = m_links.0 ∙ k.lefts m ∙ rw (==_self m) refl in
          let m_right : v.right m ≡ s.right n = m_links.1 ∙ k.rights m ∙ rw (==_self m) refl in
          let m_red : v.red m ≡ c = moved.1 m ∙ k.colors m ∙ rw (==_self m) (tree.2) in
          record {
            above = e.0;
            below = (
              refl,
              some_m,
              m_red,
              moved.3 some_m,
              rw m_left (
                  IsTree-reparent s v n m (s.left n) l tree.4 (λ a o. kept a (omega (arith, o)))
                    (λ a o i.
                      moved.2 a (other a (omega (arith, o))) ∙ k.parents a i (right_apart a o))
                    (λ i.
                      moved.2 (s.left n) (other (s.left n) (omega (arith, l_root i))) ∙ k.left_up i)
                    (λ a. omega (arith, h.unique a))),
              rw m_right (
                  IsTree-reparent s v n m (s.right n) r tree.5 (λ a o. kept a (omega (arith, o)))
                    (λ a o i.
                      moved.2 a (other a (omega (arith, o))) ∙ k.parents a (left_apart a o) i)
                    (λ i.
                      moved.2 (s.right n) (other (s.right n) (omega (arith, r_root i)))
                      ∙ k.right_up i)
                    (λ a. omega (arith, h.unique a))),
            );
            unique = λ a. ground (arith, h.unique a, free);
          }

  sides : Holds s fs up n (node l n c r) → s.left n ≢ no_node → s.left n ≢ s.right n
  sides h i =
      let tree = h.below in
      let l_root = count_root s n (s.left n) l tree.4 i in
      let r_root = count_root s n (s.right n) r tree.5 in
      λ e. ground (arith, e, i, l_root, r_root (λ j. i (e ∙ j)), h.unique (s.left n))

  adopted :
      (u : Nodes)
      → ((a : ℕ) → u.left a ≡ put s.left m (s.left n) a)
      → ((a : ℕ) → u.right a ≡ put s.right m (s.right n) a)
      → ((a : ℕ) → u.red a ≡ put s.red m (s.red n) a)
      → ((a : ℕ) → a ≢ s.left n → a ≢ s.right n → u.parent a ≡ s.parent a)
      → (s.left n ≢ no_node → u.parent (s.left n) ≡ m)
      → (s.right n ≢ no_node → u.parent (s.right n) ≡ m)
      → u.root ≡ s.root
      → Adopted u
  adopted u l r c p lu ru root = record {
    lefts = l;
    rights = r;
    colors = c;
    parents = p;
    left_up = lu;
    right_up = ru;
    root = root;
  }

  pub replace_lem :
      Holds s fs up n (node l n c r)
      → m ≢ no_node
      → count_context m fs + count m (node l n c r) ≡ 0
      → Returns (λ _ t. Holds t fs up m (node l m c r)) (replace n m s)
  unfolding replace get_red set_red move_children
  replace_lem h some_m free =
      let tree = h.below in
      let n_node = ==_false n no_node tree.1 in
      let m_node = ==_false m no_node some_m in
      let apart : n ≢ m = λ e. ground (arith, e, free) in
      let lp = put_other s.left m n (s.left n) apart in
      let rp = put_other s.right m n (s.right n) apart in
      let one : Nodes = record s {
        red = put s.red m (s.red n);
        left = put s.left m (s.left n);
        right = put s.right m (s.right n);
      } in
      let two : Nodes = record one { parent = put s.parent (s.left n) m } in
      elim (Bool-cases (s.left n == no_node)) [
        | inl e ↦ elim (Bool-cases (s.right n == no_node)) [
          | inl f ↦
              rw (m_node, n_node, lp, e, rp, f)
                (finish_replace h some_m free one (
                  adopted one (λ a. refl) (λ a. refl) (λ a. refl) (λ a i j. refl)
                    (λ i. absurd (i (eq-of_== _ _ e))) (λ i. absurd (i (eq-of_== _ _ f))) refl))
          | inr f ↦
              rw (m_node, n_node, lp, e, rp, f, rp, set_parent_lem one (s.right n) m f)
                (finish_replace h some_m free (record one { parent = put s.parent (s.right n) m })
                  (adopted _ (λ a. refl) (λ a. refl) (λ a. refl)
                    (λ a i j. put_other s.parent (s.right n) a m j)
                    (λ i. absurd (i (eq-of_== _ _ e))) (λ i. put_self s.parent (s.right n) m) refl))
        ]
        | inr e ↦ elim (Bool-cases (s.right n == no_node)) [
          | inl f ↦
              rw (m_node, n_node, lp, e, lp, set_parent_lem one (s.left n) m e, rp, f)
                (finish_replace h some_m free two (
                  adopted two (λ a. refl) (λ a. refl) (λ a. refl)
                    (λ a i j. put_other s.parent (s.left n) a m i)
                    (λ i. put_self s.parent (s.left n) m) (λ i. absurd (i (eq-of_== _ _ f))) refl))
          | inr f ↦
              rw
                (
                  m_node,
                  n_node,
                  lp,
                  e,
                  lp,
                  set_parent_lem one (s.left n) m e,
                  rp,
                  f,
                  rp,
                  set_parent_lem two (s.right n) m f,
                )
                (finish_replace h some_m free (record two { parent = put two.parent (s.right n) m })
                  (adopted _ (λ a. refl) (λ a. refl) (λ a. refl)
                    (λ a i j.
                      put_other two.parent (s.right n) a m j ∙ put_other s.parent (s.left n) a m i)
                    (λ i.
                      put_other two.parent (s.right n) (s.left n) m (sides h i)
                      ∙ put_self s.parent (s.left n) m)
                    (λ i. put_self two.parent (s.right n) m) refl))
        ]
      ]
