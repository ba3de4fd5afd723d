-- ===== src/RbTree/Attach.antt =====
-- kernel/adt/rbtree.c: `__rbtree_insert` at a free link of a red-black tree.
use osy.Common.{
  ℕ, ◌≤◌, ◌<◌, true, false, [], ◌∷◌, if◌then◌else◌, ◌≡◌, ◌≢◌, refl, sym, ◌∙◌, arith, Bool-cases,
  inl, inr, subst, Returns, ==_false, length,
}
use osy.RbTree.{Nodes, no_node, put, set_red, set_left, set_right, set_parent, set_root}
use osy.RbTree.Shape.{leaf, node, Context, plug, flat_context, count_context, IsContext, Holds}
use osy.RbTree.Rotation.{relink, put_self, put_other}
use osy.RbTree.Colors.{is_red_tree, IsRedBlack, IsRedBlackTree, FitsAt, flat-plug}
use osy.RbTree.Insertion.{
  Link, root_link, left_link, right_link, set_link, rbtree_insert, rebalance_insert,
}
use osy.RbTree.Climb.{rebalance_insert_lem}
use osy.RbTree.Fits.{Fits-plug}

-- The link that leads to a place
abbrev pub link_of : Context → Link
link_of [] = root_link
link_of (f ∷ fs) = if f.is_left then left_link f.at else right_link f.at

module _ (fuel n parent : ℕ) (fs : Context) where
  -- A node that is written below a place is a tree of its own there.
  attach_lem :
      (t : Nodes)
      → IsContext t parent n fs
      → n ≢ no_node
      → (t.red n ≡ true) × (t.left n ≡ no_node) × (t.right n ≡ no_node) × (t.parent n ≡ parent)
      → ((a : ℕ) → count_context a fs ≤ 1)
      → count_context n fs ≡ 0
      → FitsAt 0 fs
      → length fs < fuel
      → Returns (λ _ v. IsRedBlackTree v (flat_context fs (n ∷ []))) (rebalance_insert fuel n t)
  attach_lem t above some_n k one free fits enough =
      subst (λ xs. Returns (λ _ v. IsRedBlackTree v xs) (rebalance_insert fuel n t))
        (flat-plug fs (node leaf n true leaf))
        (rebalance_insert_lem fuel t fs 0 n leaf leaf
          (record {
            place = (
              parent,
              record {
                above = above;
                below = (refl, some_n, k.0, k.3, k.1, k.2);
                unique = λ a. ground (arith, one a, free);
              },
            );
            colors = (refl, refl, refl, refl);
            fits = fits;
          })
          enough)

-- At a free place of a red-black tree, by its link, `rbtree_insert` of a node that is not NULL and
-- not in the tree does not fail with more fuel than there are nodes above the place, and leaves a
-- red-black tree: the nodes in order are those of before with the new one in its place.
pub rbtree_insert_lem :
    (fuel n parent : ℕ) (s : Nodes) (fs : Context) (h : ℕ)
    → Holds s fs parent no_node leaf
    → IsRedBlack h (plug fs leaf)
    → is_red_tree (plug fs leaf) ≡ false
    → n ≢ no_node
    → count_context n fs ≡ 0
    → length fs < fuel
    → Returns
        (λ _ t. IsRedBlackTree t (flat_context fs (n ∷ [])))
        (rbtree_insert fuel n parent (link_of fs) s)
unfolding rbtree_insert set_red set_left set_right set_parent set_link set_root
rbtree_insert_lem fuel n parent s [] h k colors black some_n free enough =
    let t : Nodes = record s {
      red = put s.red n true;
      left = put s.left n no_node;
      right = put s.right n no_node;
      parent = put s.parent n parent;
      root = n;
    } in
    rw (==_false n no_node some_n) (
      attach_lem fuel n parent [] t (k.above.0, refl) some_n
        (ground arith, ground arith, ground arith, ground arith) k.unique free tt enough)
rbtree_insert_lem fuel n parent s (f ∷ fs) h k colors black some_n free enough =
    let fits = Fits-plug h (f ∷ fs) leaf colors black in
    let fits_zero : FitsAt 0 (f ∷ fs) = subst (λ j. FitsAt j (f ∷ fs)) fits.1.colors fits.1.fits in
    let context = subst (λ u. IsContext s u no_node (f ∷ fs)) k.above.0 k.above in
    let one : (a : ℕ) → count_context a (f ∷ fs) ≤ 1 = λ a. omega (arith, k.unique a) in
    let f_node = ==_false f.at no_node k.above.1 in
    let n_node = ==_false n no_node some_n in
    let far : (a : ℕ) → 1 ≤ count_context a (f ∷ fs) → a ≢ n =
      λ a i e. ground (arith, i, e, free) in
    let apart : f.at ≢ n = far f.at (ground arith) in
    elim (Bool-cases f.is_left) [
      | inl side ↦
          let lower = put s.left n no_node in
          let t : Nodes = record s {
            red = put s.red n true;
            left = put (put s.left n no_node) f.at n;
            right = put s.right n no_node;
            parent = put s.parent n f.at;
          } in
          let above : IsContext t f.at n (f ∷ fs) =
            relink s t no_node n f fs context one (rw side (put_self lower f.at n))
              (rw side (put_other s.right n f.at no_node apart))
              (λ a i o. (
                put_other lower f.at a n o ∙ put_other s.left n a no_node (far a i),
                put_other s.right n a no_node (far a i),
              ))
              (λ a i. put_other s.red n a true (far a i))
              (λ a i. put_other s.parent n a f.at (far a i)) refl in
          rw (n_node, side, f_node, k.above.0)
            (rw side at (
              attach_lem fuel n f.at (f ∷ fs) t above some_n
                (
                  put_self s.red n true,
                  put_other lower f.at n n (λ e. apart (sym e)) ∙ put_self s.left n no_node,
                  put_self s.right n no_node,
                  put_self s.parent n f.at,
                )
                one free fits_zero enough))
      | inr side ↦
          let lower = put s.right n no_node in
          let t : Nodes = record s {
            red = put s.red n true;
            left = put s.left n no_node;
            right = put (put s.right n no_node) f.at n;
            parent = put s.parent n f.at;
          } in
          let above : IsContext t f.at n (f ∷ fs) =
            relink s t no_node n f fs context one (rw side (put_self lower f.at n))
              (rw side (put_other s.left n f.at no_node apart))
              (λ a i o. (
                put_other s.left n a no_node (far a i),
                put_other lower f.at a n o ∙ put_other s.right n a no_node (far a i),
              ))
              (λ a i. put_other s.red n a true (far a i))
              (λ a i. put_other s.parent n a f.at (far a i)) refl in
          rw (n_node, side, f_node, k.above.0)
            (rw side at (
              attach_lem fuel n f.at (f ∷ fs) t above some_n
                (
                  put_self s.red n true,
                  put_self s.left n no_node,
                  put_other lower f.at n n (λ e. apart (sym e)) ∙ put_self s.right n no_node,
                  put_self s.parent n f.at,
                )
                one free fits_zero enough))
    ]
