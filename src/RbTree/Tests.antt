-- ===== src/RbTree/Tests.antt =====
-- Runs of kernel/adt/rbtree.h on a small tree: 10 above 5 and 15, with keys like the addresses.
use osy.Common.{
  ℕ, Bool, true, false, List, [], ◌∷◌, ◌++◌, ltb, ◌==◌, if◌then◌else◌, ◌≡◌, refl, arith, Returns,
  Option, none, some, Cmd, ◌>>◌,
}
use osy.RbTree.{
  has_left, get_red, move_children, is_black, Nodes, Comparison, below, above, equal, put,
  rbtree_find, rbtree_first, rbtree_next, rotate, get_root, is_red, set_red, set_left, set_right,
  set_parent, get_parent, get_left, rotate_left, move_parent,
}
use osy.RbTree.Shape.{Tree, leaf, node, Context, flat, IsTree, Holds}
use osy.RbTree.Place.{frame, At}
use osy.RbTree.Colors.{IsRedBlackTree}
use osy.RbTree.Insertion.{
  rbtree_insert, set_link, rebalance_insert, climb, uncle_of, to_boundary, root_link, left_link,
  right_link,
}
use osy.RbTree.Deletion.{
  rbtree_delete, cut_successor, replace, rebalance_delete, descend, cut_out, get_child,
  lift_sibling, turn_sibling,
}
use osy.RbTree.Attach.{rbtree_insert_lem}
use osy.RbTree.Boundary.{rotate-rotate}
use osy.RbTree.Search.{first_equal, rbtree_find_lem}
use osy.RbTree.Delete.{rbtree_delete_lem}
use osy.RbTree.Walk.{rbtree_next_lem, rbtree_first_lem}

abbrev three : Nodes
three = record {
  red = put (put (λ _. false) 5 true) 15 true;
  left = put (λ _. 0) 10 5;
  right = put (λ _. 0) 10 15;
  parent = put (put (λ _. 0) 5 10) 15 10;
  root = 10;
}

abbrev low : Tree
low = node leaf 5 true leaf

abbrev high : Tree
high = node leaf 15 true leaf

three-IsTree : IsTree three 0 10 (node low 10 false high)
three-IsTree = (
  refl,
  (λ e. ground (arith, e)),
  refl,
  refl,
  (refl, (λ e. ground (arith, e)), refl, refl, refl, refl),
  (refl, (λ e. ground (arith, e)), refl, refl, refl, refl),
)

three-At : At three [] 10 (node low 10 false high)
three-At = (0, record { above = (refl, refl); below = three-IsTree; unique = λ a. ground arith })

-- The free place below 5 on the left
abbrev free_place : Context
free_place = frame 5 true true leaf ∷ frame 10 false true high ∷ []

free_place-Holds : Holds three free_place 5 0 leaf
free_place-Holds = record {
  above = (
    refl,
    (λ e. ground (arith, e)),
    refl,
    refl,
    refl,
    (refl, (λ e. ground (arith, e)), refl, refl, three-IsTree.5, (refl, refl)),
  );
  below = refl;
  unique = λ a. ground arith;
}

rbtree_insert_lem_example :
    Returns
      (λ _ t. IsRedBlackTree t (3 ∷ 5 ∷ 10 ∷ 15 ∷ []))
      (rbtree_insert 3 3 5 (left_link 5) three)
rbtree_insert_lem_example =
    rbtree_insert_lem 3 3 5 three free_place 1 free_place-Holds
      (0, refl, (refl, refl, refl, refl), (refl, refl, refl, refl)) refl (λ e. ground (arith, e))
      refl (omega arith)

rbtree_delete_lem_example :
    Returns (λ _ t. IsRedBlackTree t (5 ∷ 15 ∷ [])) (rbtree_delete 4 10 three)
rbtree_delete_lem_example =
    rbtree_delete_lem 4 three [] 1 0 10 false low high
      (record { above = (refl, refl); below = three-IsTree; unique = λ a. ground arith })
      (0, refl, (refl, refl, refl, refl), (refl, refl, refl, refl)) refl (omega arith)

rotate-rotate_example :
    (flat (node (node low 10 false leaf) 15 true leaf)
      ≡ flat (node low 10 false (node leaf 15 true leaf)))
    × Returns
        (λ _ t.
          At t [] 15 (node (node low 10 false leaf) 15 true leaf)
          × Returns
              (λ _ u. At u [] 10 (node low 10 false (node leaf 15 true leaf)))
              (rotate 15 false t))
        (rotate 10 true three)
rotate-rotate_example = rotate-rotate three [] 10 15 false true low leaf leaf three-At

abbrev seek : ℕ → ℕ → Comparison
seek k a = if k == a then equal else if ltb k a then below else above

rbtree_find_lem_example :
    rbtree_find (seek 15) 4 10 three ≡ some (first_equal (seek 15) (5 ∷ 10 ∷ 15 ∷ []), three)
rbtree_find_lem_example =
    rbtree_find_lem (seek 15) 4 three 0 10 (node low 10 false high) three-IsTree tt (omega arith)

rbtree_first_lem_example : rbtree_first 3 10 three ≡ some (5, three)
rbtree_first_lem_example =
    rbtree_first_lem 3 three 0 10 (node low 10 false high) three-IsTree (λ e. ground (arith, e))
      (omega arith)

rbtree_next_lem_example :
    (flat (node low 10 false high) ≡ (5 ∷ []) ++ (10 ∷ 15 ∷ []))
    × (rbtree_next 2 10 three ≡ some (15, three))
rbtree_next_lem_example =
    rbtree_next_lem 2 three [] 0 10 false low high
      (record { above = (refl, refl); below = three-IsTree; unique = λ a. ground arith })
      (omega arith)

abbrev empty : Nodes
empty = record { red = λ _. false; left = λ _. 0; right = λ _. 0; parent = λ _. 0; root = 0 }

abbrev what : {A : Type 0} → Option (A × Nodes) → A → A
what none d = d
what (some (a, s)) d = a

-- The fields of a few nodes
abbrev shape : Option (Unit {0} × Nodes) → List (ℕ × ℕ × Bool)
shape none = []
shape (some (u, s)) =
    (s.root, 0, false)
    ∷ (s.left 1, s.right 1, s.red 1)
    ∷ (s.left 2, s.right 2, s.red 2)
    ∷ (s.left 3, s.right 3, s.red 3)
    ∷ []

-- In ascending order, which takes a rotation
abbrev ascending : Cmd Nodes (Unit {0})
ascending =
    rbtree_insert 5 1 0 root_link
    >> rbtree_insert 5 2 1 (right_link 1)
    >> rbtree_insert 5 3 2 (right_link 2)

ascending_run :
    shape (ascending empty) ≡ (2, 0, false) ∷ (0, 0, true) ∷ (1, 3, false) ∷ (0, 0, true) ∷ []
unfolding rbtree_insert set_red set_left set_right set_parent set_link rebalance_insert climb
    get_parent is_red get_root uncle_of get_left to_boundary rotate rotate_left move_parent
ascending_run = refl

-- Deletion of the root, and of a black node, which takes a rotation
abbrev deleted : ℕ → Cmd Nodes (Unit {0})
deleted a = ascending >> rbtree_insert 5 4 3 (right_link 3) >> rbtree_delete 5 a

deleted_run :
    (shape (deleted 2 empty) ≡ (3, 0, false) ∷ (0, 0, false) ∷ (1, 4, false) ∷ (1, 4, false) ∷ [])
    × (shape (deleted 1 empty) ≡ (3, 0, false) ∷ (0, 0, false) ∷ (0, 0, false) ∷ (2, 4, false) ∷ [])
unfolding rbtree_insert set_red set_left set_right set_parent set_link rebalance_insert climb
    get_parent is_red get_root uncle_of get_left to_boundary rotate rotate_left move_parent
    rbtree_delete has_left cut_successor rbtree_first get_red replace move_children rebalance_delete
    descend is_black cut_out get_child lift_sibling turn_sibling
deleted_run = (refl, refl)
