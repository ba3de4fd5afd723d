-- ===== src/RbTree/Insertion.antt =====
-- kernel/adt/rbtree.c: insertion of a node at a free link.
use osy.Common.{
  ℕ, zero, suc, Bool, true, false, not, ◌==◌, if◌then◌else◌, Cmd, pure, fail, ◌>>=◌, ◌>>◌, assert,
}
use osy.RbTree.{
  Nodes, no_node, is_node, get_left, get_right, get_parent, get_root, set_left, set_right,
  set_parent, set_red, set_root, is_red, rotate,
}

-- `uncle = (gparent->left == parent) ? gparent->right : gparent->left`
unfoldable pub uncle_of : (gparent parent : ℕ) → Cmd Nodes ℕ
uncle_of gparent parent = do
  l ← get_left gparent
  if l == parent then get_right gparent else get_left gparent

abbrev pub differ : Bool → Bool → Bool
differ true b = not b
differ false b = b

-- The first rotation, of an inner node: the node and its parent afterwards
unfoldable pub to_boundary : (node parent : ℕ) → (nleft pleft : Bool) → Cmd Nodes (ℕ × ℕ)
to_boundary node parent nleft pleft =
    if differ nleft pleft
    then (do rotate parent pleft; above ← get_parent parent; pure (parent, above))
    else pure (node, parent)

-- The loop of `__rbtree_rebalance_insert`
unfoldable pub climb : (fuel : ℕ) → ℕ → Cmd Nodes (Unit {0})
climb zero node = fail
climb (suc fuel) node = do
  parent ← get_parent node
  parent_red ← is_red parent
  if not parent_red then pure tt else (do
    gparent ← get_parent parent
    uncle ← uncle_of gparent parent
    uncle_red ← is_red uncle
    if uncle_red
        then (do
          set_red uncle false
          set_red parent false
          set_red gparent true
          climb fuel gparent)
        else (do
          l ← get_left parent
          gl ← get_left gparent
          (node', parent') ← to_boundary node parent (l == node) (gl == parent)
          rotate gparent (not (gl == parent))
          set_red gparent true
          set_red parent' false
          climb fuel node'))

-- `__rbtree_rebalance_insert`
unfoldable pub rebalance_insert : (fuel : ℕ) → ℕ → Cmd Nodes (Unit {0})
rebalance_insert fuel node = do climb fuel node; root ← get_root; set_red root false

-- What `clinkp` points to
pub data Link : Type 0 where
  root_link : Link
  left_link : ℕ → Link
  right_link : ℕ → Link

unfoldable pub set_link : Link → ℕ → Cmd Nodes (Unit {0})
unfolding set_root set_left set_right
set_link root_link node = set_root node
set_link (left_link a) node = set_left a node
set_link (right_link a) node = set_right a node

-- `rbtree_insert` and `__rbtree_insert`
unfoldable pub rbtree_insert : (fuel node parent : ℕ) → Link → Cmd Nodes (Unit {0})
rbtree_insert fuel node parent clink = do
  assert (is_node node)
  set_red node true
  set_left node no_node
  set_right node no_node
  set_parent node parent
  set_link clink node
  rebalance_insert fuel node
