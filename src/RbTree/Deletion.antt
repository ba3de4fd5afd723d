-- ===== src/RbTree/Deletion.antt =====
-- kernel/adt/rbtree.c: deletion of a node.
use osy.Common.{
  ℕ, zero, suc, Bool, true, false, not, ◌&&◌, ◌==◌, if◌then◌else◌, Cmd, pure, fail, ◌>>=◌, ◌>>◌,
  assert,
}
use osy.RbTree.{
  Nodes, is_node, get_left, get_right, get_parent, get_red, get_root, set_red, is_red, is_black,
  has_left, has_right, when, rotate, move_parent, move_children, rbtree_first,
}

-- The child of a node on one side
unfoldable pub get_child : Bool → ℕ → Cmd Nodes ℕ
get_child left a = if left then get_left a else get_right a

-- A red sibling is rotated over the parent; the sibling afterwards
unfoldable pub lift_sibling : (parent sibling : ℕ) → Bool → Cmd Nodes ℕ
lift_sibling parent sibling nleft = do
  sibling_red ← is_red sibling
  if sibling_red
      then (do
        rotate parent nleft
        set_red parent true
        set_red sibling false
        get_child (not nleft) parent)
      else pure sibling

-- A black `inner` child is replaced by a red `outer` one: `inner` and the sibling afterwards
unfoldable pub turn_sibling : (inner sibling : ℕ) → Bool → Cmd Nodes (ℕ × ℕ)
turn_sibling inner sibling nleft = do
  inner_black ← is_black inner
  if inner_black
      then (do
        outer ← get_child nleft sibling
        outer_red ← is_red outer
        assert outer_red
        rotate sibling (not nleft)
        set_red outer false
        set_red sibling true
        pure (sibling, outer))
      else pure (inner, sibling)

-- The loop of `__rbtree_rebalance_delete`; the result is `node` at its end.
unfoldable pub descend : (fuel parent node : ℕ) → Cmd Nodes ℕ
descend zero parent node = fail
descend (suc fuel) parent node = do
  black ← is_black node
  root ← get_root
  if not (black && not (node == root)) then pure node else (do
    l ← get_left parent
    let nleft = node == l
    first ← get_child (not nleft) parent
    sibling ← lift_sibling parent first nleft
    sl ← get_left sibling
    left_black ← is_black sl
    sr ← get_right sibling
    right_black ← is_black sr
    if left_black && right_black
        then (do set_red sibling true; above ← get_parent parent; descend fuel above parent)
        else (do
          near ← get_child (not nleft) sibling
          (inner, top) ← turn_sibling near sibling nleft
          inner_red ← is_red inner
          assert inner_red
          rotate parent nleft
          color ← get_red parent
          set_red top color
          set_red parent false
          set_red inner false
          get_root))

-- `__rbtree_rebalance_delete`
unfoldable pub rebalance_delete : (fuel parent node : ℕ) → Cmd Nodes (Unit {0})
rebalance_delete fuel parent node = do
  last ← descend fuel parent node
  when (is_node last) (set_red last false)

-- `__rbtree_replace`
unfoldable pub replace : (old new : ℕ) → Cmd Nodes (Unit {0})
replace old new = do
  when (is_node new) (do color ← get_red old; set_red new color)
  move_children old new
  move_parent old new
  pure tt

-- A node with at most one child is cut out: the color of the node that is gone, its parent and child.
unfoldable pub cut_out : ℕ → Cmd Nodes (Bool × ℕ × ℕ)
cut_out node = do
  left ← has_left node
  child ← if left then get_left node else get_right node
  parent ← move_parent node child
  color ← get_red node
  pure (color, parent, child)

-- A node with two children is replaced by the first node of its right subtree, which is cut out.
unfoldable pub cut_successor : (fuel node : ℕ) → Cmd Nodes (Bool × ℕ × ℕ)
cut_successor fuel node = do
  right ← get_right node
  subst ← rbtree_first fuel right
  child ← get_right subst
  parent ← move_parent subst child
  color ← get_red subst
  replace node subst
  pure (color, (if parent == node then subst else parent), child)

-- `rbtree_delete` and `__rbtree_delete`
unfoldable pub rbtree_delete : (fuel node : ℕ) → Cmd Nodes (Unit {0})
rbtree_delete fuel node = do
  assert (is_node node)
  left ← has_left node
  right ← has_right node
  (color, parent, child) ← if left && right then cut_successor fuel node else cut_out node
  when (not color) (rebalance_delete fuel parent child)
