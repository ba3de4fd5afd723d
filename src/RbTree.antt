-- ===== src/RbTree.antt =====
-- kernel/adt/rbtree.h and kernel/adt/rbtree.c: red-black trees of nodes with parent links. A node is
-- an address, NULL is 0, and the store keeps the fields of each node and the root of the tree. An
-- access through NULL and a failed assertion are `none`. The loops take fuel.
pub mod Shape
pub mod Place
pub mod Rotation
pub mod RotateLeft
pub mod RotateRight
pub mod Colors
pub mod Recolor
pub mod Boundary
pub mod Rebalance
pub mod Climb
pub mod Fits
pub mod Attach
pub mod Search
pub mod Walk
pub mod Insertion
pub mod Deletion
pub mod Sides
pub mod Borrow
pub mod Descend
pub mod Round
pub mod Lift
pub mod Sink
pub mod Settle
pub mod Cut
pub mod Replace
pub mod Ways
pub mod Successor
pub mod Delete
mod Tests
use osy.Common.{
  ℕ, zero, suc, Bool, true, false, not, ◌&&◌, ◌||◌, Option, none, some, ◌==◌, if◌then◌else◌, Cmd,
  pure, fail, ◌>>=◌, ◌>>◌, assert,
}

-- `struct rbnode` for all nodes, and `struct rbtree`. The color is whether the node is red.
pub record Nodes : Type 0 where
  pub red : ℕ → Bool
  pub left : ℕ → ℕ
  pub right : ℕ → ℕ
  pub parent : ℕ → ℕ
  pub root : ℕ

-- `RBTREE_NULL`
abbrev pub no_node : ℕ
no_node = 0

-- `rbtree_is_node`
abbrev pub is_node : ℕ → Bool
is_node a = not (a == no_node)

abbrev pub put {ℓ} : {A : Type ℓ} → (ℕ → A) → ℕ → A → ℕ → A
put f a v b = if b == a then v else f b

-- Reads and writes of a node's fields
unfoldable pub get_left : ℕ → Cmd Nodes ℕ
get_left a = if a == no_node then fail else λ s. some (s.left a, s)

unfoldable pub get_right : ℕ → Cmd Nodes ℕ
get_right a = if a == no_node then fail else λ s. some (s.right a, s)

unfoldable pub get_parent : ℕ → Cmd Nodes ℕ
get_parent a = if a == no_node then fail else λ s. some (s.parent a, s)

unfoldable pub get_red : ℕ → Cmd Nodes Bool
get_red a = if a == no_node then fail else λ s. some (s.red a, s)

unfoldable pub set_left : ℕ → ℕ → Cmd Nodes (Unit {0})
set_left a v = if a == no_node then fail else λ s. some (tt, record s { left = put s.left a v })

unfoldable pub set_right : ℕ → ℕ → Cmd Nodes (Unit {0})
set_right a v = if a == no_node then fail else λ s. some (tt, record s { right = put s.right a v })

unfoldable pub set_parent : ℕ → ℕ → Cmd Nodes (Unit {0})
set_parent a v =
    if a == no_node then fail else λ s. some (tt, record s { parent = put s.parent a v })

unfoldable pub set_red : ℕ → Bool → Cmd Nodes (Unit {0})
set_red a v = if a == no_node then fail else λ s. some (tt, record s { red = put s.red a v })

unfoldable pub get_root : Cmd Nodes ℕ
get_root s = some (s.root, s)

unfoldable pub set_root : ℕ → Cmd Nodes (Unit {0})
set_root a s = some (tt, record s { root = a })

-- `rbtree_is_red` and `rbtree_is_black`: NULL is black.
unfoldable pub is_red : ℕ → Cmd Nodes Bool
is_red a s = some (is_node a && s.red a, s)

unfoldable pub is_black : ℕ → Cmd Nodes Bool
is_black a s = some (not (is_node a) || not (s.red a), s)

-- `rbtree_has_left`, `rbtree_has_right`
unfoldable pub has_left : ℕ → Cmd Nodes Bool
unfolding get_left
has_left a = do l ← get_left a; pure (is_node l)

unfoldable pub has_right : ℕ → Cmd Nodes Bool
unfolding get_right
has_right a = do r ← get_right a; pure (is_node r)

unfoldable pub when : Bool → Cmd Nodes (Unit {0}) → Cmd Nodes (Unit {0})
when b m = if b then m else pure tt

-- `rbtree_init`
unfoldable pub rbtree_init : ℕ → Cmd Nodes (Unit {0})
unfolding set_red set_left set_right set_parent
rbtree_init node = do
  assert (is_node node)
  set_red node true
  set_left node no_node
  set_right node no_node
  set_parent node no_node

-- `__rbtree_first` and `__rbtree_last`
unfoldable pub walk_left : (fuel : ℕ) → ℕ → Cmd Nodes ℕ
unfolding get_left
walk_left zero root = fail
walk_left (suc fuel) root = do l ← get_left root; if is_node l then walk_left fuel l else pure root

unfoldable pub walk_right : (fuel : ℕ) → ℕ → Cmd Nodes ℕ
unfolding get_right
walk_right zero root = fail
walk_right (suc fuel) root = do
  r ← get_right root
  if is_node r then walk_right fuel r else pure root

unfoldable pub rbtree_first : (fuel : ℕ) → ℕ → Cmd Nodes ℕ
unfolding walk_left
rbtree_first fuel root = do assert (is_node root); walk_left fuel root

unfoldable pub rbtree_last : (fuel : ℕ) → ℕ → Cmd Nodes ℕ
unfolding walk_right
rbtree_last fuel root = do assert (is_node root); walk_right fuel root

-- The loops of `__rbtree_next` and `__rbtree_prev`: up while the node is a right, or a left, child.
unfoldable pub up_from_right : (fuel : ℕ) → ℕ → Cmd Nodes ℕ
unfolding get_parent get_right
up_from_right zero node = fail
up_from_right (suc fuel) node = do
  parent ← get_parent node
  if is_node parent
      then (do r ← get_right parent; if node == r then up_from_right fuel parent else pure parent)
      else pure parent

unfoldable pub up_from_left : (fuel : ℕ) → ℕ → Cmd Nodes ℕ
unfolding get_parent get_left
up_from_left zero node = fail
up_from_left (suc fuel) node = do
  parent ← get_parent node
  if is_node parent
      then (do l ← get_left parent; if node == l then up_from_left fuel parent else pure parent)
      else pure parent

unfoldable pub rbtree_next : (fuel : ℕ) → ℕ → Cmd Nodes ℕ
unfolding has_right get_right walk_left up_from_right
rbtree_next fuel node = do
  assert (is_node node)
  inner ← has_right node
  if inner then (do r ← get_right node; walk_left fuel r) else up_from_right fuel node

unfoldable pub rbtree_prev : (fuel : ℕ) → ℕ → Cmd Nodes ℕ
unfolding has_left get_left walk_right up_from_left
rbtree_prev fuel node = do
  assert (is_node node)
  inner ← has_left node
  if inner then (do l ← get_left node; walk_right fuel l) else up_from_left fuel node

-- The result of a comparison: the key is below, above or equal.
pub data Comparison : Type 0 where
  below above equal : Comparison

-- `rbtree_find`; `compare` is the callback with its data.
unfoldable pub rbtree_find : (compare : ℕ → Comparison) (fuel : ℕ) → ℕ → Cmd Nodes ℕ
unfolding get_left get_right
rbtree_find compare zero root = fail
rbtree_find compare (suc fuel) root =
    if is_node root
    then elim (compare root) [
      | below ↦ (do l ← get_left root; rbtree_find compare fuel l)
      | above ↦ (do r ← get_right root; rbtree_find compare fuel r)
      | equal ↦ pure root
    ]
    else pure no_node

-- `__rbtree_move_parent`
unfoldable pub move_parent : (old new : ℕ) → Cmd Nodes ℕ
unfolding get_parent set_parent get_left set_left set_right set_root when
move_parent old new = do
  parent ← get_parent old
  when (is_node new) (set_parent new parent)
  if is_node parent
      then (do l ← get_left parent; if old == l then set_left parent new else set_right parent new)
      else set_root new
  pure parent

-- `__rbtree_move_children`
unfoldable pub move_children : (old new : ℕ) → Cmd Nodes (Unit {0})
unfolding get_left get_right set_left set_right when has_left has_right
move_children old new = do
  when (is_node new) (do l ← get_left old; set_left new l; r ← get_right old; set_right new r)
  left ← has_left old
  when left (do l ← get_left old; set_parent l new)
  right ← has_right old
  when right (do r ← get_right old; set_parent r new)

-- `__rbtree_rotate_left`
unfoldable pub rotate_left : ℕ → Cmd Nodes (Unit {0})
unfolding get_right get_left set_right set_left has_right when
rotate_left pivot = do
  child ← get_right pivot
  inner ← get_left child
  set_right pivot inner
  set_left child pivot
  moved ← has_right pivot
  when moved (do r ← get_right pivot; set_parent r pivot)
  move_parent pivot child
  set_parent pivot child

-- `__rbtree_rotate_right`
unfoldable pub rotate_right : ℕ → Cmd Nodes (Unit {0})
unfolding get_left get_right set_left set_right has_left when
rotate_right pivot = do
  child ← get_left pivot
  inner ← get_right child
  set_left pivot inner
  set_right child pivot
  moved ← has_left pivot
  when moved (do l ← get_left pivot; set_parent l pivot)
  move_parent pivot child
  set_parent pivot child

-- `__rbtree_rotate`
unfoldable pub rotate : ℕ → Bool → Cmd Nodes (Unit {0})
rotate pivot left = if left then rotate_left pivot else rotate_right pivot
