-- ===== src/RbTree/Colors.antt =====
-- The colors of kernel/adt/rbtree.h: what a red-black tree is, and a place that a tree of a given
-- black height fits into.
use osy.Common.{
  ℕ, suc, Bool, true, false, List, [], ◌∷◌, if◌then◌else◌, ◌≡◌, refl, sym, ◌∙◌, ap, arith,
  Bool-cases, inl, inr,
}
use osy.RbTree.{Nodes, no_node}
use osy.RbTree.Shape.{
  Tree, leaf, node, Frame, Context, flat, flat_frame, flat_context, join, plug, Holds,
}

-- NULL is black.
abbrev pub is_red_tree : Tree → Bool
is_red_tree leaf = false
is_red_tree (node l a c r) = c

-- All paths from the root down have `h` black nodes, and a red node has black children.
abbrev pub IsRedBlack : ℕ → Tree → Type 0
IsRedBlack h leaf = h ≡ 0
IsRedBlack h (node l a true r) =
    IsRedBlack h l × IsRedBlack h r × (is_red_tree l ≡ false) × (is_red_tree r ≡ false)
IsRedBlack h (node l a false r) = (k : ℕ) × (h ≡ suc k) × IsRedBlack k l × IsRedBlack k r

abbrev pub is_red_context : Context → Bool
is_red_context [] = false
is_red_context (f ∷ fs) = f.red

-- A red node is not the root, and the one above it is black.
abbrev pub HasBlackParent : Context → Type 0
HasBlackParent [] = ⊥
HasBlackParent (f ∷ fs) = f.red ≡ false

-- A tree of black height `h` fits into the place, but for the color of its root.
abbrev pub FitsAt : ℕ → Context → Type 0
FitsAt h [] = Unit
FitsAt h (f ∷ fs) =
    IsRedBlack h f.other
    × (f.red ≡ true → (is_red_tree f.other ≡ false) × HasBlackParent fs)
    × FitsAt (if f.red then h else suc h) fs

-- A tree in the nodes from the root on, which is red-black but for the color of its root, and whose
-- nodes are the ones listed.
pub record Balanced (s : Nodes) (xs : List ℕ) : Type 0 where
  pub tree : Tree
  pub holds : Holds s [] no_node s.root tree
  pub height : ℕ
  pub colors : IsRedBlack height tree
  pub order : flat tree ≡ xs

pub flat-join : (f : Frame) (t : Tree) → flat (join f t) ≡ flat_frame f (flat t)
flat-join f t = elim (Bool-cases f.is_left) [ inl e ↦ rw e refl | inr e ↦ rw e refl ]

pub flat-plug : (fs : Context) (t : Tree) → flat (plug fs t) ≡ flat_context fs (flat t)
flat-plug [] t = refl
flat-plug (f ∷ fs) t = flat-plug fs (join f t) ∙ ap (flat_context fs) (flat-join f t)

pub IsRedBlack-join :
    (h : ℕ) (f : Frame) (t : Tree)
    → IsRedBlack h t
    → IsRedBlack h f.other
    → (f.red ≡ true → (is_red_tree t ≡ false) × (is_red_tree f.other ≡ false))
    → IsRedBlack (if f.red then h else suc h) (join f t)
IsRedBlack-join h f t tree other black = elim (Bool-cases f.is_left) [
  | inl e ↦ elim (Bool-cases f.red) [
    | inl r ↦ rw (e, r) (tree, other, (black r).0, (black r).1)
    | inr r ↦ rw (e, r) (h, refl, tree, other)
  ]
  | inr e ↦ elim (Bool-cases f.red) [
    | inl r ↦ rw (e, r) (other, tree, (black r).1, (black r).0)
    | inr r ↦ rw (e, r) (h, refl, other, tree)
  ]
]

pub is_red_tree-join : (f : Frame) (t : Tree) → is_red_tree (join f t) ≡ f.red
is_red_tree-join f t = elim (Bool-cases f.is_left) [ inl e ↦ rw e refl | inr e ↦ rw e refl ]

pub HasBlackParent-is_red : (fs : Context) → HasBlackParent fs → is_red_context fs ≡ false
HasBlackParent-is_red [] h = refl
HasBlackParent-is_red (f ∷ fs) h = h

pub IsRedBlack-plug :
    (h : ℕ) (fs : Context) (t : Tree)
    → FitsAt h fs
    → IsRedBlack h t
    → (is_red_context fs ≡ true → is_red_tree t ≡ false)
    → (k : ℕ) × IsRedBlack k (plug fs t)
IsRedBlack-plug h [] t fits tree black = (h, tree)
IsRedBlack-plug h (f ∷ fs) t fits tree black =
    IsRedBlack-plug (if f.red then h else suc h) fs (join f t) fits.2
      (IsRedBlack-join h f t tree fits.0 (λ r. (black r, (fits.1 r).0)))
      (λ r. is_red_tree-join f t ∙ elim (Bool-cases f.red) [
        | inl e ↦ ground (arith, r, HasBlackParent-is_red fs (fits.1 e).1)
        | inr e ↦ e
      ])

-- What is below a place counts by its nodes in order.
pub flat-plug_eq :
    (fs : Context) (t u : Tree) → flat t ≡ flat u → flat (plug fs t) ≡ flat (plug fs u)
flat-plug_eq fs t u e = flat-plug fs t ∙ ap (flat_context fs) e ∙ sym (flat-plug fs u)

pub flat-join_eq : (f : Frame) (t u : Tree) → flat t ≡ flat u → flat (join f t) ≡ flat (join f u)
flat-join_eq f t u e = flat-join f t ∙ ap (flat_frame f) e ∙ sym (flat-join f u)

-- The nodes form a red-black tree, of the nodes that are listed in order.
abbrev pub IsRedBlackTree : Nodes → List ℕ → Type 0
IsRedBlackTree s xs = (b : Balanced s xs) × (is_red_tree b.tree ≡ false)

abbrev pub blacken : Tree → Tree
blacken leaf = leaf
blacken (node l a c r) = node l a false r

pub IsRedBlack-blacken : (h : ℕ) (t : Tree) → IsRedBlack h t → (k : ℕ) × IsRedBlack k (blacken t)
IsRedBlack-blacken h leaf b = (h, b)
IsRedBlack-blacken h (node l a true r) b = (suc h, (h, refl, b.0, b.1))
IsRedBlack-blacken h (node l a false r) b = (h, b)

-- A place in a tree that is red-black when the node there is made black.
pub record Finished (s : Nodes) (p : ℕ) (xs : List ℕ) : Type 0 where
  pub context : Context
  pub tree : Tree
  pub place : (up : ℕ) × Holds s context up p tree
  pub height : ℕ
  pub colors : IsRedBlack height (blacken tree)
  pub fits : FitsAt height context
  pub order : flat (plug context tree) ≡ xs

pub blacken-join :
    (d : Bool) (a : ℕ) (o t : Tree)
    → blacken (join (record { at = a; red = true; is_left = d; other = o }) t)
      ≡ join (record { at = a; red = false; is_left = d; other = o }) t
blacken-join true a o t = refl
blacken-join false a o t = refl
