-- ===== src/RbTree/Shape.antt =====
-- What the nodes of kernel/adt/rbtree.h stand for: a tree, or a place in a tree with what is above
-- and beside it. How often an address occurs tells that no node stands in two places.
use osy.Common.{
  ℕ, ◌+◌, ◌≤◌, Bool, List, [], ◌∷◌, ◌++◌, ◌==◌, if◌then◌else◌, ◌≡◌, ◌≢◌, refl, sym, ◌∙◌, ap, arith,
}
use osy.RbTree.{Nodes, no_node}

pub data Tree : Type 0 where
  leaf : Tree
  node : Tree → ℕ → Bool → Tree → Tree

-- One step up from a place: the node above, its color, which child the place is, and the other one.
pub record Frame : Type 0 where
  pub at : ℕ
  pub red : Bool
  pub is_left : Bool
  pub other : Tree

-- From the place up to the root
abbrev pub Context : Type 0
Context = List Frame

-- The nodes in order
abbrev pub flat : Tree → List ℕ
flat leaf = []
flat (node l a c r) = flat l ++ (a ∷ flat r)

abbrev pub flat_frame : Frame → List ℕ → List ℕ
flat_frame f xs = if f.is_left then xs ++ (f.at ∷ flat f.other) else flat f.other ++ (f.at ∷ xs)

abbrev pub flat_context : Context → List ℕ → List ℕ
flat_context [] xs = xs
flat_context (f ∷ fs) xs = flat_context fs (flat_frame f xs)

abbrev pub join : Frame → Tree → Tree
join f t = if f.is_left then node t f.at f.red f.other else node f.other f.at f.red t

abbrev pub plug : Context → Tree → Tree
plug [] t = t
plug (f ∷ fs) t = plug fs (join f t)

abbrev pub once : ℕ → ℕ → ℕ
once a b = if a == b then 1 else 0

abbrev pub count : ℕ → Tree → ℕ
count a leaf = 0
count a (node l b c r) = count a l + once a b + count a r

abbrev pub count_context : ℕ → Context → ℕ
count_context a [] = 0
count_context a (f ∷ fs) = once a f.at + count a f.other + count_context a fs

-- From `p`, below `up`, the nodes form the tree.
abbrev pub IsTree : Nodes → (up p : ℕ) → Tree → Type 0
IsTree s up p leaf = p ≡ no_node
IsTree s up p (node l a c r) =
    (p ≡ a)
    × (a ≢ no_node)
    × (s.red a ≡ c)
    × (s.parent a ≡ up)
    × IsTree s a (s.left a) l
    × IsTree s a (s.right a) r

-- The place `p`, below `up`, has the context above it.
abbrev pub IsContext : Nodes → (up p : ℕ) → Context → Type 0
IsContext s up p [] = (up ≡ no_node) × (s.root ≡ p)
IsContext s up p (f ∷ fs) =
    (up ≡ f.at)
    × (f.at ≢ no_node)
    × (s.red f.at ≡ f.red)
    × ((if f.is_left then s.left f.at else s.right f.at) ≡ p)
    × IsTree s f.at (if f.is_left then s.right f.at else s.left f.at) f.other
    × IsContext s (s.parent f.at) f.at fs

-- No address occurs twice.
abbrev pub Unique : Context → Tree → Type 0
Unique fs t = (a : ℕ) → count_context a fs + count a t ≤ 1

pub record Holds (s : Nodes) (fs : Context) (up p : ℕ) (t : Tree) : Type 0 where
  pub above : IsContext s up p fs
  pub below : IsTree s up p t
  pub unique : Unique fs t

-- The fields of the node are the same.
abbrev pub Same : Nodes → Nodes → ℕ → Type 0
Same s t a =
    (t.left a ≡ s.left a)
    × (t.right a ≡ s.right a)
    × (t.parent a ≡ s.parent a)
    × (t.red a ≡ s.red a)

pub IsTree-frame :
    (s t : Nodes) (up p : ℕ) (x : Tree)
    → IsTree s up p x
    → ((a : ℕ) → 1 ≤ count a x → Same s t a)
    → IsTree t up p x
IsTree-frame s t up p leaf h same = h
IsTree-frame s t up p (node l a c r) h same =
    let own = same a (ground arith) in
    (
      h.0,
      h.1,
      own.3 ∙ h.2,
      own.2 ∙ h.3,
      rw (own.0) (IsTree-frame s t a (s.left a) l h.4 λ b o. same b (omega arith)),
      rw (own.1) (IsTree-frame s t a (s.right a) r h.5 λ b o. same b (omega arith)),
    )

-- A tree that is moved below another node, which its root, if there is one, is told.
pub IsTree-reparent :
    (s t : Nodes) (up up' p : ℕ) (x : Tree)
    → IsTree s up p x
    → ((a : ℕ)
        → 1 ≤ count a x
        → (t.left a ≡ s.left a) × (t.right a ≡ s.right a) × (t.red a ≡ s.red a))
    → ((a : ℕ) → 1 ≤ count a x → a ≢ p → t.parent a ≡ s.parent a)
    → (p ≢ no_node → t.parent p ≡ up')
    → Unique [] x
    → IsTree t up' p x
IsTree-reparent s t up up' p leaf h same parents root one = h
IsTree-reparent s t up up' p (node l a c r) h same parents root one =
    let own = same a (ground arith) in
    let apart : (b : ℕ) → 1 ≤ count b l + count b r → b ≢ a = λ b o. ground (arith, one b) in
    (
      h.0,
      h.1,
      own.2 ∙ h.2,
      ap t.parent (sym h.0) ∙ root (λ e. h.1 (sym h.0 ∙ e)),
      rw (own.0) (
          IsTree-frame s t a (s.left a) l h.4 λ b o.
            let k = same b (omega arith) in
            (k.0, k.1, parents b (omega arith) (λ e. apart b (omega arith) (e ∙ h.0)), k.2)),
      rw (own.1) (
          IsTree-frame s t a (s.right a) r h.5 λ b o.
            let k = same b (omega arith) in
            (k.0, k.1, parents b (omega arith) (λ e. apart b (omega arith) (e ∙ h.0)), k.2)),
    )

pub IsContext-frame :
    (s t : Nodes) (up p : ℕ) (fs : Context)
    → IsContext s up p fs
    → ((a : ℕ) → 1 ≤ count_context a fs → Same s t a)
    → t.root ≡ s.root
    → IsContext t up p fs
IsContext-frame s t up p [] h same root = (h.0, root ∙ h.1)
IsContext-frame s t up p (f ∷ fs) h same root =
    let own = same f.at (ground arith) in
    (
      h.0,
      h.1,
      own.3 ∙ h.2,
      rw (own.0, own.1) (h.3),
      rw (own.0, own.1) (IsTree-frame s t f.at _ f.other h.4 λ b o. same b (omega arith)),
      rw (own.2)
          (IsContext-frame s t (s.parent f.at) f.at fs h.5 (λ b o. same b (omega arith)) root),
    )

-- The root of a tree is one of its nodes.
pub count_root : (s : Nodes) (up p : ℕ) (x : Tree) → IsTree s up p x → p ≢ no_node → 1 ≤ count p x
count_root s up p leaf h n = absurd (n h)
count_root s up p (node l a c r) h n = ground (arith, h.0)

-- No node is NULL.
pub count_null : (s : Nodes) (up p : ℕ) (x : Tree) → IsTree s up p x → count no_node x ≡ 0
count_null s up p leaf h = refl
count_null s up p (node l a c r) h =
    let left = count_null s a (s.left a) l h.4 in
    let right = count_null s a (s.right a) r h.5 in ground (arith, h.1, left, right)

pub count_context_null :
    (s : Nodes) (up p : ℕ) (fs : Context) → IsContext s up p fs → count_context no_node fs ≡ 0
count_context_null s up p [] h = refl
count_context_null s up p (f ∷ fs) h =
    let other = count_null s f.at _ f.other h.4 in
    let rest = count_context_null s (s.parent f.at) f.at fs h.5 in ground (arith, h.1, other, rest)
