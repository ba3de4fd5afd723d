-- ===== src/RbTree/Ways.antt =====
-- Ways down the trees of kernel/adt/rbtree.h: a place below a place, and the way to the first node.
use osy.Common.{
  ℕ, ◌+◌, ◌<◌, Bool, true, [], ◌∷◌, ◌++◌, ◌≡◌, refl, sym, ◌∙◌, ap, arith, length, length-append,
  Bool-cases, inl, inr,
}
use osy.RbTree.{Nodes, no_node}
use osy.RbTree.Shape.{
  Tree, leaf, node, Frame, Context, join, plug, flat, count, count_context, once, IsTree, IsContext,
}
use osy.RbTree.Place.{frame, At, At-ascend, At-descend, At-root_join}
use osy.RbTree.Search.{size}
use osy.RbTree.Fits.{Fits, IsRedBlack-split}

pub plug-append : (gs hs : Context) (t : Tree) → plug (gs ++ hs) t ≡ plug hs (plug gs t)
plug-append [] hs t = refl
plug-append (f ∷ gs) hs t = plug-append gs hs (join f t)

pub count_context-append :
    (a : ℕ) (gs hs : Context) → count_context a (gs ++ hs) ≡ count_context a gs + count_context a hs
count_context-append a [] hs = omega arith
count_context-append a (f ∷ gs) hs = let rest = count_context-append a gs hs in omega (arith, rest)

count-join :
    (a : ℕ) (f : Frame) (t : Tree) → count a (join f t) ≡ once a f.at + count a f.other + count a t
count-join a f t = elim (Bool-cases f.is_left) [
  | inl e ↦ rw e (omega arith)
  | inr e ↦ rw e (omega arith)
]

pub count-plug :
    (a : ℕ) (gs : Context) (t : Tree) → count a (plug gs t) ≡ count_context a gs + count a t
count-plug a [] t = omega arith
count-plug a (f ∷ gs) t =
    let rest = count-plug a gs (join f t) in
    let here = count-join a f t in omega (arith, rest, here)

-- Down a way, and up again
pub go_down :
    (s : Nodes) (gs hs : Context) (p : ℕ) (t : Tree)
    → At s hs p (plug gs t)
    → (q : ℕ) × At s (gs ++ hs) q t
go_down s [] hs p t h = (p, h)
go_down s (f ∷ gs) hs p t h =
    let k = go_down s gs hs p (join f t) h in
    (
      _,
      At-descend s f.at f.red f.is_left f.other t (gs ++ hs)
          (At-root_join s (gs ++ hs) k.0 f.at f.red f.is_left f.other t k.1),
    )

pub go_up :
    (s : Nodes) (gs hs : Context) (q : ℕ) (t : Tree)
    → At s (gs ++ hs) q t
    → (p : ℕ) × At s hs p (plug gs t)
go_up s [] hs q t h = (q, h)
go_up s (f ∷ gs) hs q t h = go_up s gs hs f.at (join f t) (At-ascend s f (gs ++ hs) q t h)

pub Fits-down :
    (h : ℕ) (gs hs : Context) (t : Tree) → Fits h hs (plug gs t) → (k : ℕ) × Fits k (gs ++ hs) t
Fits-down h [] hs t k = (h, k)
Fits-down h (f ∷ gs) hs t k =
    let e = Fits-down h gs hs (join f t) k in IsRedBlack-split e.0 f (gs ++ hs) t e.1

-- The addresses that a tree and a context give
abbrev pub root_of : Tree → ℕ
root_of leaf = no_node
root_of (node l a c r) = a

abbrev pub top_of : Context → ℕ
top_of [] = no_node
top_of (f ∷ fs) = f.at

pub root_of_lem : (s : Nodes) (up p : ℕ) (t : Tree) → IsTree s up p t → p ≡ root_of t
root_of_lem s up p leaf h = h
root_of_lem s up p (node l a c r) h = h.0

pub top_of_lem : (s : Nodes) (up p : ℕ) (fs : Context) → IsContext s up p fs → up ≡ top_of fs
top_of_lem s up p [] h = h.0
top_of_lem s up p (f ∷ fs) h = h.0

-- The first node of a tree, which has no left child, and the way to it.
pub record Leftmost (t : Tree) : Type 0 where
  pub way : Context
  pub m : ℕ
  pub c : Bool
  pub r : Tree
  pub same : t ≡ plug way (node leaf m c r)
  pub order : flat t ≡ m ∷ flat (plug way r)
  pub short : length way < size t

pub leftmost : (l : Tree) (a : ℕ) (c : Bool) (r : Tree) → Leftmost (node l a c r)
leftmost leaf a c r = record {
  way = [];
  m = a;
  c = c;
  r = r;
  same = refl;
  order = refl;
  short = omega arith;
}
leftmost (node l b d r') a c r =
    let k = leftmost l b d r' in
    let f = frame a c true r in
    record {
      way = k.way ++ (f ∷ []);
      m = k.m;
      c = k.c;
      r = k.r;
      same = ap (join f) k.same ∙ sym (plug-append k.way (f ∷ []) (node leaf k.m k.c k.r));
      order =
          ap (λ xs. xs ++ (a ∷ flat r)) k.order
          ∙ ap (λ t. k.m ∷ flat t) (sym (plug-append k.way (f ∷ []) k.r));
      short = ground (arith, k.short, length-append k.way (f ∷ []));
    }
