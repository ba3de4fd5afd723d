-- ===== src/RbTree/Fits.antt =====
-- The colors of a place in a red-black tree of kernel/adt/rbtree.h.
use osy.Common.{ℕ, suc, true, false, [], ◌∷◌, ◌≡◌, sym, ◌∙◌, arith, Bool-cases, inl, inr}
use osy.RbTree.Shape.{Tree, Frame, Context, join, plug}
use osy.RbTree.Colors.{
  is_red_tree, is_red_tree-join, IsRedBlack, FitsAt, HasBlackParent, is_red_context,
}

-- What a place of a red-black tree is like.
pub record Fits (h : ℕ) (fs : Context) (t : Tree) : Type 0 where
  pub colors : IsRedBlack h t
  pub fits : FitsAt h fs
  pub below_red : is_red_context fs ≡ true → is_red_tree t ≡ false
  pub red_below : is_red_tree t ≡ true → HasBlackParent fs

pub IsRedBlack-split :
    (h : ℕ) (f : Frame) (fs : Context) (t : Tree)
    → Fits h fs (join f t)
    → (k : ℕ) × Fits k (f ∷ fs) t
IsRedBlack-split h f fs t k = elim (Bool-cases f.is_left) [
  | inl e ↦ elim (Bool-cases f.red) [
    | inl r ↦
        let b : IsRedBlack h t
            × IsRedBlack h f.other
            × (is_red_tree t ≡ false)
            × (is_red_tree f.other ≡ false) =
          rw (e, r) at (k.colors) in
        (
          h,
          record {
            colors = b.0;
            fits = (b.1, (λ _. (b.3, k.red_below (is_red_tree-join f t ∙ r))), rw r (k.fits));
            below_red = λ _. b.2;
            red_below = λ i. ground (arith, i, b.2);
          },
        )
    | inr r ↦
        let b : (j : ℕ) × (h ≡ suc j) × IsRedBlack j t × IsRedBlack j f.other =
          rw (e, r) at (k.colors) in
        (
          b.0,
          record {
            colors = b.2;
            fits = (b.3, (λ i. ground (arith, i, r)), rw (r, sym b.1) (k.fits));
            below_red = λ i. ground (arith, i, r);
            red_below = λ _. r;
          },
        )
  ]
  | inr e ↦ elim (Bool-cases f.red) [
    | inl r ↦
        let b : IsRedBlack h f.other
            × IsRedBlack h t
            × (is_red_tree f.other ≡ false)
            × (is_red_tree t ≡ false) =
          rw (e, r) at (k.colors) in
        (
          h,
          record {
            colors = b.1;
            fits = (b.0, (λ _. (b.2, k.red_below (is_red_tree-join f t ∙ r))), rw r (k.fits));
            below_red = λ _. b.3;
            red_below = λ i. ground (arith, i, b.3);
          },
        )
    | inr r ↦
        let b : (j : ℕ) × (h ≡ suc j) × IsRedBlack j f.other × IsRedBlack j t =
          rw (e, r) at (k.colors) in
        (
          b.0,
          record {
            colors = b.3;
            fits = (b.2, (λ i. ground (arith, i, r)), rw (r, sym b.1) (k.fits));
            below_red = λ i. ground (arith, i, r);
            red_below = λ _. r;
          },
        )
  ]
]

-- Each place of a red-black tree is one that its subtree fits into.
pub Fits-plug :
    (h : ℕ) (fs : Context) (t : Tree)
    → IsRedBlack h (plug fs t)
    → is_red_tree (plug fs t) ≡ false
    → (k : ℕ) × Fits k fs t
Fits-plug h [] t b black = (
  h,
  record {
    colors = b;
    fits = tt;
    below_red = λ i. black;
    red_below = λ i. ground (arith, i, black);
  },
)
Fits-plug h (f ∷ fs) t b black =
    let k = Fits-plug h fs (join f t) b black in IsRedBlack-split k.0 f fs t k.1
