-- ===== src/Malloc/Settled.antt =====
-- Heaps with no two free blocks side by side, and where first fit finds a block in the list.
use mathlib.Core.Option
use osy.Common.{
  ℕ, ◌+◌, ◌-◌, ◌≤◌, ◌≡◌, refl, sym, ◌∙◌, ap, subst, true, false, ◌&&◌, Option, none, some, List, [],
  ◌∷◌, ◌++◌, if◌then◌else◌, ltb, leb, arith, Bool-cases, inl, inr,
}
use osy.Malloc.Blocks.{Block, min_block}
use osy.Malloc.Fit.{Found, place, behind, fit}
use osy.Malloc.Merge.{absorb, attach, release}

abbrev pub Settled : List Block → Type 0
Settled [] = Unit
Settled (b ∷ []) = Unit
Settled (b ∷ c ∷ bs) = ((b.1 && c.1) ≡ false) × Settled (c ∷ bs)

-- The bytes of the blocks
abbrev pub extent : List Block → ℕ
extent [] = 0
extent ((n, free) ∷ bs) = n + extent bs

-- Where the block that `fit` finds stands in the list.
pub record Spot (real p : ℕ) (bs : List Block) (f : Found) : Type 0 where
  pub pre : List Block
  pub post : List Block
  pub here : bs ≡ pre ++ (f.size, true) ∷ post
  pub after : f.after ≡ pre ++ place real f.size ++ post
  pub enough : real ≤ f.size
  pub at : f.at ≡ p + extent pre

pub fit-Spot :
    (real p : ℕ) (bs : List Block) (f : Found) → fit real p bs ≡ some f → Spot real p bs f
fit-Spot real p [] f e = cc
fit-Spot real p ((n, free) ∷ bs) f e = elim (Bool-cases (free && leb real n)) [
  | inl hit ↦ first hit (rw hit at e)
  | inr miss ↦ later (fit-Spot real (p + n) bs) (fit real (p + n) bs) refl (rw miss at e)
]
  where
    first :
        (free && leb real n) ≡ true
        → some (record { at = p; size = n; after = place real n ++ bs }) ≡ some f
        → Spot real p ((n, free) ∷ bs) f
    first hit e = record {
      pre = [];
      post = bs;
      here = ground arith;
      after = ground arith;
      enough = ground arith;
      at =
          let same : record { at = p; size = n; after = place real n ++ bs } ≡ f = cc in
          ap (λ g. g.at) (sym same) ∙ omega arith;
    }

    later :
        ((g : Found) → fit real (p + n) bs ≡ some g → Spot real (p + n) bs g)
        → (o : Option Found) → fit real (p + n) bs ≡ o
        → Option.map (behind (n, free)) o ≡ some f
        → Spot real p ((n, free) ∷ bs) f
    later rec none eq e = cc
    later rec (some g) eq e =
        let s = rec g eq in
        let same : behind (n, free) g ≡ f = cc in
        subst (Spot real p ((n, free) ∷ bs)) same (record {
          pre = (n, free) ∷ s.pre;
          post = s.post;
          here = ap (λ xs. (n, free) ∷ xs) s.here;
          after = ap (λ xs. (n, free) ∷ xs) s.after;
          enough = s.enough;
          at = omega (arith, s.at);
        })

place-Settled :
    (real n : ℕ) (pre post : List Block)
    → Settled (pre ++ (n, true) ∷ post)
    → Settled (pre ++ place real n ++ post)
place-Settled real n [] [] h = ground arith
place-Settled real n [] (c ∷ post) h = ground arith
place-Settled real n (b ∷ []) [] h = ground arith
place-Settled real n (b ∷ []) (c ∷ post) h = ground arith
place-Settled real n (b ∷ c ∷ pre) post h = (h.0, place-Settled real n (c ∷ pre) post h.1)

-- Taking the first block that fits keeps free blocks apart.
pub fit-Settled :
    (real p : ℕ) (bs : List Block) (f : Found)
    → Settled bs
    → fit real p bs ≡ some f
    → Settled f.after
fit-Settled real p bs f h e =
    let s = fit-Spot real p bs f e in
    rw (s.after) (place-Settled real f.size s.pre s.post (subst Settled s.here h))

-- Freeing a block keeps free blocks apart: it merges with every free neighbour.
pub release-Settled :
    (pre : List Block) (n : ℕ) (post : List Block)
    → Settled (pre ++ (n, false) ∷ post)
    → Settled (release pre n post)
release-Settled [] n [] h = tt
release-Settled [] n ((k, true) ∷ []) h = tt
release-Settled [] n ((k, true) ∷ c ∷ post) h = ground arith
release-Settled [] n ((k, false) ∷ post) h = ground arith
release-Settled ((j, free) ∷ []) n [] h = ground arith
release-Settled ((j, free) ∷ []) n ((k, true) ∷ []) h = ground arith
release-Settled ((j, free) ∷ []) n ((k, true) ∷ c ∷ post) h = ground arith
release-Settled ((j, free) ∷ []) n ((k, false) ∷ post) h = ground arith
release-Settled (b ∷ (j, true) ∷ []) n post h = (h.0, release-Settled ((j, true) ∷ []) n post h.1)
release-Settled (b ∷ (j, false) ∷ []) n post h = (h.0, release-Settled ((j, false) ∷ []) n post h.1)
release-Settled (b ∷ c ∷ d ∷ pre) n post h = (h.0, release-Settled (c ∷ d ∷ pre) n post h.1)

attach_apart :
    (pre : List Block) (n : ℕ) (post : List Block)
    → Settled (pre ++ (n, true) ∷ post)
    → attach pre n post ≡ pre ++ (n, true) ∷ post
attach_apart [] n post h = refl
attach_apart ((j, true) ∷ []) n post h = cc
attach_apart ((j, false) ∷ []) n post h = refl
attach_apart (b ∷ c ∷ pre) n post h = ap (λ xs. b ∷ xs) (attach_apart (c ∷ pre) n post h.1)

absorb_apart :
    (pre : List Block) (n : ℕ) (post : List Block)
    → Settled (pre ++ (n, true) ∷ post)
    → absorb n post ≡ (n, post)
absorb_apart [] n [] h = refl
absorb_apart [] n ((k, true) ∷ post) h = cc
absorb_apart [] n ((k, false) ∷ post) h = refl
absorb_apart (b ∷ []) n post h = absorb_apart [] n post h.1
absorb_apart (b ∷ c ∷ pre) n post h = absorb_apart (c ∷ pre) n post h.1

-- The size of the block that is handed out, and the blocks behind it.
abbrev pub taken_size : ℕ → ℕ → ℕ
taken_size real n = if ltb (real + min_block) n then real else n

abbrev pub taken_rest : ℕ → ℕ → List Block → List Block
taken_rest real n post = if ltb (real + min_block) n then (n - real, true) ∷ post else post

-- Freeing what was just taken restores the blocks.
pub release-place :
    (real n : ℕ) (pre post : List Block)
    → Settled (pre ++ (n, true) ∷ post)
    → real ≤ n
    → release pre (taken_size real n) (taken_rest real n post) ≡ pre ++ (n, true) ∷ post
release-place real n pre post h le = elim (Bool-cases (ltb (real + min_block) n)) [
  | inl more ↦
      let whole : real + (n - real) ≡ n = omega arith in
      rw more (rw whole (attach_apart pre n post h))
  | inr less ↦ rw less (rw (absorb_apart pre n post h) (attach_apart pre n post h))
]
