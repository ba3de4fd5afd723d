-- ===== src/RbTree/Rotation.antt =====
-- kernel/adt/rbtree.c: the change of a link from above, and rotations, as changes of the tree.
use osy.Common.{
  ℕ, ◌+◌, ◌≤◌, true, false, [], ◌∷◌, ◌==◌, if◌then◌else◌, ◌≡◌, ◌≢◌, refl, ◌∙◌, ap, arith, Returns,
  ==_false, ==_self, eq-of_==, Bool-cases, inl, inr, some, subst,
}
use osy.RbTree.{Nodes, no_node, put, move_parent, set_parent}
use osy.RbTree.Shape.{
  Tree, Frame, Context, count, count_context, IsTree, IsContext, Unique, Same, IsTree-frame,
  IsContext-frame, count_root, count_null,
}

-- What `move_parent` writes: the link of `up`, and the parent of `new`.
abbrev pub Moved : Nodes → (up new : ℕ) → Nodes → Type 0
Moved s up new t =
    ((a : ℕ) → a ≢ up → (t.left a ≡ s.left a) × (t.right a ≡ s.right a))
    × ((a : ℕ) → t.red a ≡ s.red a)
    × ((a : ℕ) → a ≢ new → t.parent a ≡ s.parent a)
    × (new ≢ no_node → t.parent new ≡ up)

-- The innermost link of a context is changed, and nothing else of it.
pub relink :
    (s t : Nodes) (p new : ℕ) (f : Frame) (fs : Context)
    → IsContext s f.at p (f ∷ fs)
    → ((a : ℕ) → count_context a (f ∷ fs) ≤ 1)
    → (if f.is_left then t.left f.at else t.right f.at) ≡ new
    → (if f.is_left then t.right f.at else t.left f.at)
      ≡ (if f.is_left then s.right f.at else s.left f.at)
    → ((a : ℕ)
        → 1 ≤ count_context a (f ∷ fs)
        → a ≢ f.at
        → (t.left a ≡ s.left a) × (t.right a ≡ s.right a))
    → ((a : ℕ) → 1 ≤ count_context a (f ∷ fs) → t.red a ≡ s.red a)
    → ((a : ℕ) → 1 ≤ count_context a (f ∷ fs) → t.parent a ≡ s.parent a)
    → t.root ≡ s.root
    → IsContext t f.at new (f ∷ fs)
relink s t p new f fs h one link other links colors parents root =
    let same : (a : ℕ) → 1 ≤ count a f.other + count_context a fs → Same s t a = λ a o.
      let k = links a (omega arith) (ground (arith, one a, o)) in
      (k.0, k.1, parents a (omega arith), colors a (omega arith)) in
    (
      refl,
      h.1,
      colors f.at (ground arith) ∙ h.2,
      link,
      rw other (IsTree-frame s t f.at _ f.other h.4 λ a o. same a (omega arith)),
      rw (parents f.at (ground arith))
          (IsContext-frame s t (s.parent f.at) f.at fs h.5 (λ a o. same a (omega arith)) root),
    )

pub move_parent_lem :
    (s : Nodes) (fs : Context) (up old new : ℕ)
    → IsContext s up old fs
    → s.parent old ≡ up
    → old ≢ no_node
    → ((a : ℕ) → count_context a fs ≤ 1)
    → count_context old fs ≡ 0
    → count_context new fs ≡ 0
    → Returns (λ r t. (r ≡ up) × IsContext t up new fs × Moved s up new t) (move_parent old new s)
unfolding move_parent
move_parent_lem s [] up old new h parent some_old one free_old free_new =
    let old_node = ==_false old no_node some_old in
    let null = h.0 in
    elim (Bool-cases (new == no_node)) [
      | inl e ↦
          rw (old_node, parent, null, e)
            (
              refl,
              (refl, refl),
              (
                (λ a o. (refl, refl)),
                (λ a. refl),
                (λ a o. refl),
                (λ n. absurd (n (eq-of_== _ _ e))),
              ),
            )
      | inr e ↦
          rw (old_node, parent, null, e)
            (
              refl,
              (refl, refl),
              ((λ a o. (refl, refl)), (λ a. refl), (λ a o. ground arith), (λ n. ground arith)),
            )
    ]
move_parent_lem s (f ∷ fs) up old new h parent some_old one free_old free_new =
    let old_node = ==_false old no_node some_old in
    let up_node = ==_false f.at no_node h.1 in
    let at = h.0 in
    let context = subst (λ u. IsContext s u old (f ∷ fs)) at h in
    let free : f.at ≢ new = λ e. ground (arith, e, free_new) in
    elim (Bool-cases f.is_left) [
      | inl side ↦
          let link : s.left f.at ≡ old = rw side at (h.3) in
          let hit : (old == s.left f.at) ≡ true = ground (arith, link) in
          elim (Bool-cases (new == no_node)) [
            | inl e ↦
                rw (old_node, parent, at, e, up_node, hit)
                  (
                    refl,
                    relink s _ old new f fs context one (rw side (ground arith)) (rw side refl)
                        (λ a i o. ground arith) (λ a i. refl) (λ a o. refl) refl,
                    (
                      (λ a o. ground arith),
                      (λ a. refl),
                      (λ a o. refl),
                      (λ n. absurd (n (eq-of_== _ _ e))),
                    ),
                  )
            | inr e ↦
                rw (old_node, parent, at, e, up_node, hit)
                  (
                    refl,
                    relink s _ old new f fs context one (rw side (ground arith)) (rw side refl)
                        (λ a i o. ground arith) (λ a i. refl) (λ a o. ground (arith, free_new))
                        refl,
                    (
                      (λ a o. ground arith),
                      (λ a. refl),
                      (λ a o. ground arith),
                      (λ n. ground arith),
                    ),
                  )
          ]
      | inr side ↦
          let link : s.right f.at ≡ old = rw side at (h.3) in
          let beside : IsTree s f.at (s.left f.at) f.other = rw side at (h.4) in
          let miss : (old == s.left f.at) ≡ false =
            ground (arith, free_old, count_root s f.at (s.left f.at) f.other beside) in
          elim (Bool-cases (new == no_node)) [
            | inl e ↦
                rw (old_node, parent, at, e, up_node, miss)
                  (
                    refl,
                    relink s _ old new f fs context one (rw side (ground arith)) (rw side refl)
                        (λ a i o. ground arith) (λ a i. refl) (λ a o. refl) refl,
                    (
                      (λ a o. ground arith),
                      (λ a. refl),
                      (λ a o. refl),
                      (λ n. absurd (n (eq-of_== _ _ e))),
                    ),
                  )
            | inr e ↦
                rw (old_node, parent, at, e, up_node, miss)
                  (
                    refl,
                    relink s _ old new f fs context one (rw side (ground arith)) (rw side refl)
                        (λ a i o. ground arith) (λ a i. refl) (λ a o. ground (arith, free_new))
                        refl,
                    (
                      (λ a o. ground arith),
                      (λ a. refl),
                      (λ a o. ground arith),
                      (λ n. ground arith),
                    ),
                  )
          ]
    ]

-- The node above a place is not below it.
pub up_apart :
    (s : Nodes) (up p : ℕ) (fs : Context) (x : Tree)
    → IsContext s up p fs
    → IsTree s up p x
    → Unique fs x
    → (c : ℕ) → 1 ≤ count c x
    → c ≢ up
up_apart s up p [] x h tree one c o e =
    ground (arith, count_null s up p x tree, ap (λ d. count d x) (e ∙ h.0))
up_apart s up p (f ∷ fs) x h tree one c o e = ground (arith, one c, e, h.0)

pub put_self {ℓ} : {A : Type ℓ} (f : ℕ → A) (a : ℕ) (v : A) → put f a v a ≡ v
put_self f a v = rw (==_self a) refl

pub put_other {ℓ} : {A : Type ℓ} (f : ℕ → A) (a b : ℕ) (v : A) → b ≢ a → put f a v b ≡ f b
put_other f a b v n = rw (==_false b a n) refl

pub set_parent_lem :
    (s : Nodes) (a v : ℕ)
    → (a == no_node) ≡ false
    → set_parent a v s ≡ some (tt, record s { parent = put s.parent a v })
unfolding set_parent
set_parent_lem s a v e = rw e refl
