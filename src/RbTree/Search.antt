-- ===== src/RbTree/Search.antt =====
-- kernel/adt/rbtree.h: `rbtree_find` and a search of the list of nodes in order.
use osy.Common.{
  ℕ, zero, suc, ◌+◌, ◌<◌, List, [], ◌∷◌, ◌++◌, ◌≡◌, ◌≢◌, refl, sym, ◌∙◌, arith, inl, inr, subst,
  some, ==_false, All, All-append_left, All-append_right, ◌⊎◌,
}
use osy.RbTree.{Nodes, no_node, Comparison, below, above, equal, rbtree_find}
use osy.RbTree.Shape.{Tree, leaf, node, flat, IsTree}
use osy.RbTree.Recolor.{get_left_lem, get_right_lem}

-- The number of nodes
abbrev pub size : Tree → ℕ
size leaf = 0
size (node l a c r) = suc (size l + size r)

comparison_cases : (c : Comparison) → (c ≡ below) ⊎ ((c ≡ above) ⊎ (c ≡ equal))
comparison_cases below = inl refl
comparison_cases above = inr (inl refl)
comparison_cases equal = inr (inr refl)

-- The three results differ.
not_above : (c : Comparison) → c ≡ above → c ≢ below
not_above c e f = subst (λ d. elim d [ below ↦ ⊥ | above ↦ Unit | equal ↦ Unit ]) (sym e ∙ f) tt

not_equal : (c : Comparison) → c ≡ equal → c ≢ below
not_equal c e f = subst (λ d. elim d [ below ↦ ⊥ | above ↦ Unit | equal ↦ Unit ]) (sym e ∙ f) tt

module _ (compare : ℕ → Comparison) where
  -- The first node in the list whose key is equal, or NULL
  abbrev pub first_equal : List ℕ → ℕ
  first_equal [] = no_node
  first_equal (x ∷ xs) = elim (compare x) [
    | below ↦ first_equal xs
    | above ↦ first_equal xs
    | equal ↦ x
  ]

  -- The key is above the first nodes of the list, equal to the next one at most, and below the rest.
  abbrev pub IsOrdered : List ℕ → Type 0
  IsOrdered [] = Unit
  IsOrdered (x ∷ xs) = elim (compare x) [
    | below ↦ All (λ y. compare y ≡ below) xs
    | above ↦ IsOrdered xs
    | equal ↦ All (λ y. compare y ≡ below) xs
  ]

  first_equal-below : (xs : List ℕ) → All (λ y. compare y ≡ below) xs → first_equal xs ≡ no_node
  first_equal-below [] h = refl
  first_equal-below (x ∷ xs) h = rw (h.0, first_equal) (first_equal-below xs h.1)

  module _ (a : ℕ) (ys : List ℕ) where
    middle : (xs : List ℕ) → All (λ y. compare y ≡ below) (xs ++ (a ∷ ys)) → compare a ≡ below
    middle xs h = (All-append_right (λ y. compare y ≡ below) xs (a ∷ ys) h).0

    -- Left of a node that the key is below
    left_part :
        (xs : List ℕ)
        → compare a ≡ below
        → IsOrdered (xs ++ (a ∷ ys))
        → IsOrdered xs × (first_equal (xs ++ (a ∷ ys)) ≡ first_equal xs)
    left_part [] e h =
        let rest : All (λ y. compare y ≡ below) ys = rw (e, IsOrdered) at (h) in
        (tt, rw (e, first_equal) (first_equal-below ys rest))
    left_part (x ∷ xs) e h = elim (comparison_cases (compare x)) [
      | inl c ↦
          let all : All (λ y. compare y ≡ below) (xs ++ (a ∷ ys)) = rw (c, IsOrdered) at (h) in
          let some_xs = All-append_left (λ y. compare y ≡ below) xs (a ∷ ys) all in
          (
            rw (c, IsOrdered) some_xs,
            rw (c, first_equal)
                (first_equal-below (xs ++ (a ∷ ys)) all ∙ sym (first_equal-below xs some_xs)),
          )
      | inr (inl c) ↦
          let rest : IsOrdered (xs ++ (a ∷ ys)) = rw (c, IsOrdered) at (h) in
          let k = left_part xs e rest in (rw (c, IsOrdered) (k.0), rw (c, first_equal) (k.1))
      | inr (inr c) ↦
          let all : All (λ y. compare y ≡ below) (xs ++ (a ∷ ys)) = rw (c, IsOrdered) at (h) in
          let some_xs = All-append_left (λ y. compare y ≡ below) xs (a ∷ ys) all in
          (rw (c, IsOrdered) some_xs, rw (c, first_equal) refl)
    ]

    -- Right of a node that the key is above
    right_part :
        (xs : List ℕ)
        → compare a ≡ above
        → IsOrdered (xs ++ (a ∷ ys))
        → IsOrdered ys × (first_equal (xs ++ (a ∷ ys)) ≡ first_equal ys)
    right_part [] e h = (rw (e, IsOrdered) at (h), rw (e, first_equal) refl)
    right_part (x ∷ xs) e h = elim (comparison_cases (compare x)) [
      | inl c ↦ absurd (not_above _ e (middle xs (rw (c, IsOrdered) at (h))))
      | inr (inl c) ↦
          let rest : IsOrdered (xs ++ (a ∷ ys)) = rw (c, IsOrdered) at (h) in
          let k = right_part xs e rest in (k.0, rw (c, first_equal) (k.1))
      | inr (inr c) ↦ absurd (not_above _ e (middle xs (rw (c, IsOrdered) at (h))))
    ]

    -- At a node with an equal key
    here :
        (xs : List ℕ)
        → compare a ≡ equal
        → IsOrdered (xs ++ (a ∷ ys))
        → first_equal (xs ++ (a ∷ ys)) ≡ a
    here [] e h = rw (e, first_equal) refl
    here (x ∷ xs) e h = elim (comparison_cases (compare x)) [
      | inl c ↦ absurd (not_equal _ e (middle xs (rw (c, IsOrdered) at (h))))
      | inr (inl c) ↦
          let rest : IsOrdered (xs ++ (a ∷ ys)) = rw (c, IsOrdered) at (h) in
          rw (c, first_equal) (here xs e rest)
      | inr (inr c) ↦ absurd (not_equal _ e (middle xs (rw (c, IsOrdered) at (h))))
    ]

  -- In a tree whose nodes in order are ones that the key is above, at most one that it equals, and
  -- ones that it is below, `rbtree_find` with more fuel than nodes ends, changes nothing, and finds
  -- what a search of the whole list finds: the node with an equal key, or NULL.
  pub rbtree_find_lem :
      (fuel : ℕ) (s : Nodes) (up p : ℕ) (t : Tree)
      → IsTree s up p t
      → IsOrdered (flat t)
      → size t < fuel
      → rbtree_find compare fuel p s ≡ some (first_equal (flat t), s)
  unfolding rbtree_find
  rbtree_find_lem zero s up p t h ordered enough = let no : ⊥ = omega (arith, enough) in absurd no
  rbtree_find_lem (suc fuel) s up p leaf h ordered enough = rw h refl
  rbtree_find_lem (suc fuel) s up p (node l a c r) h ordered enough =
      let a_node = ==_false a no_node h.1 in
      elim (comparison_cases (compare a)) [
        | inl e ↦
            let k = left_part a (flat r) (flat l) e ordered in
            rw (h.0, a_node, e, h.0, get_left_lem s a h.1, k.1)
              (rbtree_find_lem fuel s a (s.left a) l h.4 k.0 (omega (arith, enough)))
        | inr (inl e) ↦
            let k = right_part a (flat r) (flat l) e ordered in
            rw (h.0, a_node, e, h.0, get_right_lem s a h.1, k.1)
              (rbtree_find_lem fuel s a (s.right a) r h.5 k.0 (omega (arith, enough)))
        | inr (inr e) ↦ rw (h.0, a_node, e, h.0, here a (flat r) (flat l) e ordered) refl
      ]
