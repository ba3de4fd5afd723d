-- ===== src/LinkList/Insert.antt =====
-- `list_init`, `list_append` and `list_prepend` as operations on the list of items.
use osy.Common.{ℕ, ◌≡◌, ◌≢◌, refl, false, List, [], ◌∷◌, ◌++◌, All-append, ==_false, arith, Returns}
use osy.LinkList.{Links, null, update, list_init, list_append, list_prepend}
use osy.LinkList.Ring.{
  has, Distinct, Chain, IsList, has-append, Chain-rehead, Chain-last, Chain-first, prev_nonnull,
  next_nonnull,
}

-- Nothing but the links in `xs` is written.
abbrev pub SameOutside : List ℕ → Links → Links → Type 0
SameOutside xs s t = (a : ℕ) → has a xs ≡ false → (t.next a ≡ s.next a) × (t.prev a ≡ s.prev a)

-- `t` is `s` with `k` linked behind the last link `z` of a chain that ends in `q`.
Chain-snoc :
    (s t : Links) (k p : ℕ) (xs : List ℕ) (q : ℕ)
    → Chain s p xs q
    → has p xs ≡ false
    → Distinct xs
    → has k (q ∷ p ∷ xs) ≡ false
    → t ≡ record {
      next = update (update s.next k q) (s.prev q) k;
      prev = update (update s.prev k (s.prev q)) q k;
    }
    → has q xs ≡ false
    → Chain t p (xs ++ k ∷ []) q
Chain-snoc s t k p [] q c pf d kf e qf = ground arith
Chain-snoc s t k p (x ∷ xs) q c pf d kf e qf = (
  ground (arith, Chain-last s x xs q c.2),
  ground arith,
  Chain-snoc s t k x xs q c.2 d.0 d.1 (ground arith) e (ground arith),
)

Distinct-snoc : (k : ℕ) (xs : List ℕ) → has k xs ≡ false → Distinct xs → Distinct (xs ++ k ∷ [])
Distinct-snoc k [] f d = (refl, tt)
Distinct-snoc k (x ∷ xs) f d =
    (ground (arith, has-append x xs (k ∷ [])), Distinct-snoc k xs (ground arith) d.1)

list_init-IsList :
    (s : Links) (l : ℕ)
    → l ≢ null
    → Returns (λ _ t. IsList t l [] × SameOutside (l ∷ []) s t) (list_init l s)
unfolding list_init
list_init-IsList s l h = rw (==_false l null h) (
  record { chain = ground arith; fresh = refl; distinct = tt; nonnull = h; items = tt },
  λ a o. ground arith,
)

module _ (s : Links) (l k : ℕ) (xs : List ℕ) (r : IsList s l xs) (new : has k (l ∷ xs) ≡ false)
    (k_nonnull : k ≢ null) where
  -- `list_append` of a link that is not NULL and not in the well-formed list does not fail: the
  -- link is behind the last item of a well-formed list, and no other link than those of the list
  -- and its own is written.
  pub append_lem :
      Returns (λ _ t. IsList t l (xs ++ k ∷ []) × SameOutside (l ∷ k ∷ xs) s t) (list_append l k s)
  unfolding list_append
  append_lem = rw (==_false l null r.nonnull) (
      rw (==_false k null k_nonnull) (
        rw (==_false l k (ground arith)) (
          rw (==_false (s.prev l) null (prev_nonnull r)) (
            record {
              chain =
                  Chain-snoc s _ k l xs l r.chain r.fresh r.distinct (ground arith) refl r.fresh;
              fresh = ground (arith, has-append l xs (k ∷ []));
              distinct = Distinct-snoc k xs (ground arith) r.distinct;
              nonnull = r.nonnull;
              items = All-append (λ x. x ≢ null) xs (k ∷ []) r.items (k_nonnull, tt);
            },
            λ a o. ground (arith, Chain-last s l xs l r.chain),
          ))))

  -- `list_prepend` of a link that is not NULL and not in the well-formed list does not fail: the
  -- link is in front of the first item of a well-formed list, and no other link than those of the
  -- list and its own is written.
  pub prepend_lem :
      Returns (λ _ t. IsList t l (k ∷ xs) × SameOutside (l ∷ k ∷ xs) s t) (list_prepend l k s)
  unfolding list_prepend
  prepend_lem = rw (==_false l null r.nonnull) (
      rw (==_false k null k_nonnull) (
        rw (==_false l k (ground arith)) (
          rw (==_false (s.next l) null (next_nonnull r)) (
            record {
              chain = (
                ground arith,
                ground (arith, Chain-first s l xs l r.chain),
                Chain-rehead l k xs l r.chain r.fresh r.distinct (ground arith) (ground arith)
                    (λ a h. ground arith) (λ a h n. ground arith),
              );
              fresh = ground arith;
              distinct = (ground arith, r.distinct);
              nonnull = r.nonnull;
              items = (k_nonnull, r.items);
            },
            λ a o. ground (arith, Chain-first s l xs l r.chain),
          ))))
