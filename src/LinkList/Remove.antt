-- ===== src/LinkList/Remove.antt =====
-- `list_remove`, `list_pop` and `list_rotate` as operations on the list of items.
use osy.Common.{
  ℕ, ◌≡◌, ◌≢◌, refl, true, false, none, some, List, [], ◌∷◌, ◌++◌, All-append, All-append_left,
  All-append_right, ==_false, ==_self, arith, Returns, Returns-bind,
}
use osy.LinkList.{Links, null, update, list_append, list_remove, list_pop, list_rotate, list_empty}
use osy.LinkList.Ring.{
  has, Distinct, Chain, IsList, has-append, Chain-rehead, Chain-last, Chain-first, nonnull_of_item,
}
use osy.LinkList.Insert.{SameOutside, append_lem}

Chain-split :
    (s : Links) (p : ℕ) (ys : List ℕ) (k : ℕ) (zs : List ℕ) (q : ℕ)
    → Chain s p (ys ++ k ∷ zs) q
    → Chain s p ys k × Chain s k zs q
Chain-split s p [] k zs q c = ((c.0, c.1), c.2)
Chain-split s p (y ∷ ys) k zs q c =
    let (front, back) = Chain-split s y ys k zs q c.2 in ((c.0, c.1, front), back)

pub Distinct-split :
    (ys : List ℕ) (k : ℕ) (zs : List ℕ)
    → Distinct (ys ++ k ∷ zs)
    → (has k ys ≡ false) × (has k zs ≡ false) × Distinct (ys ++ zs)
Distinct-split [] k zs d = (refl, d.0, d.1)
Distinct-split (y ∷ ys) k zs d =
    ground (arith, Distinct-split ys k zs d.1, has-append y ys (k ∷ zs), has-append y ys zs)

-- `t` is `s` with the neighbours of `k` linked to each other, and `k` cleared.
Chain-unlink :
    (s t : Links) (k p : ℕ) (ys zs : List ℕ) (q : ℕ)
    → Chain s p (ys ++ k ∷ zs) q
    → has p (ys ++ k ∷ zs) ≡ false
    → has q (ys ++ k ∷ zs) ≡ false
    → Distinct (ys ++ k ∷ zs)
    → t ≡ record {
      prev = update (update s.prev (s.next k) (s.prev k)) k null;
      next = update (update s.next (s.prev k) (s.next k)) k null;
    }
    → Chain t p (ys ++ zs) q
Chain-unlink s t k p [] zs q c pf qf d e =
    Chain-rehead k p zs q c.2 (ground arith) d.1 (ground arith)
      (ground (arith, Chain-first s k zs q c.2)) (λ a h. ground arith) (λ a h n. ground arith)
Chain-unlink s t k p (y ∷ ys) zs q c pf qf d e =
    let (front, back) = Chain-split s y ys k zs q c.2 in
    (
      ground (arith, Chain-last s y ys k front, has-append p ys (k ∷ zs)),
      ground (arith, Chain-first s k zs q back, has-append y ys (k ∷ zs)),
      Chain-unlink s t k y ys zs q c.2 d.0 (ground arith) d.1 e,
    )

-- What `k` is told apart from, and what its neighbours are.
record Neighbours (s : Links) (l k : ℕ) (ys zs : List ℕ) : Type 0 where
  before : has (s.prev k) (l ∷ ys) ≡ true
  after : has (s.next k) (l ∷ zs) ≡ true
  k_nonnull : k ≢ null
  before_nonnull : s.prev k ≢ null
  after_nonnull : s.next k ≢ null
  not_head : k ≢ l
  left_of : has k ys ≡ false
  right_of : has k zs ≡ false
  rest : Distinct (ys ++ zs)

neighbours :
    (s : Links) (l k : ℕ) (ys zs : List ℕ) → IsList s l (ys ++ k ∷ zs) → Neighbours s l k ys zs
neighbours s l k ys zs r = record {
  before = Chain-last s l ys k halves.0;
  after = Chain-first s k zs l halves.1;
  k_nonnull = (All-append_right (λ x. x ≢ null) ys (k ∷ zs) r.items).0;
  before_nonnull =
      nonnull_of_item (s.prev k) (l ∷ ys)
        (r.nonnull, All-append_left (λ x. x ≢ null) ys (k ∷ zs) r.items)
        (Chain-last s l ys k halves.0);
  after_nonnull =
      nonnull_of_item (s.next k) (l ∷ zs)
        (r.nonnull, (All-append_right (λ x. x ≢ null) ys (k ∷ zs) r.items).1)
        (Chain-first s k zs l halves.1);
  not_head = ground (arith, has-append l ys (k ∷ zs), r.fresh);
  left_of = apart.0;
  right_of = apart.1;
  rest = apart.2;
}
  where
    halves : Chain s l ys k × Chain s k zs l
    halves = Chain-split s l ys k zs l r.chain

    apart : (has k ys ≡ false) × (has k zs ≡ false) × Distinct (ys ++ zs)
    apart = Distinct-split ys k zs r.distinct

-- A removed link is not connected any more.
abbrev pub Detached : Links → ℕ → Type 0
Detached s k = (s.prev k ≡ null) × (s.next k ≡ null)

abbrev pub Removed : Links → ℕ → ℕ → List ℕ → List ℕ → Links → Type 0
Removed s l k ys zs t = IsList t l (ys ++ zs) × Detached t k × SameOutside (l ∷ ys ++ k ∷ zs) s t

-- `list_remove` of an item of a well-formed list does not fail: the other items stay in order in a
-- well-formed list, the link of the item is cleared, and no link outside the list is written.
pub remove_lem :
    (s : Links) (l k : ℕ) (ys zs : List ℕ)
    → IsList s l (ys ++ k ∷ zs)
    → Returns (λ _ t. Removed s l k ys zs t) (list_remove k s)
unfolding list_remove
remove_lem s l k ys zs r = rw (==_false k null n.k_nonnull) (
    rw (==_false (s.prev k) null n.before_nonnull) (
      rw (==_false (s.next k) null n.after_nonnull) (
        rw (==_false (s.next k) null n.after_nonnull) (
          rw (==_false k (s.next k) (ground (arith, n.after, n.right_of, n.not_head))) (
            rw (==_false (s.prev k) null n.before_nonnull) (
              record {
                chain = Chain-unlink s _ k l ys zs l r.chain r.fresh r.fresh r.distinct refl;
                fresh = ground (arith, has-append l ys (k ∷ zs), has-append l ys zs, r.fresh);
                distinct = n.rest;
                nonnull = r.nonnull;
                items =
                    All-append (λ x. x ≢ null) ys zs
                      (All-append_left (λ x. x ≢ null) ys (k ∷ zs) r.items)
                      (All-append_right (λ x. x ≢ null) ys (k ∷ zs) r.items).1;
              },
              ground arith,
              λ a o. ground (arith, has-append a ys (k ∷ zs), n.before, n.after),
            ))))))
  where
    n : Neighbours s l k ys zs
    n = neighbours s l k ys zs r

-- On a link that is in no list `list_remove` only clears it.
pub remove-Detached :
    (s : Links) (k : ℕ)
    → k ≢ null
    → Detached s k
    → Returns (λ _ t. Detached t k × SameOutside (k ∷ []) s t) (list_remove k s)
unfolding list_remove
remove-Detached s k h d =
    rw (==_false k null h) (rw (d.0, ==_self) (ground arith, λ a o. ground arith))

-- On the list itself `list_empty` tells whether there are items, and changes nothing.
pub list_empty-nil : (s : Links) (l : ℕ) → IsList s l [] → list_empty l s ≡ some (true, s)
unfolding list_empty
list_empty-nil s l r = rw (==_false l null r.nonnull) (rw (r.chain.0, ==_self))

pub list_empty-cons :
    (s : Links) (l k : ℕ) (xs : List ℕ) → IsList s l (k ∷ xs) → list_empty l s ≡ some (false, s)
unfolding list_empty
list_empty-cons s l k xs r =
    rw (==_false l null r.nonnull) (rw (==_false (s.next l) l (ground (arith, r.chain.0, r.fresh))))

pub pop-nil : (s : Links) (l : ℕ) → IsList s l [] → list_pop l s ≡ some (none, s)
unfolding list_pop
pop-nil s l r = rw (==_false l null r.nonnull) (rw (list_empty-nil s l r))

module _ (s : Links) (l k : ℕ) (xs : List ℕ) (r : IsList s l (k ∷ xs)) where
  -- `list_pop` of a well-formed list with a first item does not fail: it returns this item and
  -- removes it, and no link outside the list is written.
  pub pop-cons : Returns (λ out t. (out ≡ some k) × Removed s l k [] xs t) (list_pop l s)
  unfolding list_pop
  pop-cons = rw (==_false l null r.nonnull) (
      rw (list_empty-cons s l k xs r) (
        rw (r.chain.0) (
          Returns-bind (λ _ t. Removed s l k [] xs t) _ (list_remove k s) _
            (remove_lem s l k [] xs r) λ _ t h. (refl, h))))

  -- `list_rotate` of a well-formed list with a first item does not fail: it returns this item and
  -- moves it to the end, and no link outside the list is written.
  pub rotate-cons :
      Returns
        (λ out t. (out ≡ some k) × IsList t l (xs ++ k ∷ []) × SameOutside (l ∷ k ∷ xs) s t)
        (list_rotate l s)
  unfolding list_rotate
  rotate-cons = rw (==_false l null r.nonnull) (
      rw (list_empty-cons s l k xs r) (
        Returns-bind (λ out t. (out ≡ some k) × Removed s l k [] xs t) _ (list_pop l s) _ pop-cons
          λ out t h. rw (h.0) (
            Returns-bind (λ _ u. IsList u l (xs ++ k ∷ []) × SameOutside (l ∷ k ∷ xs) t u) _
              (list_append l k t) _
              (append_lem t l k xs h.1.0 (ground (arith, r.fresh, r.distinct)) r.items.0)
              λ _ u g. (refl, g.0, λ a o. ground (arith, g.1 a o, h.1.2 a o)))))
