-- ===== src/Malloc/Merge.antt =====
-- `free`: the block is marked, merged with a free block behind it, and with one in front of it.
use osy.Common.{
  ℕ, ◌+◌, ◌-◌, ◌≤◌, ◌<◌, ◌≡◌, refl, sym, ap, ◌∙◌, subst, ◌⊎◌, Bool, true, false, Option, List, [],
  ◌∷◌, ◌++◌, ◌==◌, if◌then◌else◌, Returns, Returns-bind, Returns-mono, arith, lt→ltb, ltb_self,
  pure, inl, inr,
}
use osy.Malloc.Memory.{
  Mem, add32, sizeof_head, sizeof_foot, head_free, heap_start, heap_end, block_init, write, truth,
  of_bool,
}
use osy.Malloc.{merge_next, merge_prev, merge_neighbours, free_block}
use osy.Malloc.Blocks.{
  add32_lem, sub32_lem, min_block, IsBlock, Block, Blocks, Blocks-le, Blocks-frame, block_check-ok,
  init_mem, block_init_lem, init_mem-IsBlock, init_mem_below, init_mem_above,
}
use osy.Malloc.Fit.{Bounds, Blocks-append}

-- A freed block of `n` bytes takes in a free block behind it ...
abbrev pub absorb : ℕ → List Block → ℕ × List Block
absorb n [] = (n, [])
absorb n ((k, true) ∷ bs) = (n + k, bs)
absorb n ((k, false) ∷ bs) = (n, (k, false) ∷ bs)

abbrev pub attach_last : Block → ℕ → List Block → List Block
attach_last (j, true) n rest = (j + n, true) ∷ rest
attach_last (j, false) n rest = (j, false) ∷ (n, true) ∷ rest

-- ... and is taken in by a free block in front of it.
abbrev pub attach : List Block → ℕ → List Block → List Block
attach [] n rest = (n, true) ∷ rest
attach (b ∷ []) n rest = attach_last b n rest
attach (b ∷ c ∷ bs) n rest = b ∷ attach (c ∷ bs) n rest

-- The blocks of a heap after the block of `n` bytes between `pre` and `post` is freed.
abbrev pub release : List Block → ℕ → List Block → List Block
release pre n post = attach pre (absorb n post).0 (absorb n post).1

-- Nothing is written outside the range from `p` to `e`.
abbrev pub KeptAround : ℕ → ℕ → Mem → Mem → Type 0
KeptAround p e m m' = (a : ℕ) → (a < p) ⊎ (e ≤ a) → m' a ≡ m a

-- A block over the range from `p` to `p + n`, in front of blocks that are left alone.
join_lem :
    (m : Mem) (h p n : ℕ) (bs : List Block) (e : ℕ)
    → min_block ≤ n
    → Blocks m h (p + n) bs e
    → Blocks (init_mem p n true h m) h p ((n, true) ∷ bs) e
      × KeptAround p e m (init_mem p n true h m)
join_lem m h p n bs e room b = (
  (
    init_mem-IsBlock m h p n true room,
    Blocks-frame m _ h (p + n) bs e b (λ a l r. init_mem_above m h p n true room a l),
  ),
  kept,
)
  where
    kept : KeptAround p e m (init_mem p n true h m)
    kept a (inl o) = init_mem_below m h p n true room a o
    kept a (inr o) =
        init_mem_above m h p n true room a (omega (arith, Blocks-le m h (p + n) bs e b))

-- What stands behind the block is checked and, if it is free, taken in.
merge_next_lem :
    (m : Mem) (h q n : ℕ) (post : List Block) (e : ℕ)
    → IsBlock m h q n true
    → Blocks m h (q + n) post e
    → Bounds m h q e
    → Returns
        (λ _ m'.
          Blocks m' h q (((absorb n post).0, true) ∷ (absorb n post).1) e × KeptAround q e m m')
        (merge_next h q m)
unfolding merge_next
merge_next_lem m h q n [] e b bs u = rw (b.size_at) (
    rw (add32_lem q n (omega (arith, u.end_lt)))
      (rw (u.end_at) (rw bs (rw (ltb_self e) ((b, refl), λ a o. refl)))))
merge_next_lem m h q n ((k, free) ∷ post) e b bs u =
    let le = Blocks-le m h (q + n + k) post e bs.1 in
    rw (b.size_at) (
      rw (add32_lem q n (omega (arith, u.end_lt))) (
        rw (u.end_at) (
          rw (lt→ltb (q + n) e (omega (arith, bs.0.room))) (
            rw
              (block_check-ok m h (q + n) k free bs.0 (omega (arith, u.start_le))
                (omega (arith, u.end_at, bs.0.room)) (omega (arith, u.end_lt)))
              (rw (bs.0.size_at) (rw (bs.0.free_at) (by_next free bs le)))))))
  where
    by_next :
        (free : Bool)
        → Blocks m h (q + n) ((k, free) ∷ post) e
        → q + n + k ≤ e
        → Returns
            (λ _ m'.
              Blocks m' h q
                (((absorb n ((k, free) ∷ post)).0, true) ∷ (absorb n ((k, free) ∷ post)).1)
                e
              × KeptAround q e m m')
            ((if truth (of_bool free) then block_init q (add32 n k) true h else pure tt) m)
    by_next true bs le = rw (add32_lem n k (omega (arith, u.end_lt))) (
        rw (block_init_lem m h q (n + k) true (omega (arith, b.room)) (omega (arith, u.end_lt))) (
          join_lem m h q (n + k) post e (omega (arith, b.room))
            (subst (λ x. Blocks m h x post e) (omega arith) bs.1)))
    by_next false bs le = ((b, bs), λ a o. refl)

pub Blocks-split :
    (m : Mem) (h p : ℕ) (bs cs : List Block) (e : ℕ)
    → Blocks m h p (bs ++ cs) e
    → (q : ℕ) × Blocks m h p bs q × Blocks m h q cs e
Blocks-split m h p [] cs e b = (p, refl, b)
Blocks-split m h p ((n, free) ∷ bs) cs e b =
    let (q, front, back) = Blocks-split m h (p + n) bs cs e b.1 in (q, (b.0, front), back)

snoc_cases :
    (bs : List Block) → (bs ≡ []) ⊎ ((pre : List Block) × (b : Block) × (bs ≡ pre ++ b ∷ []))
snoc_cases [] = inl refl
snoc_cases (b ∷ bs) = elim (snoc_cases bs) [
  | inl e ↦ inr ([], b, ap (λ xs. b ∷ xs) e)
  | inr (pre, c, e) ↦ inr (b ∷ pre, c, ap (λ xs. b ∷ xs) e)
]

pub attach-snoc :
    (pre : List Block) (b : Block) (n : ℕ) (rest : List Block)
    → attach (pre ++ b ∷ []) n rest ≡ pre ++ attach_last b n rest
attach-snoc [] b n rest = refl
attach-snoc (a ∷ []) b n rest = refl
attach-snoc (a ∷ c ∷ pre) b n rest = ap (λ xs. a ∷ xs) (attach-snoc (c ∷ pre) b n rest)

module _ (m : Mem) (h p n : ℕ) (rest : List Block) (e : ℕ) (u : Bounds m h p e)
    (start : m (heap_start h) ≡ p) where
  -- What `merge_prev` leaves when the blocks `pre` stand in front.
  abbrev Attached : List Block → Mem → Type 0
  Attached pre m' = Blocks m' h p (attach pre n rest) e × KeptAround p e m m'

  merge_prev_first :
      Blocks m h p ((n, true) ∷ rest) e → Returns (λ _. Attached []) (merge_prev h p m)
  unfolding merge_prev
  merge_prev_first b = rw (start) (rw (ltb_self p) (b, λ a o. refl))

  merge_prev_last :
      (pre : List Block) (r j : ℕ) (free : Bool)
      → Blocks m h p pre r
      → IsBlock m h r j free
      → Blocks m h (r + j) ((n, true) ∷ rest) e
      → Returns (λ _. Attached (pre ++ (j, free) ∷ [])) (merge_prev h (r + j) m)
  unfolding merge_prev
  merge_prev_last pre r j free front b back =
      let bottom = low in
      let top = high in
      rw (start) (
        rw (lt→ltb p (r + j) (omega (arith, b.room))) (
          rw (sub32_lem (r + j) sizeof_foot (omega (arith, b.room)) (omega (arith, u.end_lt))) (
            rw (b.foot_size_at) (
              rw (sub32_lem (r + j) j (omega arith) (omega (arith, u.end_lt))) (
                rw (before) (
                  rw
                    (block_check-ok m h r j free b (omega (arith, start))
                      (omega (arith, u.end_at, b.room)) (omega (arith, u.end_lt)))
                    (rw (b.size_at)
                      (rw (b.free_at) (rw (back.0.size_at) (done _ (by_last free b)))))))))))
    where
      low : p ≤ r
      low = Blocks-le m h p pre r front

      high : r + j + n ≤ e
      high = Blocks-le m h (r + j + n) rest e back.1

      before : r + j - j ≡ r
      before = omega arith

      done :
          (r : Option (Unit {0} × Mem))
          → Returns
              (λ _ m'. Blocks m' h p (pre ++ attach_last (j, free) n rest) e × KeptAround p e m m')
              r
          → Returns (λ _. Attached (pre ++ (j, free) ∷ [])) r
      done r w = Returns-mono _ _ r w λ _ m' (blocks, kept).
          (subst (λ bs. Blocks m' h p bs e) (sym (attach-snoc pre (j, free) n rest)) blocks, kept)

      by_last :
          (free : Bool)
          → IsBlock m h r j free
          → Returns
              (λ _ m'. Blocks m' h p (pre ++ attach_last (j, free) n rest) e × KeptAround p e m m')
              ((if truth (of_bool free) then block_init r (add32 j n) true h else pure tt) m)
      by_last true b =
          let top = high in
          let bottom = low in
          let (joined, kept) =
            join_lem m h r (j + n) rest e (omega (arith, b.room))
              (subst (λ x. Blocks m h x rest e) (omega arith) back.1) in
          rw (add32_lem j n (omega (arith, u.end_lt))) (
            rw (block_init_lem m h r (j + n) true (omega (arith, b.room)) (omega (arith, u.end_lt)))
              (
                Blocks-append _ h p pre ((j + n, true) ∷ rest) r e
                    (Blocks-frame m _ h p pre r front (λ a l s. kept a (inl s))) joined,
                λ a o. kept a (ground arith),
              ))
      by_last false b = (Blocks-append m h p pre _ r e front (b, back), λ a o. refl)

  -- What stands in front of the block is checked and, if it is free, takes the block in.
  merge_prev_lem :
      (pre : List Block) (q : ℕ)
      → Blocks m h p pre q
      → Blocks m h q ((n, true) ∷ rest) e
      → Returns (λ _. Attached pre) (merge_prev h q m)
  merge_prev_lem pre q front back = elim (snoc_cases pre) [
    | inl none_before ↦
        let at : p ≡ q = subst (λ x. Blocks m h p x q) none_before front in
        rw none_before (
          subst (λ x. Returns (λ _. Attached []) (merge_prev h x m)) at
            (merge_prev_first (subst (λ x. Blocks m h x ((n, true) ∷ rest) e) (sym at) back)))
    | inr (init, (j, free), last) ↦
        let (r, before, (b, at)) =
          Blocks-split m h p init ((j, free) ∷ []) q (subst (λ x. Blocks m h p x q) last front) in
        rw last (
          subst (λ x. Returns (λ _. Attached (init ++ (j, free) ∷ [])) (merge_prev h x m)) at
            (merge_prev_last init r j free before b
              (subst (λ x. Blocks m h x ((n, true) ∷ rest) e) (sym at) back)))
  ]

-- The structure of the heap stands in front of its blocks and is not written.
Bounds-kept :
    (m m' : Mem) (h p q e : ℕ)
    → Bounds m h p e
    → p ≤ q
    → ((a : ℕ) → a < p → m' a ≡ m a)
    → Bounds m' h q e
Bounds-kept m m' h p q e u le same = record {
  start_le = omega (arith, same (heap_start h), u.before, u.start_le);
  end_at = omega (arith, same (heap_end h), u.before, u.end_at);
  end_lt = u.end_lt;
  before = omega (arith, u.before);
}

mark : ℕ → Mem → Mem
mark q m a = if a == head_free q then 1 else m a

module _ (m : Mem) (h q n : ℕ) (b : IsBlock m h q n false) where
  mark_below : (a : ℕ) → a < q → mark q m a ≡ m a
  unfolding mark
  mark_below a o = ground arith

  mark_above : (a : ℕ) → q + n ≤ a → mark q m a ≡ m a
  unfolding mark
  mark_above a o = ground (arith, b.room)

  mark-IsBlock : IsBlock (mark q m) h q n true
  unfolding mark
  mark-IsBlock = record {
    size_at = ground (arith, b.size_at);
    free_at = ground (arith, b.free_at);
    heap_at = ground (arith, b.heap_at);
    magic_at = ground (arith, b.magic_at);
    foot_magic_at = ground (arith, b.foot_magic_at, b.room);
    foot_size_at = ground (arith, b.foot_size_at, b.room);
    room = b.room;
  }

-- The second half of `free_block`: the block at `q` is marked, and both merges follow.
merges :
    (m : Mem) (h p q n : ℕ) (pre post : List Block) (e : ℕ)
    → Bounds m h p e
    → m (heap_start h) ≡ p
    → Blocks m h p pre q
    → IsBlock m h q n true
    → Blocks m h (q + n) post e
    → Returns
        (λ _ m'. Blocks m' h p (release pre n post) e × KeptAround p e m m')
        (merge_neighbours h q m)
unfolding merge_neighbours
merges m h p q n pre post e u start front b back =
    let low = Blocks-le m h p pre q front in
    let high = Blocks-le m h (q + n) post e back in
    Returns-bind _ _ (merge_next h q m) _
      (merge_next_lem m h q n post e b back (Bounds-kept m m h p q e u low (λ a o. refl)))
      λ _ m2 (blocks, kept).
        Returns-mono (λ _ m3. Blocks m3 h p (release pre n post) e × KeptAround p e m2 m3) _
          (merge_prev h q m2) (second m2 blocks kept low)
          λ _ m3 (done, same). (done, λ a o. same a o ∙ kept a (ground (arith, b.room)))
  where
    second :
        (m2 : Mem)
        → Blocks m2 h q (((absorb n post).0, true) ∷ (absorb n post).1) e
        → KeptAround q e m m2
        → p ≤ q
        → Returns
            (λ _ m3. Blocks m3 h p (release pre n post) e × KeptAround p e m2 m3)
            (merge_prev h q m2)
    second m2 blocks kept low =
        merge_prev_lem m2 h p (absorb n post).0 (absorb n post).1 e
          (Bounds-kept m m2 h p p e u (omega arith) (λ a o. kept a (inl (omega arith))))
          (kept (heap_start h) (inl (omega (arith, u.before))) ∙ start) pre q
          (Blocks-frame m m2 h p pre q front (λ a l r. kept a (inl r))) blocks

-- In a heap of well-formed blocks, freeing the payload of a used block passes every assertion and
-- returns the heap: the block is free and merged with the free blocks next to it, and the memory
-- outside the blocks of the heap is not written.
pub free_block-release :
    (m : Mem) (h p q n : ℕ) (pre post : List Block) (e : ℕ)
    → Bounds m h p e
    → m (heap_start h) ≡ p
    → Blocks m h p pre q
    → IsBlock m h q n false
    → Blocks m h (q + n) post e
    → Returns
        (λ r m'. (r ≡ h) × Blocks m' h p (release pre n post) e × KeptAround p e m m')
        (free_block (q + sizeof_head) m)
unfolding free_block write mark
free_block-release m h p q n pre post e u start front b back =
    let low = Blocks-le m h p pre q front in
    let high = Blocks-le m h (q + n) post e back in
    let at : q + sizeof_head - sizeof_head ≡ q = omega arith in
    rw (sub32_lem (q + sizeof_head) sizeof_head (omega arith) (omega (arith, u.end_lt, b.room))) (
      rw (at) (
        rw
          (block_check-ok m h q n false b (omega (arith, start)) (omega (arith, u.end_at, b.room))
            (omega (arith, u.end_lt)))
          (rw (b.free_at) (
            rw (b.heap_at) (
              Returns-bind _ _ (merge_neighbours h q (mark q m)) _
                (merges (mark q m) h p q n pre post e
                  (Bounds-kept m (mark q m) h p p e u (omega arith)
                    (λ a o. mark_below m h q n b a (omega arith)))
                  (mark_below m h q n b (heap_start h) (omega (arith, u.before)) ∙ start)
                  (Blocks-frame m _ h p pre q front (λ a l r. mark_below m h q n b a r))
                  (mark-IsBlock m h q n b)
                  (Blocks-frame m _ h (q + n) post e back (λ a l r. mark_above m h q n b a l)))
                λ _ m' (blocks, kept). (refl, blocks, λ a o. kept a o ∙ ground (arith, b.room)))))))
