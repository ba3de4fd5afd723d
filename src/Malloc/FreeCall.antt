-- ===== src/Malloc/FreeCall.antt =====
-- `free` on the whole state: the block is released in its heap, and a heap with nothing in use
-- goes back to the frame allocator.
use osy.Common.{
  ℕ, ◌+◌, ◌<◌, ◌≡◌, refl, ap, sym, ◌∙◌, subst, Bool, true, false, not, ◌&&◌, some, List, [], ◌∷◌,
  ◌++◌, ◌==◌, if◌then◌else◌, Returns, Returns-mono, All, arith, ==_self, ==_false, inl,
}
use osy.Malloc.Memory.{Mem, sizeof_head, heap_start, heap_end, heap_frame_count}
use osy.Malloc.{
  FrameAllocator, State, addr_from_kseg0, heap_is_unused, drop_heap, free, free_block, release_heap,
}
use osy.Malloc.Blocks.{Block, Blocks, Blocks-le, add32_lem}
use osy.Malloc.Merge.{absorb, attach, release, free_block-release}
use osy.Malloc.Heaps.{
  HeapView, first_block, IsHeap, Apart, Separate, addresses, with_blocks, All-IsHeap-frame, bounds,
}
use osy.Malloc.Calls.{IsState, Returns-continue, Apart-sym}

-- The heap is one free block.
abbrev pub unused : List Block → Bool
unused [] = false
unused ((n, free) ∷ []) = free
unused (b ∷ c ∷ bs) = false

unused_lem :
    (m : Mem) (v : HeapView) (b : Block) (bs : List Block)
    → IsHeap m v
    → v.blocks ≡ b ∷ bs
    → heap_is_unused v.at m ≡ unused (b ∷ bs)
unfolding heap_is_unused
unused_lem m v (n, free) bs i e =
    let tiled = subst (λ x. Blocks m v.at (first_block v) x v.limit) e i.tiled in
    let le = Blocks-le m v.at (first_block v + n) bs v.limit tiled.1 in
    rw (i.start_at) (
      rw (tiled.0.free_at) (
        rw (tiled.0.size_at) (
          rw (add32_lem (first_block v) n (omega (arith, i.limit_lt)))
            (rw (i.end_at) (by_rest bs tiled.1)))))
  where
    by_rest :
        (bs : List Block)
        → Blocks m v.at (first_block v + n) bs v.limit
        → (not ((if free then 1 else 0) == 0) && (first_block v + n == v.limit))
          ≡ unused ((n, free) ∷ bs)
    by_rest [] t = ground arith
    by_rest ((k, g) ∷ bs) t =
        ground (arith, t.0.room, Blocks-le m v.at (first_block v + n + k) bs v.limit t.1)

-- Replacing and dropping one heap of a list.
module _ (v : HeapView) (bs : List Block) (back : List HeapView) where
  pub All-replace :
      (P : HeapView → Type 0) (front : List HeapView)
      → P (with_blocks v bs)
      → All P (front ++ v ∷ back)
      → All P (front ++ with_blocks v bs ∷ back)
  All-replace P [] p h = (p, h.1)
  All-replace P (w ∷ front) p h = (h.0, All-replace P front p h.1)

  pub All-drop :
      (P : HeapView → Type 0) (front : List HeapView)
      → All P (front ++ v ∷ back)
      → P v × All P (front ++ back)
  All-drop P [] h = h
  All-drop P (w ∷ front) h = let (p, rest) = All-drop P front h.1 in (p, (h.0, rest))

  Separate-replace :
      (front : List HeapView)
      → Separate (front ++ v ∷ back)
      → Separate (front ++ with_blocks v bs ∷ back)
  Separate-replace [] h = h
  Separate-replace (w ∷ front) h =
      (All-replace (Apart w) front (All-drop (Apart w) front h.0).0 h.0, Separate-replace front h.1)

  Separate-drop :
      (front : List HeapView)
      → Separate (front ++ v ∷ back)
      → Separate (front ++ back) × All (Apart v) (front ++ back)
  Separate-drop [] h = (h.1, h.0)
  Separate-drop (w ∷ front) h =
      let (others, away) = Separate-drop front h.1 in
      let (from, rest) = All-drop (Apart w) front h.0 in
      ((rest, others), (Apart-sym w v from, away))

  addresses-replace :
      (front : List HeapView)
      → addresses (front ++ with_blocks v bs ∷ back) ≡ addresses (front ++ v ∷ back)
  addresses-replace [] = refl
  addresses-replace (w ∷ front) = ap (λ xs. w.at ∷ xs) (addresses-replace front)

HeapView-lt : (m : Mem) (v : HeapView) → IsHeap m v → v.at < v.limit
HeapView-lt m v i = omega (arith, Blocks-le m v.at (first_block v) v.blocks v.limit i.tiled)

drop_heap-addresses :
    (m : Mem) (v : HeapView) (front back : List HeapView)
    → All (IsHeap m) (front ++ v ∷ back)
    → Separate (front ++ v ∷ back)
    → drop_heap v.at (addresses (front ++ v ∷ back)) ≡ addresses (front ++ back)
unfolding drop_heap
drop_heap-addresses m v [] back h s = rw (==_self v.at)
drop_heap-addresses m v (w ∷ front) back h s =
    let (from, rest) = All-drop v [] back (Apart w) front s.0 in
    let (own, others) = All-drop v [] back (IsHeap m) front h.1 in
    rw (==_false w.at v.at (ground (arith, from, HeapView-lt m w h.0, HeapView-lt m v own)))
      (ap (λ xs. w.at ∷ xs) (drop_heap-addresses m v front back h.1 s.1))

All-insert :
    (P : HeapView → Type 0) (w : HeapView) (front back : List HeapView)
    → P w
    → All P (front ++ back)
    → All P (front ++ w ∷ back)
All-insert P w [] back p h = (p, h)
All-insert P w (x ∷ front) back p h = (h.0, All-insert P w front back p h.1)

Blocks-rest :
    (m : Mem) (h p : ℕ) (pre : List Block) (q : ℕ) (bs : List Block) (e : ℕ)
    → Blocks m h p pre q
    → Blocks m h p (pre ++ bs) e
    → Blocks m h q bs e
Blocks-rest m h p [] q bs e here all = subst (λ x. Blocks m h x bs e) here all
Blocks-rest m h p ((n, free) ∷ pre) q bs e here all =
    Blocks-rest m h (p + n) pre q bs e here.1 all.1

attach-cons :
    (pre : List Block) (n : ℕ) (rest : List Block)
    → (b : Block) × (bs : List Block) × (attach pre n rest ≡ b ∷ bs)
attach-cons [] n rest = ((n, true), rest, refl)
attach-cons ((j, true) ∷ []) n rest = ((j + n, true), rest, refl)
attach-cons ((j, false) ∷ []) n rest = ((j, false), (n, true) ∷ rest, refl)
attach-cons (b ∷ c ∷ pre) n rest = (b, attach (c ∷ pre) n rest, refl)

module _ (𝓕 : FrameAllocator) (s : State 𝓕.Frames) (front : List HeapView) (v : HeapView)
    (back : List HeapView) (i : IsState s (front ++ v ∷ back)) (pre : List Block) (q n : ℕ)
    (post : List Block) (tiles : v.blocks ≡ pre ++ (n, false) ∷ post)
    (here : Blocks s.mem v.at (first_block v) pre q) where
  -- What `free_block` leaves of all the heaps.
  abbrev Released : ℕ → Mem → Type 0
  Released r m' =
      (r ≡ v.at)
      × IsHeap m' (with_blocks v (release pre n post))
      × All (IsHeap m') (front ++ back)
      × (m' (heap_frame_count v.at) ≡ s.mem (heap_frame_count v.at))

  released : Returns Released (free_block (q + sizeof_head) s.mem)
  released =
      let (own, others) = All-drop v [] back (IsHeap s.mem) front i.heaps in
      let (apart, away) = Separate-drop v [] back front i.separate in
      let rest =
        Blocks-rest s.mem v.at (first_block v) pre q ((n, false) ∷ post) v.limit here
          (subst (λ x. Blocks s.mem v.at (first_block v) x v.limit) tiles own.tiled) in
      Returns-mono _ _ (free_block (q + sizeof_head) s.mem)
        (free_block-release s.mem v.at (first_block v) q n pre post v.limit (bounds s.mem v own)
          own.start_at here rest.0 rest.1)
        λ r m (at, tiled, kept). (
          at,
          record {
            start_at = kept (heap_start v.at) (inl (omega arith)) ∙ own.start_at;
            end_at = kept (heap_end v.at) (inl (omega arith)) ∙ own.end_at;
            limit_lt = own.limit_lt;
            tiled = tiled;
          },
          All-IsHeap-frame s.mem m v (front ++ back) others away (λ a o. kept a (ground arith)),
          kept (heap_frame_count v.at) (inl (omega arith)),
        )

  after_unused :
      (m : Mem)
      → IsHeap m (with_blocks v (release pre n post))
      → heap_is_unused v.at m ≡ unused (release pre n post)
  after_unused m h =
      let (b, bs, e) = attach-cons pre (absorb n post).0 (absorb n post).1 in
      rw e (unused_lem m (with_blocks v (release pre n post)) b bs h e)

  -- On well-formed, separate heaps, `free` of the payload of a used block does not fail where a
  -- used block remains in the heap: the block is released and merged with its free neighbours, all
  -- heaps stay well formed and separate, and no frames are returned.
  pub free-keeps :
      unused (release pre n post) ≡ false
      → Returns
          (λ _ s'.
            IsState s' (front ++ with_blocks v (release pre n post) ∷ back)
            × (s'.frames ≡ s.frames))
          (free 𝓕 (q + sizeof_head) s)
  unfolding free
  free-keeps used = Returns-continue Released _ _ _ released λ r m (at, own, others, count).
      rw (at) (
        rw (after_unused m own) (
          rw used (
            record {
              listed = i.listed ∙ sym (addresses-replace v (release pre n post) back front);
              heaps =
                  All-insert (IsHeap m) (with_blocks v (release pre n post)) front back own others;
              separate = Separate-replace v (release pre n post) back front i.separate;
            },
            refl,
          )))

  -- On well-formed, separate heaps, `free` of the payload of a used block whose release leaves its
  -- heap as a single free block, where the frame allocator takes the frames of the heap back, does
  -- not fail: the heap leaves the list, its frames are given back, and the other heaps stay well
  -- formed and separate.
  pub free-drops :
      (rest : 𝓕.Frames)
      → unused (release pre n post) ≡ true
      → 𝓕.frame_free (addr_from_kseg0 v.at) (s.mem (heap_frame_count v.at)) s.frames ≡ some rest
      → Returns
          (λ _ s'. IsState s' (front ++ back) × (s'.frames ≡ rest))
          (free 𝓕 (q + sizeof_head) s)
  unfolding free
  free-drops rest done f = Returns-continue Released _ _ _ released λ r m (at, own, others, count).
      rw (at) (
        rw (after_unused m own) (
          rw done (
            rw (count, release_heap)
              (rw f (
                record {
                  listed =
                      ap (drop_heap v.at) i.listed
                      ∙ drop_heap-addresses s.mem v front back i.heaps i.separate;
                  heaps = others;
                  separate = (Separate-drop v [] back front i.separate).0;
                },
                refl,
              )))))
