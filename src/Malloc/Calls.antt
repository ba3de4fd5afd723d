-- ===== src/Malloc/Calls.antt =====
-- `malloc` on the whole state: the heaps in the list, and the frame allocator.
use osy.Common.{
  ℕ, ◌+◌, ◌^◌, ◌≤◌, ◌<◌, ◌≡◌, ◌≢◌, refl, ap, sym, ◌∙◌, subst, Option, none, some, List, [], ◌∷◌,
  ◌++◌, Returns, All, All-append, arith, le→leb, ==_false, All-imp, Option-cases, inl, inr,
}
use osy.Malloc.Memory.{Mem, null, sizeof_head, sizeof_heap, block_size_max, real_size}
use osy.Malloc.{
  FrameAllocator, State, continue_with, addr_in_kseg0, heap_extent, heap_setup, malloc_heap, malloc,
  search_heaps,
}
use osy.Malloc.Fit.{Found, fit}
use osy.Malloc.Sizes.{real_size_lem, heap_extent_lem}
use osy.Malloc.Heaps.{
  HeapView, first_block, IsHeap, Apart, Separate, addresses, choose, fit_heaps, Searched,
  search_heaps-fit, All-IsHeap-frame,
}
use osy.Malloc.Setup.{new_heap, SetUp, heap_setup_lem}

-- The list of heaps names exactly the heaps `vs`, which are well formed and apart.
pub record IsState {F : Type 0} (s : State F) (vs : List HeapView) : Type 0 where
  pub listed : s.heap_list ≡ addresses vs
  pub heaps : All (IsHeap s.mem) vs
  pub separate : Separate vs

pub Returns-continue :
    {F A B : Type 0} (P : A → Mem → Type 0) (Q : B → State F → Type 0) (r : Option (A × Mem))
    (k : A → Mem → Option (B × State F))
    → Returns P r
    → ((a : A) (m : Mem) → P a m → Returns Q (k a m))
    → Returns Q (continue_with r k)
Returns-continue P Q none k h f = h
Returns-continue P Q (some (a, m)) k h f = f a m h

-- A search changes the blocks of one heap, and no heap's place.
record SamePlaces (vs ws : List HeapView) : Type 0 where
  listed : addresses ws ≡ addresses vs
  apart : (v : HeapView) → All (Apart v) vs → All (Apart v) ws
  separate : Separate vs → Separate ws

abbrev Each : (List HeapView → Type 0) → Option (ℕ × List HeapView) → Type 0
Each P none = Unit
Each P (some (q, ws)) = P ws

choose-SamePlaces :
    (v : HeapView) (vs : List HeapView) (o : Option Found) (rest : Option (ℕ × List HeapView))
    → Each (SamePlaces vs) rest
    → Each (SamePlaces (v ∷ vs)) (choose v vs o rest)
choose-SamePlaces v vs (some f) rest ih = record {
  listed = refl;
  apart = λ w h. h;
  separate = λ h. h;
}
choose-SamePlaces v vs none none ih = tt
choose-SamePlaces v vs none (some (q, ws)) ih = record {
  listed = ap (λ xs. v.at ∷ xs) ih.listed;
  apart = λ w h. (h.0, ih.apart w h.1);
  separate = λ h. (ih.apart v h.0, ih.separate h.1);
}

fit_heaps-SamePlaces : (real : ℕ) (vs : List HeapView) → Each (SamePlaces vs) (fit_heaps real vs)
fit_heaps-SamePlaces real [] = tt
fit_heaps-SamePlaces real (v ∷ vs) =
    choose-SamePlaces v vs (fit real (first_block v) v.blocks) (fit_heaps real vs)
      (fit_heaps-SamePlaces real vs)

Separate-snoc :
    (vs : List HeapView) (w : HeapView)
    → Separate vs
    → All (λ v. Apart v w) vs
    → Separate (vs ++ w ∷ [])
Separate-snoc [] w h a = (tt, tt)
Separate-snoc (v ∷ vs) w h a =
    (All-append (Apart v) vs (w ∷ []) h.0 (a.0, tt), Separate-snoc vs w h.1 a.1)

addresses-snoc :
    (vs : List HeapView) (w : HeapView) → addresses (vs ++ w ∷ []) ≡ addresses vs ++ w.at ∷ []
addresses-snoc [] w = refl
addresses-snoc (v ∷ vs) w = ap (λ xs. v.at ∷ xs) (addresses-snoc vs w)

pub Apart-sym : (v w : HeapView) → Apart v w → Apart w v
Apart-sym v w (inl h) = inr h
Apart-sym v w (inr h) = inl h

module _ (𝓕 : FrameAllocator) (s : State 𝓕.Frames) (vs : List HeapView) (size : ℕ)
    (i : IsState s vs) (le : size ≤ block_size_max) where
  open 𝓕 use {Frames, frame_alloc, frame_free}

  searched :
      (o : Option (ℕ × List HeapView))
      → fit_heaps (real_size size) vs ≡ o
      → Returns (Searched s.mem vs o) (search_heaps s.heap_list (real_size size) s.mem)
  searched o e =
      let sized = real_size_lem size le in
      rw (i.listed) (
        rw (← e) (
          search_heaps-fit (real_size size) (omega (arith, sized.holds))
            (omega (arith, sized.tight)) s.mem vs i.heaps i.separate))

  -- On well-formed, separate heaps, if first fit over their blocks finds a place for the request's
  -- real size, `malloc` of at most the maximal size does not fail: it returns that address, which
  -- is not NULL, the heaps have the blocks of first fit afterwards and are well formed and
  -- separate, and no frames are taken.
  pub malloc-reuses :
      (q : ℕ) (ws : List HeapView)
      → fit_heaps (real_size size) vs ≡ some (q, ws)
      → Returns
          (λ r s'. (r ≡ q) × (q ≢ null) × IsState s' ws × (s'.frames ≡ s.frames))
          (malloc 𝓕 size s)
  unfolding malloc
  malloc-reuses q ws e = rw (le→leb _ _ le) (
      Returns-continue (Searched s.mem vs (some (q, ws))) _ _ _ (searched _ e)
        λ r m (at, ne, heaps, same). rw (==_false r null (omega arith)) (
          at,
          ne,
          record {
            listed = i.listed ∙ sym places.listed;
            heaps = heaps;
            separate = places.separate i.separate;
          },
          refl,
        ))
    where
      places : SamePlaces vs ws
      places = subst (Each (SamePlaces vs)) e (fit_heaps-SamePlaces (real_size size) vs)

  -- On well-formed, separate heaps none of which has a block for the request, where the frame
  -- allocator has no frames, `malloc` of at most the maximal size returns NULL and the state is
  -- unchanged.
  pub malloc-exhausted :
      fit_heaps (real_size size) vs ≡ none
      → frame_alloc (heap_extent (real_size size)).1 s.frames ≡ none
      → malloc 𝓕 size s ≡ some (null, s)
  unfolding malloc malloc_heap
  malloc-exhausted e f =
      rw (le→leb _ _ le) (elim (Option-cases (search_heaps s.heap_list (real_size size) s.mem)) [
        | inl failed ↦ absurd (subst (Returns (Searched s.mem vs none)) failed (searched none e))
        | inr ((r, m), found) ↦
            let (at, same) = subst (Returns (Searched s.mem vs none)) found (searched none e) in
            rw found (rw at (rw same (rw (f, malloc_heap))))
      ])

  abbrev pub grown : ℕ → HeapView
  grown phys = new_heap (addr_in_kseg0 phys) (heap_extent (real_size size)).0 (real_size size)

  -- What a request that needs a new heap leaves.
  abbrev pub Grown : ℕ → Frames → ℕ → State Frames → Type 0
  Grown phys rest r s' =
      (r ≡ addr_in_kseg0 phys + sizeof_heap + sizeof_head)
      × IsState s' (vs ++ grown phys ∷ [])
      × (s'.frames ≡ rest)

  malloc_heap-Grown :
      (phys : ℕ) (rest : Frames)
      → frame_alloc (heap_extent (real_size size)).1 s.frames ≡ some (phys, rest)
      → addr_in_kseg0 phys + (heap_extent (real_size size)).0 < 2 ^ 32
      → All (λ v. Apart v (grown phys)) vs
      → Returns (Grown phys rest) (malloc_heap 𝓕 size s)
  unfolding malloc_heap
  malloc_heap-Grown phys rest f fits apart =
      let sized = real_size_lem size le in
      let extent = heap_extent_lem (real_size size) (omega (arith, sized.tight)) in
      rw (f, malloc_heap)
        (Returns-continue
          (SetUp s.mem (addr_in_kseg0 phys) (heap_extent (real_size size)).0 (real_size size))
          (Grown phys rest)
          (heap_setup (addr_in_kseg0 phys) (heap_extent (real_size size)).0 (real_size size)
            (heap_extent (real_size size)).1 s.mem)
          _
          (heap_setup_lem s.mem (addr_in_kseg0 phys) (heap_extent (real_size size)).0
            (real_size size) (heap_extent (real_size size)).1 (omega (arith, sized.holds))
            extent.room fits (omega (arith, sized.tight)))
          λ r m (at, heap, kept). (
            at,
            record {
              listed =
                  ap (λ xs. xs ++ addr_in_kseg0 phys ∷ []) i.listed
                  ∙ sym (addresses-snoc vs (grown phys));
              heaps =
                  All-append (IsHeap m) vs (grown phys ∷ [])
                    (All-IsHeap-frame s.mem m (grown phys) vs i.heaps
                      (All-imp vs (λ v. Apart-sym v (grown phys)) apart) kept)
                    (heap, tt);
              separate = Separate-snoc vs (grown phys) i.separate apart;
            },
            refl,
          ))

  -- On well-formed, separate heaps none of which has a block for the request, where the frame
  -- allocator yields frames for a new heap that lies apart from the others in 32 bits, `malloc` of
  -- at most the maximal size does not fail: the heap is listed behind the others, all are well
  -- formed and separate, and the result is its first payload.
  pub malloc-grows :
      (phys : ℕ) (rest : Frames)
      → fit_heaps (real_size size) vs ≡ none
      → frame_alloc (heap_extent (real_size size)).1 s.frames ≡ some (phys, rest)
      → addr_in_kseg0 phys + (heap_extent (real_size size)).0 < 2 ^ 32
      → All (λ v. Apart v (grown phys)) vs
      → Returns (Grown phys rest) (malloc 𝓕 size s)
  unfolding malloc
  malloc-grows phys rest e f fits apart =
      rw (le→leb _ _ le) (elim (Option-cases (search_heaps s.heap_list (real_size size) s.mem)) [
        | inl failed ↦ absurd (subst (Returns (Searched s.mem vs none)) failed (searched none e))
        | inr ((r, m), found) ↦
            let (at, same) = subst (Returns (Searched s.mem vs none)) found (searched none e) in
            rw found (rw at (rw same (malloc_heap-Grown phys rest f fits apart)))
      ])
