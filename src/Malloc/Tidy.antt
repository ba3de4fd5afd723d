-- ===== src/Malloc/Tidy.antt =====
-- kernel/mm/malloc.c, `malloc` and `free`: states with well-formed, separate heaps in which no two free
-- blocks stand side by side.
use osy.Common.{
  ℕ, ◌+◌, ◌-◌, ◌^◌, ◌≤◌, ◌<◌, ◌≡◌, refl, subst, false, Option, none, some, List, [], ◌∷◌, ◌++◌, ltb,
  Returns, Returns-mono, All, All-append, Bool-cases, Option-cases, inl, inr,
}
use osy.Malloc.Memory.{sizeof_head, sizeof_heap, block_size_max, real_size, heap_frame_count}
use osy.Malloc.{FrameAllocator, State, addr_in_kseg0, addr_from_kseg0, heap_extent, malloc, free}
use osy.Malloc.Blocks.{Block, Blocks, min_block}
use osy.Malloc.Fit.{Found, fit, place}
use osy.Malloc.Merge.{release}
use osy.Malloc.Settled.{Settled, fit-Settled, release-Settled}
use osy.Malloc.Heaps.{HeapView, first_block, Apart, with_blocks, choose, fit_heaps}
use osy.Malloc.Calls.{IsState, grown, Grown, malloc-reuses, malloc-exhausted, malloc-grows}
use osy.Malloc.FreeCall.{unused, free-keeps, free-drops, All-replace, All-drop}

abbrev pub AllSettled : List HeapView → Type 0
AllSettled = All (λ v. Settled v.blocks)

-- The state's heaps, in some view of them.
abbrev pub IsTidy : {F : Type 0} → State F → Type 0
IsTidy s = (vs : List HeapView) × IsState s vs × AllSettled vs

abbrev EachSettled : Option (ℕ × List HeapView) → Type 0
EachSettled none = Unit
EachSettled (some (q, ws)) = AllSettled ws

choose-Settled :
    (v : HeapView) (vs : List HeapView) (o : Option Found) (rest : Option (ℕ × List HeapView))
    → AllSettled (v ∷ vs)
    → ((f : Found) → o ≡ some f → Settled f.after)
    → EachSettled rest
    → EachSettled (choose v vs o rest)
choose-Settled v vs (some f) rest h found ih = (found f refl, h.1)
choose-Settled v vs none none h found ih = tt
choose-Settled v vs none (some (q, ws)) h found ih = (h.0, ih)

fit_heaps-Settled :
    (real : ℕ) (vs : List HeapView) → AllSettled vs → EachSettled (fit_heaps real vs)
fit_heaps-Settled real [] h = tt
fit_heaps-Settled real (v ∷ vs) h =
    choose-Settled v vs (fit real (first_block v) v.blocks) (fit_heaps real vs) h
      (λ f e. fit-Settled real (first_block v) v.blocks f h.0 e) (fit_heaps-Settled real vs h.1)

place_alone : (real n : ℕ) → Settled (place real n)
place_alone real n = elim (Bool-cases (ltb (real + min_block) n)) [
  | inl e ↦ rw e (refl, tt)
  | inr e ↦ rw e tt
]

module _ (𝓕 : FrameAllocator) (s : State 𝓕.Frames) (vs : List HeapView) (i : IsState s vs)
    (tidy : AllSettled vs) where
  -- On well-formed, separate heaps in which no two free blocks stand side by side, `malloc` of at
  -- most the maximal size does not fail and leaves such heaps, whether a block fits, a new heap is
  -- made or memory is exhausted, where frames that the frame allocator yields lie apart from the
  -- heaps in 32 bits.
  pub malloc-IsTidy :
      (size : ℕ) (le : size ≤ block_size_max)
      → ((phys : ℕ) (rest : 𝓕.Frames)
          → 𝓕.frame_alloc (heap_extent (real_size size)).1 s.frames ≡ some (phys, rest)
          → (addr_in_kseg0 phys + (heap_extent (real_size size)).0 < 2 ^ 32)
            × All (λ v. Apart v (grown 𝓕 s vs size i le phys)) vs)
      → Returns (λ _ s'. IsTidy s') (malloc 𝓕 size s)
  malloc-IsTidy size le fresh = elim (Option-cases (fit_heaps (real_size size) vs)) [
    | inr ((q, ws), e) ↦
        Returns-mono _ (λ _ s'. IsTidy s') (malloc 𝓕 size s) (malloc-reuses 𝓕 s vs size i le q ws e)
          λ r s' h. (ws, h.2, subst EachSettled e (fit_heaps-Settled (real_size size) vs tidy))
    | inl e ↦ elim (Option-cases (𝓕.frame_alloc (heap_extent (real_size size)).1 s.frames)) [
      | inl f ↦ let same = malloc-exhausted 𝓕 s vs size i le e f in rw same (vs, i, tidy)
      | inr ((phys, rest), f) ↦
          let (fits, apart) = fresh phys rest f in
          Returns-mono (Grown 𝓕 s vs size i le phys rest) (λ _ s'. IsTidy s') (malloc 𝓕 size s)
            (malloc-grows 𝓕 s vs size i le phys rest e f fits apart)
            λ r s' h. (
              vs ++ grown 𝓕 s vs size i le phys ∷ [],
              h.1,
              All-append (λ v. Settled v.blocks) vs (grown 𝓕 s vs size i le phys ∷ []) tidy
                  (
                    place_alone (real_size size) ((heap_extent (real_size size)).0 - sizeof_heap),
                    tt,
                  ),
            )
    ]
  ]

module _ (𝓕 : FrameAllocator) (s : State 𝓕.Frames) (front : List HeapView) (v : HeapView)
    (back : List HeapView) (i : IsState s (front ++ v ∷ back))
    (tidy : AllSettled (front ++ v ∷ back)) where
  -- On well-formed, separate heaps in which no two free blocks stand side by side, `free` of the
  -- payload of a used block does not fail and leaves such heaps, where the frame allocator would
  -- take the frames of the heap back.
  pub free-IsTidy :
      (pre : List Block) (q n : ℕ) (post : List Block)
      → v.blocks ≡ pre ++ (n, false) ∷ post
      → Blocks s.mem v.at (first_block v) pre q
      → ((rest : 𝓕.Frames) × (𝓕.frame_free
              (addr_from_kseg0 v.at)
              (s.mem (heap_frame_count v.at))
              s.frames
            ≡ some rest))
      → Returns (λ _ s'. IsTidy s') (free 𝓕 (q + sizeof_head) s)
  free-IsTidy pre q n post tiles here (rest, takes) =
      let (own, others) = All-drop v [] back (λ w. Settled w.blocks) front tidy in
      let settled = release-Settled pre n post (subst Settled tiles own) in
      elim (Bool-cases (unused (release pre n post))) [
        | inl done ↦
            Returns-mono (λ _ s'. IsState s' (front ++ back) × (s'.frames ≡ rest))
              (λ _ s'. IsTidy s') (free 𝓕 (q + sizeof_head) s)
              (free-drops 𝓕 s front v back i pre q n post tiles here rest done takes)
              λ r s' h. (front ++ back, h.0, others)
        | inr used ↦
            Returns-mono
              (λ _ s'.
                IsState s' (front ++ with_blocks v (release pre n post) ∷ back)
                × (s'.frames ≡ s.frames))
              (λ _ s'. IsTidy s') (free 𝓕 (q + sizeof_head) s)
              (free-keeps 𝓕 s front v back i pre q n post tiles here used)
              λ r s' h. (
                front ++ with_blocks v (release pre n post) ∷ back,
                h.0,
                All-replace v (release pre n post) back (λ w. Settled w.blocks) front settled tidy,
              )
      ]
