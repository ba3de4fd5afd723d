-- ===== src/Malloc/RoundTrip.antt =====
-- kernel/mm/malloc.c: `free` of what `malloc` has just found in the heaps.
use osy.Common.{
  ℕ, ◌+◌, ◌≡◌, refl, ap, sym, ◌∙◌, subst, false, Option, none, some, List, [], ◌∷◌, ◌++◌, ltb,
  Returns, Returns-mono, All, Bool-cases, inl, inr, arith,
}
use osy.Malloc.Memory.{Mem, sizeof_head}
use osy.Malloc.{FrameAllocator, State, free}
use osy.Malloc.Blocks.{Block, Blocks, min_block}
use osy.Malloc.Fit.{Found, fit, place}
use osy.Malloc.Merge.{release}
use osy.Malloc.Settled.{Settled, fit-Spot, extent, taken_size, taken_rest, release-place}
use osy.Malloc.Heaps.{HeapView, first_block, IsHeap, with_blocks, choose, fit_heaps}
use osy.Malloc.Calls.{IsState}
use osy.Malloc.FreeCall.{unused, free-keeps, All-drop}
use osy.Malloc.Tidy.{AllSettled}

-- Which heap first fit takes a block from
pub record Chosen (real : ℕ) (vs : List HeapView) (q : ℕ) (ws : List HeapView) : Type 0 where
  front : List HeapView
  heap : HeapView
  back : List HeapView
  block : Found
  before : vs ≡ front ++ heap ∷ back
  found : fit real (first_block heap) heap.blocks ≡ some block
  after : ws ≡ front ++ with_blocks heap block.after ∷ back
  at : q ≡ block.at + sizeof_head

pub fit_heaps-Chosen :
    (real : ℕ) (vs : List HeapView) (q : ℕ) (ws : List HeapView)
    → fit_heaps real vs ≡ some (q, ws)
    → Chosen real vs q ws
fit_heaps-Chosen real [] q ws e = cc
fit_heaps-Chosen real (v ∷ vs) q ws e =
    go (fit real (first_block v) v.blocks) (fit_heaps real vs) refl
      (λ q' ws' r. fit_heaps-Chosen real vs q' ws' r) e
  where
    go :
        (o : Option Found) (rest : Option (ℕ × List HeapView))
        → fit real (first_block v) v.blocks ≡ o
        → ((q' : ℕ) (ws' : List HeapView) → rest ≡ some (q', ws') → Chosen real vs q' ws')
        → choose v vs o rest ≡ some (q, ws)
        → Chosen real (v ∷ vs) q ws
    go (some f) rest eq rec e = record {
      front = [];
      heap = v;
      back = vs;
      block = f;
      before = refl;
      found = eq;
      after = cc;
      at = cc;
    }
    go none none eq rec e = cc
    go none (some (q', ws')) eq rec e =
        let c = rec q' ws' refl in
        let listed : v ∷ ws' ≡ ws = cc in
        let same : q' ≡ q = cc in
        record {
          front = v ∷ c.front;
          heap = c.heap;
          back = c.back;
          block = c.block;
          before = ap (λ xs. v ∷ xs) c.before;
          found = c.found;
          after = sym listed ∙ ap (λ xs. v ∷ xs) c.after;
          at = sym same ∙ c.at;
        }

-- The blocks in front of a place reach up to it.
Blocks-front :
    (m : Mem) (h p : ℕ) (pre bs : List Block) (e : ℕ)
    → Blocks m h p (pre ++ bs) e
    → Blocks m h p pre (p + extent pre)
Blocks-front m h p [] bs e b = omega arith
Blocks-front m h p ((n, free) ∷ pre) bs e b =
    let more : p + n + extent pre ≡ p + (n + extent pre) = omega arith in
    (b.0, subst (Blocks m h (p + n) pre) more (Blocks-front m h (p + n) pre bs e b.1))

-- A block that is taken is used, with the rest behind it.
place_taken :
    (real n : ℕ) (pre post : List Block)
    → pre ++ place real n ++ post ≡ pre ++ (taken_size real n, false) ∷ taken_rest real n post
place_taken real n [] post = elim (Bool-cases (ltb (real + min_block) n)) [
  | inl e ↦ rw e refl
  | inr e ↦ rw e refl
]
place_taken real n (b ∷ pre) post = ap (λ xs. b ∷ xs) (place_taken real n pre post)

module _ (𝓕 : FrameAllocator) (s : State 𝓕.Frames) (vs : List HeapView) (i : IsState s vs)
    (tidy : AllSettled vs) (in_use : All (λ v. unused v.blocks ≡ false) vs) where
  -- The block that first fit has taken is freed again, and the heaps are as before.
  pub freed :
      (real q : ℕ) (ws : List HeapView) (t : State 𝓕.Frames)
      → Chosen real vs q ws
      → IsState t ws
      → Returns (λ _ u. IsState u vs × (u.frames ≡ t.frames)) (free 𝓕 q t)
  freed real q ws t c j =
      let f = c.block in
      let spot = fit-Spot real (first_block c.heap) c.heap.blocks f c.found in
      let v = with_blocks c.heap f.after in
      let now : IsState t (c.front ++ v ∷ c.back) = subst (IsState t) c.after j in
      let tiles = spot.after ∙ place_taken real f.size spot.pre spot.post in
      let own = (All-drop v [] c.back (IsHeap t.mem) c.front now.heaps).0 in
      let tiled = subst (λ bs. Blocks t.mem v.at (first_block v) bs v.limit) tiles own.tiled in
      let here : Blocks t.mem v.at (first_block v) spot.pre f.at =
        subst (Blocks t.mem v.at (first_block v) spot.pre) (sym spot.at)
          (Blocks-front t.mem v.at (first_block v) spot.pre _ v.limit tiled) in
      let settled =
        (All-drop c.heap [] c.back (λ w. Settled w.blocks) c.front
          (subst AllSettled c.before tidy)).0 in
      let restored : release spot.pre (taken_size real f.size) (taken_rest real f.size spot.post)
          ≡ c.heap.blocks =
        release-place real f.size spot.pre spot.post (subst Settled spot.here settled) spot.enough
        ∙ sym spot.here in
      let busy =
        (All-drop c.heap [] c.back (λ w. unused w.blocks ≡ false) c.front
          (subst (All (λ w. unused w.blocks ≡ false)) c.before in_use)).0 in
      let heaps : c.front
            ++ with_blocks v
                (release spot.pre (taken_size real f.size) (taken_rest real f.size spot.post))
              ∷ c.back
          ≡ vs =
        ap (λ bs. c.front ++ with_blocks v bs ∷ c.back) restored ∙ sym c.before in
      subst (λ p. Returns (λ _ u. IsState u vs × (u.frames ≡ t.frames)) (free 𝓕 p t)) (sym c.at)
        (Returns-mono _ (λ _ u. IsState u vs × (u.frames ≡ t.frames))
          (free 𝓕 (f.at + sizeof_head) t)
          (free-keeps 𝓕 t c.front v c.back now spot.pre f.at (taken_size real f.size)
            (taken_rest real f.size spot.post) tiles here (ap unused restored ∙ busy))
          λ r u h. (subst (IsState u) heaps h.0, h.1))
