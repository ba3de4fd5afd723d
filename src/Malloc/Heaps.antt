-- ===== src/Malloc/Heaps.antt =====
-- The heaps together: each well formed, no two in each other's way. The search of `malloc` over
-- all of them, and a new heap.
use mathlib.Core.Option
use osy.Common.{
  ℕ, suc, ◌+◌, ◌-◌, ◌^◌, ◌≤◌, ◌<◌, ◌≡◌, ◌≢◌, refl, ◌∙◌, ◌⊎◌, true, false, Option, none, some, List,
  [], ◌∷◌, ◌==◌, Returns, Returns-bind, Returns-mono, All, arith, ==_false, inl,
}
use osy.Malloc.Memory.{Mem, null, sizeof_head, sizeof_heap, heap_start, heap_end}
use osy.Malloc.{walk, search_heaps}
use osy.Malloc.Blocks.{min_block, Block, Blocks, Blocks-le, Blocks-frame}
use osy.Malloc.Fit.{Found, fit, Walked, Bounds, walk-fit}

-- What a heap is to the outside: where it stands, where it ends, and its blocks.
pub record HeapView : Type 0 where
  pub at : ℕ
  pub limit : ℕ
  pub blocks : List Block

abbrev pub first_block : HeapView → ℕ
first_block v = v.at + sizeof_heap

pub record IsHeap (m : Mem) (v : HeapView) : Type 0 where
  pub start_at : m (heap_start v.at) ≡ first_block v
  pub end_at : m (heap_end v.at) ≡ v.limit
  pub limit_lt : v.limit < 2 ^ 32
  pub tiled : Blocks m v.at (first_block v) v.blocks v.limit

-- No byte belongs to two heaps.
abbrev pub Apart : HeapView → HeapView → Type 0
Apart v w = (v.limit ≤ w.at) ⊎ (w.limit ≤ v.at)

abbrev pub Separate : List HeapView → Type 0
Separate [] = Unit
Separate (v ∷ vs) = All (Apart v) vs × Separate vs

abbrev pub addresses : List HeapView → List ℕ
addresses [] = []
addresses (v ∷ vs) = v.at ∷ addresses vs

pub IsHeap-frame :
    (m m' : Mem) (v : HeapView)
    → IsHeap m v
    → ((a : ℕ) → v.at ≤ a → a < v.limit → m' a ≡ m a)
    → IsHeap m' v
IsHeap-frame m m' v i same =
    let le = Blocks-le m v.at (first_block v) v.blocks v.limit i.tiled in
    record {
      start_at = same (heap_start v.at) (omega arith) (omega arith) ∙ i.start_at;
      end_at = same (heap_end v.at) (omega arith) (omega arith) ∙ i.end_at;
      limit_lt = i.limit_lt;
      tiled =
          Blocks-frame m m' v.at (first_block v) v.blocks v.limit i.tiled
            (λ a l r. same a (omega arith) r);
    }

pub All-IsHeap-frame :
    (m m' : Mem) (v : HeapView) (vs : List HeapView)
    → All (IsHeap m) vs
    → All (Apart v) vs
    → ((a : ℕ) → (a < v.at) ⊎ (v.limit ≤ a) → m' a ≡ m a)
    → All (IsHeap m') vs
All-IsHeap-frame m m' v [] i apart same = tt
All-IsHeap-frame m m' v (w ∷ vs) i apart same = (
  IsHeap-frame m m' w i.0 (λ a l r. same a (ground (arith, apart.0))),
  All-IsHeap-frame m m' v vs i.1 apart.1 same,
)

abbrev pub with_blocks : HeapView → List Block → HeapView
with_blocks v bs = record v { blocks = bs }

-- First fit over the heaps: the payload that is handed out, and the heaps afterwards.
abbrev pub keep : HeapView → ℕ × List HeapView → ℕ × List HeapView
keep v (q, ws) = (q, v ∷ ws)

abbrev pub choose :
    HeapView
    → List HeapView
    → Option Found
    → Option (ℕ × List HeapView)
    → Option (ℕ × List HeapView)
choose v vs (some f) rest = some (f.at + sizeof_head, with_blocks v f.after ∷ vs)
choose v vs none rest = Option.map (keep v) rest

abbrev pub fit_heaps : ℕ → List HeapView → Option (ℕ × List HeapView)
fit_heaps real [] = none
fit_heaps real (v ∷ vs) = choose v vs (fit real (first_block v) v.blocks) (fit_heaps real vs)

-- The address belongs to none of the heaps.
abbrev pub Outside : ℕ → List HeapView → Type 0
Outside a vs = All (λ (v : HeapView). (a < v.at) ⊎ (v.limit ≤ a)) vs

abbrev pub Searched : Mem → List HeapView → Option (ℕ × List HeapView) → ℕ → Mem → Type 0
Searched m vs none r m' = (r ≡ null) × (m' ≡ m)
Searched m vs (some (q, ws)) r m' =
    (r ≡ q) × (q ≢ null) × All (IsHeap m') ws × ((a : ℕ) → Outside a vs → m' a ≡ m a)

Apart-Outside :
    (v : HeapView) (vs : List HeapView) (a : ℕ)
    → All (Apart v) vs
    → v.at ≤ a
    → a < v.limit
    → Outside a vs
Apart-Outside v [] a apart l r = tt
Apart-Outside v (w ∷ vs) a apart l r = (ground (arith, apart.0), Apart-Outside v vs a apart.1 l r)

-- A search of the other heaps leaves this one alone.
Searched-behind :
    (m m' : Mem) (v : HeapView) (vs : List HeapView) (o : Option (ℕ × List HeapView)) (r : ℕ)
    → IsHeap m v
    → All (Apart v) vs
    → Searched m vs o r m'
    → Searched m (v ∷ vs) (Option.map (keep v) o) r m'
Searched-behind m m' v vs none r i apart s = s
Searched-behind m m' v vs (some (q, ws)) r i apart (at, ne, is, same) = (
  at,
  ne,
  (IsHeap-frame m m' v i (λ a l u. same a (Apart-Outside v vs a apart l u)), is),
  λ a o. same a o.1,
)

pub bounds : (m : Mem) (v : HeapView) → IsHeap m v → Bounds m v.at (first_block v) v.limit
bounds m v i = record {
  start_le = omega (arith, i.start_at);
  end_at = i.end_at;
  end_lt = i.limit_lt;
  before = omega arith;
}

-- What a walk that found a block leaves of the heap it went through, and of the others.
walked :
    (m m' : Mem) (v : HeapView) (vs : List HeapView) (f : Found) (r : ℕ)
    → IsHeap m v
    → All (IsHeap m) vs
    → All (Apart v) vs
    → Walked m v.at (first_block v) v.limit (some f) r m'
    → Searched m (v ∷ vs) (some (f.at + sizeof_head, with_blocks v f.after ∷ vs)) r m'
walked m m' v vs f r i is apart (at, tiled, kept, low, high) = (
  at,
  omega arith,
  (
    record {
      start_at = kept (heap_start v.at) (inl (omega arith)) ∙ i.start_at;
      end_at = kept (heap_end v.at) (inl (omega arith)) ∙ i.end_at;
      limit_lt = i.limit_lt;
      tiled = tiled;
    },
    All-IsHeap-frame m m' v vs is apart (λ a o. kept a (ground arith)),
  ),
  λ a o. kept a (ground (arith, o.0)),
)

module _ (real : ℕ) (room : min_block ≤ real) (small : real + min_block < 2 ^ 32) where
  -- The search of `malloc` over well-formed, separate heaps does not fail and finds what first fit
  -- over the lists of blocks finds; if it finds a block, the heaps are well formed with the blocks
  -- of first fit and nothing outside them is written, else the result is NULL and nothing is
  -- written. The size asked for is at least that of a header and a footer, and splitting by it does
  -- not overflow.
  pub search_heaps-fit :
      (m : Mem) (vs : List HeapView)
      → All (IsHeap m) vs
      → Separate vs
      → Returns (Searched m vs (fit_heaps real vs)) (search_heaps (addresses vs) real m)
  unfolding search_heaps
  search_heaps-fit m [] is apart = (refl, refl)
  search_heaps-fit m (v ∷ vs) is apart = rw (is.0.start_at) (
      rw (is.0.end_at) (
        Returns-bind _ (Searched m (v ∷ vs) (fit_heaps real (v ∷ vs)))
          (walk (suc (v.limit - first_block v)) v.at real null (first_block v) m) _
          (walk-fit v.at real v.limit room small (suc (v.limit - first_block v)) m (first_block v)
            v.blocks is.0.tiled (bounds m v is.0) (omega arith))
          (found (fit real (first_block v) v.blocks) (search_heaps-fit m vs is.1 apart.1))))
    where
      found :
          (o : Option Found)
          → Returns (Searched m vs (fit_heaps real vs)) (search_heaps (addresses vs) real m)
          → (r : ℕ) (m' : Mem) → Walked m v.at (first_block v) v.limit o r m'
          → Returns (Searched m (v ∷ vs) (choose v vs o (fit_heaps real vs))) (elim (r == null) [
            | true ↦ search_heaps (addresses vs) real m'
            | false ↦ some (r, m')
          ])
      found none rest r m' (null_result, same) = rw null_result (
          rw same (
            Returns-mono (Searched m vs (fit_heaps real vs)) _ _ rest
              λ q m2 s. Searched-behind m m2 v vs (fit_heaps real vs) q is.0 apart.0 s))
      found (some f) rest r m' w =
          let s = walked m m' v vs f r is.0 is.1 apart.0 w in
          rw (==_false r null (omega (arith, s.0, s.1))) s
