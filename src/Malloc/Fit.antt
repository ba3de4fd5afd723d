-- ===== src/Malloc/Fit.antt =====
-- First fit as a function on the list of blocks, and the walk of `malloc` over one heap.
use mathlib.Core.Option
use osy.Common.{
  ℕ, zero, suc, ◌+◌, ◌-◌, ◌^◌, ◌≤◌, ◌<◌, ◌≡◌, ◌≢◌, refl, ◌∙◌, subst, ◌⊎◌, Bool, true, false, ◌&&◌,
  Option, none, some, List, [], ◌∷◌, ◌++◌, ◌==◌, if◌then◌else◌, ltb, leb, Returns, Returns-bind,
  Returns-mono, and_then, arith, lt→ltb, ltb→lt, ==_false, Bool-cases, inl, inr,
}
use osy.Malloc.Memory.{
  Mem, null, add32, sizeof_head, sizeof_foot, head_free, heap_start, heap_end, split_limit, write,
}
use osy.Malloc.{take_block, try_block, walk}
use osy.Malloc.Blocks.{
  add32_lem, sub32_lem, min_block, IsBlock, Block, Blocks, Blocks-le, IsBlock-frame, Blocks-frame,
  block_check-ok, init_mem, block_init_lem, init_mem-IsBlock, init_mem_below, init_mem_above,
}

-- The block that is taken, and what is split off.
abbrev pub place : ℕ → ℕ → List Block
place real n =
    if ltb (real + min_block) n then (real, false) ∷ (n - real, true) ∷ [] else (n, false) ∷ []

-- A block that is found: where it stands, its size, and the blocks of the heap afterwards.
pub record Found : Type 0 where
  pub at : ℕ
  pub size : ℕ
  pub after : List Block

abbrev pub behind : Block → Found → Found
behind b f = record f { after = b ∷ f.after }

abbrev pub fit : ℕ → ℕ → List Block → Option Found
fit real p [] = none
fit real p ((n, free) ∷ bs) =
    if free && leb real n
    then some (record { at = p; size = n; after = place real n ++ bs })
    else Option.map (behind (n, free)) (fit real (p + n) bs)

-- Nothing outside the `n` bytes at `p` is written.
abbrev pub KeptOutside : ℕ → ℕ → Mem → Mem → Type 0
KeptOutside p n m m' = (a : ℕ) → (a < p) ⊎ (p + n ≤ a) → m' a ≡ m a

pub split_limit_lem : (real : ℕ) → real + min_block < 2 ^ 32 → split_limit real ≡ real + min_block
unfolding split_limit
split_limit_lem real small =
    rw (add32_lem real sizeof_head (omega arith))
      (rw (add32_lem (real + sizeof_head) sizeof_foot (omega arith)) (omega arith))

module _ (m : Mem) (h p n real : ℕ) (b : IsBlock m h p n true) (le : real ≤ n)
    (room : min_block ≤ real) (small : real + min_block < 2 ^ 32) (fits : p + n < 2 ^ 32) where
  -- What `take_block` leaves: the blocks of `place`, and nothing else written.
  abbrev Taken : ℕ → Mem → Type 0
  Taken r m' = (r ≡ p + sizeof_head) × Blocks m' h p (place real n) (p + n) × KeptOutside p n m m'

  split_Taken :
      (real + min_block < n)
      → Taken (p + sizeof_head) (init_mem p real false h (init_mem (p + real) (n - real) true h m))
  split_Taken more = rw (lt→ltb _ _ more) (
    refl,
    (
      init_mem-IsBlock m1 h p real false room,
      (
        IsBlock-frame (init_mem-IsBlock m h (p + real) (n - real) true (omega arith))
            (λ a l r. init_mem_above m1 h p real false room a l),
        omega arith,
      ),
    ),
    kept,
  )
    where
      m1 : Mem
      m1 = init_mem (p + real) (n - real) true h m

      kept : KeptOutside p n m (init_mem p real false h m1)
      kept a (inl o) =
          init_mem_below m1 h p real false room a o
          ∙ init_mem_below m h (p + real) (n - real) true (omega arith) a (omega arith)
      kept a (inr o) =
          init_mem_above m1 h p real false room a (omega arith)
          ∙ init_mem_above m h (p + real) (n - real) true (omega arith) a (omega arith)

  whole_Taken :
      ltb (real + min_block) n ≡ false
      → Taken (p + sizeof_head) (λ a. if a == head_free p then 0 else m a)
  whole_Taken less = rw less (
    refl,
    (
      record {
        size_at = ground (arith, b.size_at);
        free_at = ground (arith, b.free_at);
        heap_at = ground (arith, b.heap_at);
        magic_at = ground (arith, b.magic_at);
        foot_magic_at = ground (arith, b.foot_magic_at, b.room);
        foot_size_at = ground (arith, b.foot_size_at, b.room);
        room = b.room;
      },
      refl,
    ),
    λ a o. ground (arith, b.room),
  )

  take_block_lem : Returns Taken (take_block h p real m)
  unfolding take_block write
  take_block_lem = rw (b.size_at) (
      rw (split_limit_lem real small) (
        rw (add32_lem p sizeof_head (omega (arith, b.room)))
          (elim (Bool-cases (ltb (real + min_block) n)) [
            | inl more ↦
                let lt = ltb→lt _ _ more in
                rw more (
                  rw (b.size_at) (
                    rw (add32_lem p real (omega arith)) (
                      rw (sub32_lem n real le (omega arith)) (
                        rw
                          (block_init_lem m h (p + real) (n - real) true (omega arith)
                            (omega arith))
                          (rw
                            (block_init_lem (init_mem (p + real) (n - real) true h m) h p real false
                              room (omega arith))
                            (split_Taken lt))))))
            | inr less ↦ rw less (whole_Taken less)
          ])))

-- Joined runs of blocks.
pub Blocks-append :
    (m : Mem) (h p : ℕ) (bs cs : List Block) (q e : ℕ)
    → Blocks m h p bs q
    → Blocks m h q cs e
    → Blocks m h p (bs ++ cs) e
Blocks-append m h p [] cs q e b c = rw b c
Blocks-append m h p ((n, free) ∷ bs) cs q e b c = (b.0, Blocks-append m h (p + n) bs cs q e b.1 c)

-- What the walk from `p` to the end `e` of the heap returns and leaves, given what `fit` finds.
abbrev pub Walked : Mem → ℕ → ℕ → ℕ → Option Found → ℕ → Mem → Type 0
Walked m h p e none r m' = (r ≡ null) × (m' ≡ m)
Walked m h p e (some f) r m' =
    (r ≡ f.at + sizeof_head)
    × Blocks m' h p f.after e
    × KeptOutside f.at f.size m m'
    × (p ≤ f.at)
    × (f.at + f.size ≤ e)

-- The bounds of the heap `h` that are used on the way from `p`.
pub record Bounds (m : Mem) (h p e : ℕ) : Type 0 where
  pub start_le : m (heap_start h) ≤ p
  pub end_at : m (heap_end h) ≡ e
  pub end_lt : e < 2 ^ 32
  pub before : h + 20 ≤ p

walk_done :
    (fuel h real r pos : ℕ) (m : Mem) → 0 < fuel → r ≢ null → walk fuel h real r pos m ≡ some (r, m)
unfolding walk
walk_done zero h real r pos m f nz = absurd (omega arith)
walk_done (suc fuel) h real r pos m f nz = rw (==_false r null nz, walk)

Walked-behind :
    (m m' : Mem) (h p e n : ℕ) (free : Bool) (o : Option Found) (r : ℕ)
    → IsBlock m h p n free
    → Walked m h (p + n) e o r m'
    → Walked m h p e (Option.map (behind (n, free)) o) r m'
Walked-behind m m' h p e n free none r b w = w
Walked-behind m m' h p e n free (some f) r b (at, blocks, kept, low, high) =
    (at, (IsBlock-frame b (λ a l r. kept a (inl (omega arith))), blocks), kept, omega arith, high)

walk_end :
    (fuel h real pos : ℕ) (m : Mem)
    → ltb pos (m (heap_end h)) ≡ false
    → walk (suc fuel) h real null pos m ≡ some (null, m)
unfolding walk
walk_end fuel h real pos m t = rw (t, walk)

walk_step :
    (fuel h real pos : ℕ) (m : Mem)
    → ltb pos (m (heap_end h)) ≡ true
    → walk (suc fuel) h real null pos m
      ≡ and_then (try_block h pos real m) (λ r m'. walk fuel h real r (add32 pos (m' pos)) m')
unfolding walk
walk_step fuel h real pos m t = rw (t, walk)

module _ (h real e : ℕ) (room : min_block ≤ real) (small : real + min_block < 2 ^ 32) where
  module _ (m : Mem) (p n : ℕ) (free : Bool) (b : IsBlock m h p n free) (u : Bounds m h p e)
      (le : p + n ≤ e) where
    try_block_lem :
        try_block h p real m
        ≡ (if free && leb real n then take_block h p real m else some (null, m))
    unfolding try_block
    try_block_lem =
        rw
          (block_check-ok m h p n free b u.start_le (omega (arith, u.end_at, b.room))
            (omega (arith, u.end_lt)))
          (rw (b.free_at) (rw (b.size_at) (ground arith)))

  -- The round in which a block is taken: the next test of the loop ends it.
  taken :
      (fuel : ℕ) (m : Mem) (p n : ℕ) (free : Bool) (bs : List Block)
      → Blocks m h p ((n, free) ∷ bs) e
      → Bounds m h p e
      → e - p < suc fuel
      → (free && leb real n) ≡ true
      → Returns
          (Walked m h p e (some (record { at = p; size = n; after = place real n ++ bs })))
          (and_then (take_block h p real m) λ r m'. walk fuel h real r (add32 p (m' p)) m')
  taken fuel m p n free bs b u f hit =
      let is_free : free ≡ true = ground arith in
      let le = Blocks-le m h (p + n) bs e b.1 in
      Returns-bind (Taken m h p n real block enough room small (fits le)) _ (take_block h p real m)
        _ (take_block_lem m h p n real block enough room small (fits le))
        λ r m' (at, blocks, kept).
          rw (walk_done fuel h real r _ m' (omega (arith, block.room)) (omega arith)) (
            at,
            Blocks-append m' h p (place real n) bs (p + n) e blocks
                (Blocks-frame m m' h (p + n) bs e b.1 (λ a l s. kept a (inr l))),
            kept,
            omega arith,
            le,
          )
    where
      block : IsBlock m h p n true
      block = subst (IsBlock m h p n) (ground arith) b.0

      enough : real ≤ n
      enough = ground arith

      fits : p + n ≤ e → p + n < 2 ^ 32
      fits le = omega (arith, u.end_lt)

  -- The walk over the well-formed blocks of a heap ends with more fuel than the distance to the
  -- heap's end, passes every assertion, and takes the first block that fits, or returns NULL and
  -- changes nothing if none fits. The size asked for is at least that of a header and a footer, and
  -- splitting by it does not overflow.
  pub walk-fit :
      (fuel : ℕ) (m : Mem) (p : ℕ) (bs : List Block)
      → Blocks m h p bs e
      → Bounds m h p e
      → e - p < fuel
      → Returns (Walked m h p e (fit real p bs)) (walk fuel h real null p m)
  walk-fit zero m p bs b u f = absurd (omega arith)
  walk-fit (suc fuel) m p [] b u f =
      rw (walk_end fuel h real p m (rw (u.end_at) (ground arith))) (refl, refl)
  walk-fit (suc fuel) m p ((n, free) ∷ bs) b u f =
      let le = Blocks-le m h (p + n) bs e b.1 in
      rw (walk_step fuel h real p m (rw (u.end_at) (lt→ltb p e (omega (arith, b.0.room))))) (
        rw (try_block_lem m p n free b.0 u le) (elim (Bool-cases (free && leb real n)) [
          | inl hit ↦ rw hit (taken fuel m p n free bs b u f hit)
          | inr miss ↦ rw miss (
              rw (b.0.size_at) (
                rw (add32_lem p n (omega (arith, u.end_lt))) (
                  Returns-mono (Walked m h (p + n) e (fit real (p + n) bs)) _ _
                    (walk-fit fuel m (p + n) bs b.1
                      (omega (arith, u.before, u.start_le, u.end_at, u.end_lt))
                      (omega (arith, b.0.room)))
                    λ r m' w. Walked-behind m m' h p e n free (fit real (p + n) bs) r b.0 w)))
        ]))
