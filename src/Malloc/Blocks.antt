-- ===== src/Malloc/Blocks.antt =====
-- Well-formed blocks, and what `block_check` and `block_init` do with them.
pub use osy.Common.Word.{add32_lem, sub32_lem}
use osy.Common.{
  ℕ, ◌+◌, ◌-◌, ◌^◌, ◌≤◌, ◌<◌, ◌≡◌, Bool, some, List, [], ◌∷◌, ◌==◌, if◌then◌else◌, arith, lt→ltb,
  le→leb, ==_self,
}
use osy.Malloc.Memory.{
  Mem, add32, sub32, sizeof_head, sizeof_foot, head_magic, foot_magic, head_free, head_heap,
  head_magic_at, foot_size, heap_start, heap_end, of_bool, block_check, block_init,
}

abbrev pub min_block : ℕ
min_block = sizeof_head + sizeof_foot

-- The footer of a block of `n` bytes at `p`.
pub foot_lem :
    (p n : ℕ) → min_block ≤ n → p + n < 2 ^ 32 → sub32 (add32 p n) sizeof_foot ≡ p + n - sizeof_foot
foot_lem p n room fits = rw (add32_lem p n fits) (sub32_lem (p + n) sizeof_foot (omega arith) fits)

-- At `p` stands a block of `n` bytes of the heap `h`, with its header and its footer intact.
pub record IsBlock (m : Mem) (h p n : ℕ) (free : Bool) : Type 0 where
  pub size_at : m p ≡ n
  pub free_at : m (head_free p) ≡ of_bool free
  pub heap_at : m (head_heap p) ≡ h
  pub magic_at : m (head_magic_at p) ≡ head_magic
  pub foot_magic_at : m (p + n - sizeof_foot) ≡ foot_magic
  pub foot_size_at : m (foot_size (p + n - sizeof_foot)) ≡ n
  pub room : min_block ≤ n

-- What a block is to the outside: its size and whether it is free.
abbrev pub Block : Type 0
Block = ℕ × Bool

-- From `p` to `e` the memory is tiled by the blocks, with no gap and no overlap.
abbrev pub Blocks : Mem → ℕ → ℕ → List Block → ℕ → Type 0
Blocks m h p [] e = p ≡ e
Blocks m h p ((n, free) ∷ bs) e = IsBlock m h p n free × Blocks m h (p + n) bs e

pub Blocks-le : (m : Mem) (h p : ℕ) (bs : List Block) (e : ℕ) → Blocks m h p bs e → p ≤ e
Blocks-le m h p [] e b = omega arith
Blocks-le m h p ((n, free) ∷ bs) e b = omega (arith, Blocks-le m h (p + n) bs e b.1)

pub IsBlock-frame :
    {m m' : Mem} {h p n : ℕ} {free : Bool}
    → IsBlock m h p n free
    → ((a : ℕ) → p ≤ a → a < p + n → m' a ≡ m a)
    → IsBlock m' h p n free
IsBlock-frame {p} {n} b same = record {
  size_at = ground (arith, b.size_at, b.room, same p);
  free_at = ground (arith, b.free_at, b.room, same (p + 4));
  heap_at = ground (arith, b.heap_at, b.room, same (p + 8));
  magic_at = ground (arith, b.magic_at, b.room, same (p + 12));
  foot_magic_at = ground (arith, b.foot_magic_at, b.room, same (p + n - 8));
  foot_size_at = ground (arith, b.foot_size_at, b.room, same (p + n - 8 + 4));
  room = b.room;
}

-- Blocks stand as they are when nothing between their ends is written.
pub Blocks-frame :
    (m m' : Mem) (h p : ℕ) (bs : List Block) (e : ℕ)
    → Blocks m h p bs e
    → ((a : ℕ) → p ≤ a → a < e → m' a ≡ m a)
    → Blocks m' h p bs e
Blocks-frame m m' h p [] e b same = b
Blocks-frame m m' h p ((n, free) ∷ bs) e b same = (
  IsBlock-frame b.0 (λ a l r. same a l (omega (arith, Blocks-le m h (p + n) bs e b.1))),
  Blocks-frame m m' h (p + n) bs e b.1 (λ a l r. same a (omega arith) r),
)

-- An intact block inside its heap passes every assertion.
pub block_check-ok :
    (m : Mem) (h p n : ℕ) (free : Bool)
    → IsBlock m h p n free
    → m (heap_start h) ≤ p
    → p < m (heap_end h)
    → p + n < 2 ^ 32
    → block_check p m ≡ some (tt, m)
unfolding block_check
block_check-ok m h p n free b low high fits = rw (b.heap_at) (
    rw (le→leb _ _ low) (
      rw (b.heap_at, lt→ltb _ _ high)
        (rw (b.magic_at) (
          rw (b.size_at) (
            rw (foot_lem p n b.room fits)
              (rw (b.foot_magic_at) (rw (b.foot_size_at) (rw (==_self n)))))))))

-- The memory that `block_init` leaves.
pub init_mem : ℕ → ℕ → Bool → ℕ → Mem → Mem
init_mem p n free h m a =
    if a == foot_size (p + n - sizeof_foot)
    then n
    else if a == p + n - sizeof_foot
    then foot_magic
    else if a == head_magic_at p
    then head_magic
    else if a == head_heap p
    then h
    else if a == head_free p
    then of_bool free
    else if a == p
    then n
    else m a

module _ (m : Mem) (h p n : ℕ) (free : Bool) (room : min_block ≤ n) where
  pub block_init_lem : p + n < 2 ^ 32 → block_init p n free h m ≡ some (tt, init_mem p n free h m)
  unfolding block_init init_mem
  block_init_lem fits = rw (foot_lem p n room fits)

  pub init_mem-IsBlock : IsBlock (init_mem p n free h m) h p n free
  unfolding init_mem
  init_mem-IsBlock = record {
    size_at = ground arith;
    free_at = ground arith;
    heap_at = ground arith;
    magic_at = ground arith;
    foot_magic_at = ground arith;
    foot_size_at = ground arith;
    room = room;
  }

  -- Outside the block nothing is written, and inside it no byte of the payload.
  pub init_mem_below : (a : ℕ) → a < p → init_mem p n free h m a ≡ m a
  unfolding init_mem
  init_mem_below a o = ground arith

  pub init_mem_above : (a : ℕ) → p + n ≤ a → init_mem p n free h m a ≡ m a
  unfolding init_mem
  init_mem_above a o = ground arith

  pub init_mem_payload :
      (a : ℕ) → p + sizeof_head ≤ a → a < p + n - sizeof_foot → init_mem p n free h m a ≡ m a
  unfolding init_mem
  init_mem_payload a l r = ground arith
