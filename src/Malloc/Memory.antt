-- ===== src/Malloc/Memory.antt =====
-- Memory, blocks and their headers and footers in kernel/mm/malloc.c. Memory maps the address of
-- a field to its value; sizes and addresses are 32 bits wide.
unfoldable pub use osy.Common.Word.{add32, sub32}
use osy.Common.{
  ℕ, ◌+◌, ◌-◌, ◌%◌, Bool, not, ltb, leb, ◌==◌, if◌then◌else◌, Cmd, ◌>>=◌, ◌>>◌, assert, some,
}

abbrev pub Mem : Type 0
Mem = ℕ → ℕ

abbrev pub null : ℕ
null = 0

-- `ALIGN_UP (size, align)` at a power of two: the low bits of `size + (align - 1)` are cleared.
unfoldable pub align_up : ℕ → ℕ → ℕ
align_up size align = let s = add32 size (align - 1) in s - s % align

-- sizes of the structures on the 32-bit machine, and the constants of the file
abbrev pub sizeof_head : ℕ
sizeof_head = 16

abbrev pub sizeof_foot : ℕ
sizeof_foot = 8

abbrev pub sizeof_heap : ℕ
sizeof_heap = 20

abbrev pub head_magic : ℕ
head_magic = 0xBEEF0001

abbrev pub foot_magic : ℕ
foot_magic = 0xBEEF0002

abbrev pub block_size_max : ℕ
block_size_max = 0x10000000

abbrev pub alignment : ℕ
alignment = 4

abbrev pub heap_frames : ℕ
heap_frames = 16

abbrev pub frame_size : ℕ
frame_size = 4096

-- addresses of the fields of `heap_block_head_t` (whose `size` comes first)
abbrev pub head_free : ℕ → ℕ
head_free a = a + 4

abbrev pub head_heap : ℕ → ℕ
head_heap a = a + 8

abbrev pub head_magic_at : ℕ → ℕ
head_magic_at a = a + 12

-- addresses of the fields of `heap_block_foot_t` (whose `magic` comes first)
abbrev pub foot_size : ℕ → ℕ
foot_size a = a + 4

-- addresses of the fields of `heap_t` behind its `link`
abbrev pub heap_start : ℕ → ℕ
heap_start h = h + 8

abbrev pub heap_end : ℕ → ℕ
heap_end h = h + 12

abbrev pub heap_frame_count : ℕ → ℕ
heap_frame_count h = h + 16

unfoldable pub read : ℕ → Cmd Mem ℕ
read a m = some (m a, m)

unfoldable pub write : ℕ → ℕ → Cmd Mem (Unit {0})
write a v m = some (tt, λ b. if b == a then v else m b)

abbrev pub of_bool : Bool → ℕ
of_bool b = if b then 1 else 0

-- the test of a C value
abbrev pub truth : ℕ → Bool
truth n = not (n == 0)

-- Every assertion of `block_check`; a failed one is a panic.
unfoldable pub block_check : ℕ → Cmd Mem (Unit {0})
unfolding read
block_check addr = do
  heap ← read (head_heap addr)
  start ← read (heap_start heap)
  assert (leb start addr)
  heap' ← read (head_heap addr)
  end ← read (heap_end heap')
  assert (ltb addr end)
  magic ← read (head_magic_at addr)
  assert (magic == head_magic)
  size ← read addr
  let foot = sub32 (add32 addr size) sizeof_foot
  magic' ← read foot
  assert (magic' == foot_magic)
  size' ← read (foot_size foot)
  assert (size == size')

unfoldable pub block_init : ℕ → ℕ → Bool → ℕ → Cmd Mem (Unit {0})
unfolding write
block_init addr size free heap = do
  let foot = sub32 (add32 addr size) sizeof_foot
  write addr size
  write (head_free addr) (of_bool free)
  write (head_heap addr) heap
  write (head_magic_at addr) head_magic
  write foot foot_magic
  write (foot_size foot) size

-- `ALIGN_UP (size, ALIGNMENT)` with room for the header and the footer.
unfoldable pub real_size : ℕ → ℕ
real_size size = add32 (add32 (align_up size alignment) sizeof_head) sizeof_foot

-- A block larger than this is split.
unfoldable pub split_limit : ℕ → ℕ
split_limit real = add32 (add32 real sizeof_head) sizeof_foot
