-- ===== src/Vmm.antt =====
-- kernel/mm/vmm.c: the areas of an address space, in a table of slots. The frame allocator is a
-- parameter; each call runs with interrupts disabled, so it is one step. The pages that
-- `vma_unmap` flushes from the TLB are recorded in order.
pub mod Find
pub mod Map
pub mod Check
mod Tests
use Prim.Native.Nat.{bit_and}
use osy.Common.{
  ℕ, zero, suc, ◌+◌, ◌-◌, ◌*◌, ◌/◌, ◌%◌, ◌^◌, Bool, true, false, not, ◌&&◌, ◌||◌, Option, none,
  some, List, [], ◌∷◌, ◌++◌, ltb, leb, ◌==◌, if◌then◌else◌, replicate,
}
use osy.Common.Word.{add32, sub32}

-- `struct vma`
pub record Vma : Type 0 where
  pub vpn_base : ℕ
  pub pfn_base : ℕ
  pub count : ℕ
  pub valid : Bool

abbrev pub vmas : ℕ
vmas = 100

abbrev pub page_size : ℕ
page_size = 4096

-- `struct vmm`; the table has `vmas` slots.
pub record Vmm : Type 0 where
  pub asid : ℕ
  pub vma : List Vma

-- EOK, ENOMEM, EINVAL, or what the frame allocator returned.
pub data Code : Type 0 where
  eok enomem einval frame_error : Code

-- The slot holds the page.
abbrev pub covers : ℕ → Vma → Bool
covers vpn v = v.valid && (leb v.vpn_base vpn && ltb vpn (add32 v.vpn_base v.count))

-- The first slot that holds the page.
unfoldable pub find_slot : ℕ → List Vma → Option Vma
find_slot vpn [] = none
find_slot vpn (v ∷ vs) = if covers vpn v then some v else find_slot vpn vs

-- `vmm_mapping_find`: the physical address, or EINVAL as `none`.
unfoldable pub mapping_find : Vmm → ℕ → Option ℕ
unfolding find_slot
mapping_find vmm virt =
    let vpn = virt / page_size in
    elim (find_slot vpn vmm.vma) [
      | none ↦ none
      | some v ↦
          some (
            add32 (add32 v.pfn_base (sub32 vpn v.vpn_base) * page_size % 2 ^ 32) (virt % page_size))
    ]

-- The loop of `vma_check_user`: a slot holds the first page and the last.
unfoldable pub check_slots : (first last : ℕ) → List Vma → Bool
check_slots first last [] = false
check_slots first last (v ∷ vs) =
    if covers first v && (leb v.vpn_base last && ltb last (add32 v.vpn_base v.count))
    then true
    else check_slots first last vs

unfoldable pub check_user : Vmm → (addr size : ℕ) → Bool
unfolding check_slots
check_user vmm addr size = check_slots (addr / page_size) (add32 addr size / page_size) vmm.vma

-- What the code uses of mm/falloc: a physical address for `count` frames, or a failure; a failure
-- of `frame_free` is `none`.
pub record FrameAllocator : Type 1 where
  pub Frames : Type 0
  pub frame_alloc : ℕ → Frames → Option (ℕ × Frames)
  pub frame_free : ℕ → ℕ → Frames → Option Frames

pub record Space (F : Type 0) : Type 0 where
  pub vmm : Vmm
  pub frames : F
  pub flushed : List ℕ

-- `VF_VA_AUTO`, `VF_VA_USER`, `VF_AT_KSEG0` and `VF_AT_KSEG1`
abbrev pub has_flag : ℕ → ℕ → Bool
has_flag flags flag = bit_and flags flag == flag

-- The page behind the last area of the lower part of the address space; 0 if there is none.
unfoldable pub auto_vpn : List Vma → ℕ → ℕ
auto_vpn [] vpn = vpn
auto_vpn (v ∷ vs) vpn =
    let end = add32 v.vpn_base v.count in
    auto_vpn vs (if v.valid && (ltb v.vpn_base 0x40000 && ltb vpn end) then end else vpn)

-- The first invalid slot gets the area; `none` if all are taken.
unfoldable pub fill_slot : Vma → List Vma → Option (List Vma)
fill_slot w [] = none
fill_slot w (v ∷ vs) =
    if v.valid
    then elim (fill_slot w vs) [ none ↦ none | some ws ↦ some (v ∷ ws) ]
    else some (w ∷ vs)

-- The first area that starts at the page, and the slots with it made invalid.
unfoldable pub drop_slot : ℕ → List Vma → Option (Vma × List Vma)
drop_slot vpn [] = none
drop_slot vpn (v ∷ vs) =
    if v.valid && (v.vpn_base == vpn)
    then some (v, record v { valid = false } ∷ vs)
    else elim (drop_slot vpn vs) [ none ↦ none | some (w, ws) ↦ some (w, v ∷ ws) ]

-- The addresses that are flushed: `count` pages from `vpn` on.
unfoldable pub flush_pages : ℕ → ℕ → List ℕ
flush_pages vpn zero = []
flush_pages vpn (suc n) = (vpn * page_size % 2 ^ 32) ∷ flush_pages (add32 vpn 1) n

abbrev pub area : (from phys count : ℕ) → Vma
area from phys count = record {
  vpn_base = from / page_size;
  pfn_base = phys / page_size;
  count = count;
  valid = true;
}

module _ (𝓕 : FrameAllocator) where
  open 𝓕 use {Frames, frame_alloc, frame_free}

  -- The second half of `vma_map`: the address is known. The frames are taken only once an invalid
  -- slot is found.
  unfoldable pub map_at : Space Frames → (from count : ℕ) → Code × Space Frames
  map_at s from count =
      if from % page_size == 0
      then elim (fill_slot (area from 0 count) s.vmm.vma) [
        | none ↦ (enomem, s)
        | some _ ↦ elim (frame_alloc count s.frames) [
          | none ↦ (frame_error, s)
          | some (phys, rest) ↦ elim (fill_slot (area from phys count) s.vmm.vma) [
            | none ↦ (enomem, s)
            | some slots ↦
                (eok, record s { vmm = record { asid = s.vmm.asid; vma = slots }; frames = rest })
          ]
        ]
      ]
      else (einval, s)

  -- `vma_map`: the code, the value of `*from` afterwards and the state; `none` is a panic.
  unfoldable pub vma_map : Space Frames → (from size flags : ℕ) → Option (Code × ℕ × Space Frames)
  unfolding map_at
  vma_map s from size flags =
      let auto = has_flag flags 1 in
      let user = has_flag flags 2 in
      let kseg = has_flag flags 8 || has_flag flags 16 in
      let vpn = auto_vpn s.vmm.vma 0 in
      let count = size / page_size in
      let at = vpn * page_size % 2 ^ 32 in
      let (code, s') = map_at s from count in
      let (code_auto, s_auto) = map_at s at count in
      if (auto && user) || (not auto && not user)
      then none
      else if not (size % page_size == 0)
      then some (einval, from, s)
      else if kseg
      then none
      else if not auto
      then some (code, from, s')
      else if vpn == 0
      then some (enomem, from, s)
      else some (code_auto, at, s_auto)

  unfoldable pub vma_unmap : Space Frames → ℕ → Code × Space Frames
  unfolding drop_slot flush_pages
  vma_unmap s from =
      let vpn = from / page_size in
      if not (from % page_size == 0) then (einval, s) else elim (drop_slot vpn s.vmm.vma) [
        | none ↦ (einval, s)
        | some (v, slots) ↦ elim (frame_free (v.pfn_base * page_size % 2 ^ 32) v.count s.frames) [
          | none ↦ (frame_error, s)
          | some rest ↦ (
            eok,
            record {
              vmm = record { asid = s.vmm.asid; vma = slots };
              frames = rest;
              flushed = s.flushed ++ flush_pages vpn v.count;
            },
          )
        ]
      ]

-- `vmm_create`: the identifiers are counted in a byte.
unfoldable pub vmm_create : ℕ → Vmm × ℕ
vmm_create last_asid = (
  record {
    asid = last_asid;
    vma = replicate vmas (record { vpn_base = 0; pfn_base = 0; count = 0; valid = false });
  },
  (last_asid + 1) % 256,
)
