-- ===== src/Vmm/Tests.antt =====
-- Runs of kernel/mm/vmm.c on a table with an area of two pages at page 4 and one of one page at page 8.
use osy.Common.{
  ℕ, ◌+◌, ◌<◌, All, length, get_elem?, ◌-◌, ◌*◌, ◌/◌, ◌≡◌, refl, true, false, ◌&&◌, none, some,
  List, [], ◌∷◌, ◌++◌, ltb, leb, if◌then◌else◌, arith,
}
use osy.Common.Word.{add32}
use osy.Vmm.{
  Vma, Vmm, Space, FrameAllocator, eok, covers, mapping_find, page_size, area, vma_map, vma_unmap,
  check_user, check_slots,
}
use osy.Vmm.Find.{Fits, UsedFits, Disjoint}
use osy.Vmm.Map.{user_address, vma_map-maps, vma_unmap-unmaps}
use osy.Vmm.Check.{IsSome, check_user-mapped, check_user-whole}

abbrev low : Vma
low = record { vpn_base = 4; pfn_base = 32; count = 2; valid = true }

abbrev high : Vma
high = record { vpn_base = 8; pfn_base = 48; count = 1; valid = true }

abbrev empty : Vma
empty = record { vpn_base = 0; pfn_base = 0; count = 0; valid = false }

abbrev areas : List Vma
areas = low ∷ high ∷ empty ∷ []

abbrev space : Vmm
space = record { asid = 1; vma = areas }

low-high : (p : ℕ) → covers p low ≡ true → covers p high ≡ false
unfolding add32
low-high p h = ground arith

areas-Disjoint : Disjoint areas
areas-Disjoint = ((low-high, ((λ p h. refl), tt)), (((λ p h. refl), tt), (tt, tt)))

low-Fits : Fits low
low-Fits = (omega arith, omega arith, omega arith)

high-Fits : Fits high
high-Fits = (omega arith, omega arith, omega arith)

abbrev frames : FrameAllocator
frames = record {
  Frames = ℕ;
  frame_alloc = λ count next. some (next * page_size, next + count);
  frame_free = λ phys count next. some next;
}

abbrev state : Space ℕ
state = record { vmm = space; frames = 64; flushed = [] }

abbrev new : Vma
new = area 40960 262144 3

low-new : (p : ℕ) → covers p new ≡ true → covers p low ≡ false
unfolding add32
low-new p h = ground arith

high-new : (p : ℕ) → covers p new ≡ true → covers p high ≡ false
unfolding add32
high-new p h = ground arith

vma_map-maps_example :
    (s' : Space ℕ) × (vma_map frames state 40960 (3 * page_size) user_address
      ≡ some (eok, 40960, s'))
    × (s'.frames ≡ 67)
    × ((virt : ℕ)
        → mapping_find s'.vmm virt ≡ (
            if leb 40960 virt && ltb virt (40960 + 3 * page_size)
            then some (262144 + (virt - 40960))
            else mapping_find state.vmm virt))
vma_map-maps_example =
    vma_map-maps frames state (low ∷ high ∷ []) empty [] 40960 3 262144 67 refl (refl, (refl, tt))
      refl refl refl refl (omega arith, omega arith, omega arith) (low-new, (high-new, tt))

areas-UsedFits : All UsedFits areas
areas-UsedFits = ((λ e. low-Fits), ((λ e. high-Fits), ((λ e. cc), tt)))

vma_unmap-unmaps_example :
    (s' : Space ℕ) × (vma_unmap frames state (4 * page_size) ≡ (eok, s'))
    × (s'.frames ≡ 64)
    × (fs : List ℕ) × (s'.flushed ≡ [] ++ fs)
    × (length fs ≡ 2)
    × ((i : ℕ) → i < 2 → get_elem? fs i ≡ some (4 * page_size + i * page_size))
    × ((virt : ℕ)
        → mapping_find s'.vmm virt
          ≡ (if covers (virt / page_size) low then none else mapping_find space virt))
vma_unmap-unmaps_example =
    vma_unmap-unmaps frames state [] low (high ∷ empty ∷ []) 64 refl areas-Disjoint areas-UsedFits
      refl refl

check_user-mapped_example : IsSome (mapping_find space 20000)
unfolding check_user check_slots add32
check_user-mapped_example =
    check_user-mapped space 17000 4096 20000 refl (omega arith) (omega arith) (omega arith)

check_user-whole_example : check_user space (4 * page_size) (2 * page_size) ≡ false
check_user-whole_example =
    check_user-whole space [] low (high ∷ empty ∷ []) refl areas-Disjoint areas-UsedFits refl

-- A range that wraps around the end of the address space passes, though its page 6 is not mapped.
wrapped : check_user space 20480 4294967295 ≡ true
unfolding check_user check_slots add32
wrapped = refl
