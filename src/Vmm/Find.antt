-- ===== src/Vmm/Find.antt =====
-- kernel/mm/vmm.c: the areas of a table, and what `vmm_mapping_find` finds in it.
use osy.Common.{
  ℕ, ◌+◌, ◌-◌, ◌*◌, ◌/◌, ◌%◌, ◌^◌, ◌<◌, ◌≤◌, true, false, none, some, List, [], ◌∷◌, ◌++◌, All, ◌≡◌,
  refl, sym, ◌∙◌, ap, inl, inr, arith, Bool-cases,
}
use osy.Common.Word.{add32, sub32, add32_lem, sub32_lem}
use mathlib.Core.Bool.{true≢false}
use osy.Vmm.{Vma, Vmm, covers, find_slot, mapping_find, page_size}

-- An area has pages; they lie below the last of the 2 ^ 20 pages, and its frames in those of the memory.
abbrev pub Fits : Vma → Type 0
Fits v = (v.vpn_base + v.count < 0x100000) × (v.pfn_base + v.count ≤ 0x100000) × (0 < v.count)

-- A slot that is in use fits; nothing is said of the others.
abbrev pub UsedFits : Vma → Type 0
UsedFits v = v.valid ≡ true → Fits v

-- The page belongs to the area.
abbrev pub Holds : ℕ → Vma → Type 0
Holds vpn v = (v.valid ≡ true) × (v.vpn_base ≤ vpn) × (vpn < v.vpn_base + v.count)

-- No page belongs to two areas.
abbrev pub Disjoint : List Vma → Type 0
Disjoint [] = Unit
Disjoint (v ∷ vs) = All (λ w. (p : ℕ) → covers p v ≡ true → covers p w ≡ false) vs × Disjoint vs

pub covers-Holds : (p : ℕ) (v : Vma) → Fits v → covers p v ≡ true → Holds p v
covers-Holds p v fit h =
    let sum = add32_lem v.vpn_base v.count (omega (arith, fit)) in ground (arith, h, sum)

pub Holds-covers : (p : ℕ) (v : Vma) → Fits v → Holds p v → covers p v ≡ true
Holds-covers p v fit h =
    let sum = add32_lem v.vpn_base v.count (omega (arith, fit)) in ground (arith, h, sum)

-- A physical address of the area, as the code computes it.
pub phys_lem :
    (virt : ℕ) (v : Vma)
    → Fits v
    → Holds (virt / page_size) v
    → add32
        (add32 v.pfn_base (sub32 (virt / page_size) v.vpn_base) * page_size % 2 ^ 32)
        (virt % page_size)
      ≡ v.pfn_base * page_size + (virt - v.vpn_base * page_size)
phys_lem virt v fit h =
    let k = sub32_lem (virt / page_size) v.vpn_base (omega (arith, h)) (omega (arith, fit, h)) in
    rw k
      let n = add32_lem v.pfn_base (virt / page_size - v.vpn_base) (omega (arith, fit, h)) in
        rw n
          let m =
              add32_lem ((v.pfn_base + (virt / page_size - v.vpn_base)) * page_size % 2 ^ 32)
                (virt % page_size) (omega (arith, fit, h)) in
            rw m omega (arith, fit, h)

pub All-split {ℓ κ} :
    {A : Type ℓ} (P : A → Type κ) (before : List A) (a : A) (after : List A)
    → All P (before ++ a ∷ after)
    → P a
All-split P [] a after h = h.0
All-split P (b ∷ before) a after h = All-split P before a after h.1

-- The first area that holds the page is found, whatever stands before it.
pub find_slot-at :
    (p : ℕ) (before : List Vma) (v : Vma) (after : List Vma)
    → Disjoint (before ++ v ∷ after)
    → covers p v ≡ true
    → find_slot p (before ++ v ∷ after) ≡ some v
unfolding find_slot
find_slot-at p [] v after apart h = rw h refl
find_slot-at p (u ∷ before) v after apart h =
    let other : covers p u ≡ true → covers p v ≡ false = λ e.
      All-split (λ w. (q : ℕ) → covers q u ≡ true → covers q w ≡ false) before v after apart.0 p
        e in
    elim (Bool-cases (covers p u)) [
      | inl e ↦ absurd (true≢false (sym h ∙ other e))
      | inr e ↦ rw e (find_slot-at p before v after apart.1 h)
    ]

pub find_slot-none :
    (p : ℕ) (vs : List Vma) → All (λ v. covers p v ≡ false) vs → find_slot p vs ≡ none
unfolding find_slot
find_slot-none p [] h = refl
find_slot-none p (v ∷ vs) h = let e = h.0 in rw e (find_slot-none p vs h.1)

-- In a table whose areas share no page, an address in an area that fits translates to the frame of
-- its page at the same offset.
pub mapping_find-mapped :
    (vmm : Vmm) (before : List Vma) (v : Vma) (after : List Vma) (virt : ℕ)
    → vmm.vma ≡ before ++ v ∷ after
    → Disjoint (before ++ v ∷ after)
    → Fits v
    → Holds (virt / page_size) v
    → mapping_find vmm virt ≡ some (v.pfn_base * page_size + (virt - v.vpn_base * page_size))
unfolding mapping_find
mapping_find-mapped vmm before v after virt e apart fit h =
    let found =
      find_slot-at (virt / page_size) before v after apart
        (Holds-covers (virt / page_size) v fit h) in
    rw (e, mapping_find, found) (ap some (phys_lem virt v fit h))

-- An address whose page no slot holds has no translation.
pub mapping_find-unmapped :
    (vmm : Vmm) (virt : ℕ)
    → All (λ v. covers (virt / page_size) v ≡ false) vmm.vma
    → mapping_find vmm virt ≡ none
unfolding mapping_find
mapping_find-unmapped vmm virt h =
    let found = find_slot-none (virt / page_size) vmm.vma h in rw (mapping_find, found) refl
