-- ===== src/Vmm/Map.antt =====
-- kernel/mm/vmm.c: what `vma_map` and `vma_unmap` do to the translation of addresses.
use mathlib.Core.Bool.{true≢false}
use osy.Common.{
  ℕ, zero, suc, ◌+◌, ◌-◌, ◌*◌, ◌/◌, ◌%◌, ◌^◌, ◌<◌, true, false, ◌&&◌, none, some, List, [], ◌∷◌,
  ◌++◌, ltb, length, get_elem?, leb, ◌==◌, if◌then◌else◌, All, ◌≡◌, refl, sym, ◌∙◌, ap, inl, inr,
  arith, Bool-cases, ==_self, All-imp,
}
use osy.Common.Word.{add32, add32_lem}
use osy.Vmm.{
  Vma, Vmm, Space, FrameAllocator, eok, covers, find_slot, mapping_find, page_size, area, fill_slot,
  drop_slot, map_at, vma_map, vma_unmap, flush_pages,
}
use osy.Vmm.Find.{
  Fits, UsedFits, Disjoint, covers-Holds, Holds-covers, phys_lem, find_slot-none, All-split,
}

-- The first invalid slot is filled.
fill_slot-at :
    (w : Vma) (before : List Vma) (v : Vma) (after : List Vma)
    → All (λ u. u.valid ≡ true) before
    → v.valid ≡ false
    → fill_slot w (before ++ v ∷ after) ≡ some (before ++ w ∷ after)
unfolding fill_slot
fill_slot-at w [] v after hb hv = rw hv refl
fill_slot-at w (u ∷ before) v after hb hv =
    let e = hb.0 in let rest = fill_slot-at w before v after hb.1 hv in simp (e, rest)

-- The area that fills an invalid slot is found for its own pages, and no other page is affected.
find_slot-fill :
    (p : ℕ) (w : Vma) (before : List Vma) (v : Vma) (after : List Vma)
    → v.valid ≡ false
    → All (λ u. (q : ℕ) → covers q w ≡ true → covers q u ≡ false) before
    → find_slot p (before ++ w ∷ after)
      ≡ (if covers p w then some w else find_slot p (before ++ v ∷ after))
unfolding find_slot
find_slot-fill p w [] v after hv apart = rw hv refl
find_slot-fill p w (u ∷ before) v after hv apart =
    let rest = find_slot-fill p w before v after hv apart.1 in
    let off = apart.0 p in
    elim (Bool-cases (covers p w)) [ inl e ↦ rw (off e, rest, e) refl | inr e ↦ rw (rest, e) refl ]

-- The area starts at a page of its own, so the first area that starts there is this one.
drop_slot-at :
    (before : List Vma) (v : Vma) (after : List Vma)
    → Disjoint (before ++ v ∷ after)
    → All UsedFits (before ++ v ∷ after)
    → v.valid ≡ true
    → 0 < v.count
    → drop_slot v.vpn_base (before ++ v ∷ after)
      ≡ some (v, before ++ record v { valid = false } ∷ after)
unfolding drop_slot
drop_slot-at [] v after apart fit hv hc = let e = ==_self v.vpn_base in simp (hv, e)
drop_slot-at (u ∷ before) v after apart fit hv hc =
    let rest = drop_slot-at before v after apart.1 fit.1 hv hc in
    let here : covers v.vpn_base v ≡ true =
      Holds-covers v.vpn_base v (All-split UsedFits before v after fit.1 hv)
        (hv, omega arith, omega arith) in
    let other : covers v.vpn_base u ≡ true → covers v.vpn_base v ≡ false =
      All-split (λ w. (q : ℕ) → covers q u ≡ true → covers q w ≡ false) before v after apart.0
        v.vpn_base in
    let miss : (u.valid && (u.vpn_base == v.vpn_base)) ≡ false =
      elim (Bool-cases (u.valid && (u.vpn_base == v.vpn_base))) [
        | inl e ↦
            let used : u.valid ≡ true = ground (arith, e) in
            let fits = fit.0 used in
            absurd (
              true≢false (
                sym here
                ∙ other (
                    Holds-covers v.vpn_base u fits
                      (used, ground (arith, e), ground (arith, e, fits)))))
        | inr e ↦ e
      ] in
    simp (miss, rest)

-- An area that is made invalid is found no more, and no page outside it is affected.
find_slot-drop :
    (p : ℕ) (before : List Vma) (v : Vma) (after : List Vma)
    → Disjoint (before ++ v ∷ after)
    → find_slot p (before ++ record v { valid = false } ∷ after)
      ≡ (if covers p v then none else find_slot p (before ++ v ∷ after))
unfolding find_slot
find_slot-drop p [] v after apart = elim (Bool-cases (covers p v)) [
  | inl e ↦ let gone = find_slot-none p after (All-imp after (λ w h. h p e) apart.0) in rw e gone
  | inr e ↦ rw e refl
]
find_slot-drop p (u ∷ before) v after apart =
    let rest = find_slot-drop p before v after apart.1 in
    let other : covers p u ≡ true → covers p v ≡ false = λ e.
      All-split (λ w. (q : ℕ) → covers q u ≡ true → covers q w ≡ false) before v after apart.0 p
        e in
    elim (Bool-cases (covers p u)) [
      | inl e ↦ let off = other e in rw (e, off) refl
      | inr e ↦ rw (e, rest) refl
    ]

length-flush_pages : (vpn count : ℕ) → length (flush_pages vpn count) ≡ count
unfolding flush_pages
length-flush_pages vpn zero = refl
length-flush_pages vpn (suc count) = ap suc (length-flush_pages (add32 vpn 1) count)

-- The flush of a page
flush_pages-at :
    (vpn count i : ℕ)
    → vpn + count < 0x100000
    → i < count
    → get_elem? (flush_pages vpn count) i ≡ some (vpn * page_size + i * page_size)
unfolding flush_pages
flush_pages-at vpn zero i fit lt = absurd (omega (arith, lt))
flush_pages-at vpn (suc count) zero fit lt = ap some (omega (arith, fit))
flush_pages-at vpn (suc count) (suc i) fit lt =
    let next = add32_lem vpn 1 (omega (arith, fit)) in
    flush_pages-at (add32 vpn 1) count i (omega (arith, fit, next)) (omega (arith, lt))
    ∙ ap some (omega (arith, next))

-- The value of `flags` for an address that the user chooses, VF_VA_USER.
abbrev pub user_address : ℕ
user_address = 2

-- A page of the area, told by the address.
covers-range :
    (from phys count virt : ℕ)
    → from % page_size ≡ 0
    → Fits (area from phys count)
    → covers (virt / page_size) (area from phys count)
      ≡ (leb from virt && ltb virt (from + count * page_size))
covers-range from phys count virt aligned fit =
    let sum = add32_lem (from / page_size) count (omega (arith, fit)) in rw sum ground (arith, fit)

-- The translation once a new area has filled a slot.
mapping_find-fill :
    (vmm : Vmm) (asid virt from phys count : ℕ) (before : List Vma) (v : Vma) (after : List Vma)
    → vmm.vma ≡ before ++ v ∷ after
    → v.valid ≡ false
    → from % page_size ≡ 0
    → phys % page_size ≡ 0
    → Fits (area from phys count)
    → All (λ u. (p : ℕ) → covers p (area from phys count) ≡ true → covers p u ≡ false) before
    → mapping_find (record { asid = asid; vma = before ++ area from phys count ∷ after }) virt ≡ (
        if leb from virt && ltb virt (from + count * page_size)
        then some (phys + (virt - from))
        else mapping_find vmm virt)
unfolding mapping_find
mapping_find-fill vmm asid virt from phys count before v after table free aligned aligned_phys fit
      apart =
    let w = area from phys count in
    let slot = find_slot-fill (virt / page_size) w before v after free apart in
    let range = covers-range from phys count virt aligned fit in
    let start : phys / page_size * page_size + (virt - from / page_size * page_size)
        ≡ phys + (virt - from) =
      omega arith in
    elim (Bool-cases (covers (virt / page_size) w)) [
      | inl e ↦
          let hit = sym range ∙ e in
          rw (mapping_find, slot, e, hit)
            (ap some (phys_lem virt w fit (covers-Holds (virt / page_size) w fit e) ∙ start))
      | inr e ↦ let miss = sym range ∙ e in rw (mapping_find, slot, e, miss, table) refl
    ]

module _ (𝓕 : FrameAllocator) (s : Space 𝓕.Frames) (before : List Vma) (v : Vma)
    (after : List Vma) where
  -- With an invalid slot, frames for a new area that fits, at a page-aligned physical address, and
  -- a page-aligned user address whose pages belong to no area of an earlier slot, `vma_map`
  -- succeeds: each address of the new area translates to the frames, in order, and every other
  -- address translates as before.
  pub vma_map-maps :
      (from count phys : ℕ) (rest : 𝓕.Frames)
      → s.vmm.vma ≡ before ++ v ∷ after
      → All (λ u. u.valid ≡ true) before
      → v.valid ≡ false
      → 𝓕.frame_alloc count s.frames ≡ some (phys, rest)
      → from % page_size ≡ 0
      → phys % page_size ≡ 0
      → Fits (area from phys count)
      → All (λ u. (p : ℕ) → covers p (area from phys count) ≡ true → covers p u ≡ false) before
      → (s' : Space 𝓕.Frames) × (vma_map 𝓕 s from (count * page_size) user_address
          ≡ some (eok, from, s'))
        × (s'.frames ≡ rest)
        × ((virt : ℕ)
            → mapping_find s'.vmm virt ≡ (
                if leb from virt && ltb virt (from + count * page_size)
                then some (phys + (virt - from))
                else mapping_find s.vmm virt))
  unfolding vma_map map_at mapping_find
  vma_map-maps from count phys rest table full free frames aligned aligned_phys fit apart =
      let pages : count * page_size / page_size ≡ count = omega arith in
      let whole : count * page_size % page_size ≡ 0 = omega arith in
      let probe = fill_slot-at (area from 0 count) before v after full free in
      let fill = fill_slot-at (area from phys count) before v after full free in
      (
        record s {
          vmm = record { asid = s.vmm.asid; vma = before ++ area from phys count ∷ after };
          frames = rest;
        },
        rw (whole, pages, aligned, table, probe, pages, frames, pages, table, fill) refl,
        refl,
        λ virt.
            mapping_find-fill s.vmm s.vmm.asid virt from phys count before v after table free
              aligned aligned_phys fit apart,
      )

module _ (𝓕 : FrameAllocator) (s : Space 𝓕.Frames) (before : List Vma) (v : Vma)
    (after : List Vma) where
  -- In a table whose valid entries fit and share no page, given the start of a valid area whose
  -- frames the frame allocator takes back, `vma_unmap` succeeds: addresses of the area have no
  -- translation afterwards, every other address translates as before, and each page of the area is
  -- flushed from the TLB, once and in order, and nothing else.
  pub vma_unmap-unmaps :
      (rest : 𝓕.Frames)
      → s.vmm.vma ≡ before ++ v ∷ after
      → Disjoint (before ++ v ∷ after)
      → All UsedFits (before ++ v ∷ after)
      → v.valid ≡ true
      → 𝓕.frame_free (v.pfn_base * page_size % 2 ^ 32) v.count s.frames ≡ some rest
      → (s' : Space 𝓕.Frames) × (vma_unmap 𝓕 s (v.vpn_base * page_size) ≡ (eok, s'))
        × (s'.frames ≡ rest)
        × (fs : List ℕ) × (s'.flushed ≡ s.flushed ++ fs)
        × (length fs ≡ v.count)
        × ((i : ℕ) → i < v.count → get_elem? fs i ≡ some (v.vpn_base * page_size + i * page_size))
        × ((virt : ℕ)
            → mapping_find s'.vmm virt
              ≡ (if covers (virt / page_size) v then none else mapping_find s.vmm virt))
  unfolding vma_unmap mapping_find
  vma_unmap-unmaps rest table apart fit valid freed =
      let fits = All-split UsedFits before v after fit valid in
      let page : v.vpn_base * page_size / page_size ≡ v.vpn_base = omega arith in
      let whole : v.vpn_base * page_size % page_size ≡ 0 = omega arith in
      let drop = drop_slot-at before v after apart fit valid fits.2 in
      let gone : (virt : ℕ)
          → mapping_find
              (record { asid = s.vmm.asid; vma = before ++ record v { valid = false } ∷ after })
              virt
            ≡ (if covers (virt / page_size) v then none else mapping_find s.vmm virt) =
        λ virt.
          let slot = find_slot-drop (virt / page_size) before v after apart in
          elim (Bool-cases (covers (virt / page_size) v))
            as (λ _.
              mapping_find
                (record { asid = s.vmm.asid; vma = before ++ record v { valid = false } ∷ after })
                virt
              ≡ (if covers (virt / page_size) v then none else mapping_find s.vmm virt)) [
                | inl e ↦ simp (slot, e, mapping_find)
                | inr e ↦ simp (slot, e, table, mapping_find)
              ] in
      (
        record {
          vmm = record { asid = s.vmm.asid; vma = before ++ record v { valid = false } ∷ after };
          frames = rest;
          flushed = s.flushed ++ flush_pages v.vpn_base v.count;
        },
        simp (whole, page, table, drop, freed),
        refl,
        flush_pages v.vpn_base v.count,
        refl,
        length-flush_pages v.vpn_base v.count,
        (λ i lt. flush_pages-at v.vpn_base v.count i (omega (arith, fits)) lt),
        gone,
      )
