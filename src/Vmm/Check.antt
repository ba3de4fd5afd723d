-- ===== src/Vmm/Check.antt =====
-- kernel/mm/vmm.c: what `vma_check_user` accepts.
use mathlib.Core.Bool.{true≢false}
use osy.Common.{
  ℕ, ◌+◌, ◌*◌, ◌/◌, ◌^◌, ◌<◌, ◌≤◌, true, false, ◌&&◌, Option, none, some, List, [], ◌∷◌, ◌++◌, ltb,
  leb, All, ◌≡◌, refl, sym, ◌∙◌, ap, inl, inr, arith, Bool-cases, subst, ltb_self, All-imp,
}
use osy.Common.Word.{add32, add32_lem}
use osy.Vmm.{Vma, Vmm, covers, find_slot, mapping_find, page_size, check_slots, check_user}
use osy.Vmm.Find.{UsedFits, Disjoint, All-split, Holds-covers}

-- A value is there.
abbrev pub IsSome {ℓ} : {A : Type ℓ} → Option A → Type 0
IsSome none = ⊥
IsSome (some a) = Unit

-- Each page between two that one area holds is found.
check_slots-find :
    (first last p : ℕ) (vs : List Vma)
    → check_slots first last vs ≡ true
    → first ≤ p
    → p ≤ last
    → IsSome (find_slot p vs)
unfolding find_slot check_slots
check_slots-find first last p [] h lo hi = absurd (true≢false (sym h))
check_slots-find first last p (v ∷ vs) h lo hi = elim (Bool-cases (covers p v)) [
  | inl e ↦ rw e tt
  | inr e ↦
      let miss : (covers first v && (leb v.vpn_base last && ltb last (add32 v.vpn_base v.count)))
          ≡ false =
        elim (Bool-cases
          (covers first v && (leb v.vpn_base last && ltb last (add32 v.vpn_base v.count)))) [
            | inl k ↦ absurd (true≢false (sym (ground (arith, k)) ∙ e))
            | inr k ↦ k
          ] in
      rw e (check_slots-find first last p vs (sym (rw miss refl) ∙ h) lo hi)
]

-- If `vma_check_user` accepts a range whose end does not wrap around, every address from the first
-- to the one behind the last has a translation.
pub check_user-mapped :
    (vmm : Vmm) (addr size virt : ℕ)
    → check_user vmm addr size ≡ true
    → addr + size < 2 ^ 32
    → addr ≤ virt
    → virt ≤ addr + size
    → IsSome (mapping_find vmm virt)
unfolding check_user mapping_find
check_user-mapped vmm addr size virt h fit lo hi =
    let sum = add32_lem addr size fit in
    let last : add32 addr size / page_size ≡ (addr + size) / page_size =
      ap (λ n. n / page_size) sum in
    let found =
      check_slots-find (addr / page_size) (add32 addr size / page_size) (virt / page_size) vmm.vma h
        (omega arith) (rw last omega arith) in
    go (find_slot (virt / page_size) vmm.vma) refl found
  where
    go :
        (o : Option Vma)
        → find_slot (virt / page_size) vmm.vma ≡ o
        → IsSome (find_slot (virt / page_size) vmm.vma)
        → IsSome (mapping_find vmm virt)
    go none e k = absurd (subst IsSome e k)
    go (some v) e k = rw (mapping_find, e) tt

check_slots-none :
    (first last : ℕ) (vs : List Vma)
    → All (λ v. covers first v ≡ false) vs
    → check_slots first last vs ≡ false
unfolding check_slots
check_slots-none first last [] h = refl
check_slots-none first last (v ∷ vs) h = let e = h.0 in rw e (check_slots-none first last vs h.1)

-- No slot holds both the first page of an area and the page behind its last one.
check_slots-whole :
    (before : List Vma) (v : Vma) (after : List Vma)
    → Disjoint (before ++ v ∷ after)
    → All UsedFits (before ++ v ∷ after)
    → v.valid ≡ true
    → check_slots v.vpn_base (v.vpn_base + v.count) (before ++ v ∷ after) ≡ false
unfolding check_slots
check_slots-whole [] v after apart fit valid =
    let fits = fit.0 valid in
    let here = Holds-covers v.vpn_base v fits (valid, omega arith, omega (arith, fits)) in
    let rest =
      check_slots-none v.vpn_base (v.vpn_base + v.count) after
        (All-imp after (λ w h. h v.vpn_base here) apart.0) in
    let sum = add32_lem v.vpn_base v.count (omega (arith, fits)) in
    let end : ltb (v.vpn_base + v.count) (add32 v.vpn_base v.count) ≡ false =
      rw sum (ltb_self (v.vpn_base + v.count)) in
    let past : (leb v.vpn_base (v.vpn_base + v.count)
          && ltb (v.vpn_base + v.count) (add32 v.vpn_base v.count))
        ≡ false =
      rw end ground arith in
    let miss : (covers v.vpn_base v
          && (leb v.vpn_base (v.vpn_base + v.count)
              && ltb (v.vpn_base + v.count) (add32 v.vpn_base v.count)))
        ≡ false =
      rw (here, past) refl in
    rw miss rest
check_slots-whole (u ∷ before) v after apart fit valid =
    let rest = check_slots-whole before v after apart.1 fit.1 valid in
    let here =
      Holds-covers v.vpn_base v (All-split UsedFits before v after fit.1 valid)
        (valid, omega arith, omega (arith, All-split UsedFits before v after fit.1 valid)) in
    let other : covers v.vpn_base u ≡ true → covers v.vpn_base v ≡ false =
      All-split (λ w. (q : ℕ) → covers q u ≡ true → covers q w ≡ false) before v after apart.0
        v.vpn_base in
    let miss : covers v.vpn_base u ≡ false = elim (Bool-cases (covers v.vpn_base u)) [
      | inl e ↦ absurd (true≢false (sym here ∙ other e))
      | inr e ↦ e
    ] in
    rw miss rest

-- In a table whose valid entries fit and share no page, `vma_check_user` refuses the range of
-- exactly one valid area, all of which is mapped.
pub check_user-whole :
    (vmm : Vmm) (before : List Vma) (v : Vma) (after : List Vma)
    → vmm.vma ≡ before ++ v ∷ after
    → Disjoint (before ++ v ∷ after)
    → All UsedFits (before ++ v ∷ after)
    → v.valid ≡ true
    → check_user vmm (v.vpn_base * page_size) (v.count * page_size) ≡ false
unfolding check_user
check_user-whole vmm before v after table apart fit valid =
    let fits = All-split UsedFits before v after fit valid in
    let sum = add32_lem (v.vpn_base * page_size) (v.count * page_size) (omega (arith, fits)) in
    let first : v.vpn_base * page_size / page_size ≡ v.vpn_base = omega arith in
    let last : (v.vpn_base * page_size + v.count * page_size) / page_size ≡ v.vpn_base + v.count =
      omega arith in
    rw (table, sum, first, last) (check_slots-whole before v after apart fit valid)
