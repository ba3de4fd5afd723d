-- ===== src/Tlb/Refill.antt =====
-- kernel/mm/tlb.c: what the buffer holds after each call.
use osy.Common.{
  ℕ, zero, suc, ◌+◌, ◌*◌, ◌%◌, ◌^◌, ◌≤◌, ◌<◌, ◌/◌, true, false, some, ◌==◌, if◌then◌else◌, ◌≡◌, ◌≢◌,
  refl, sym, ap, ◌∙◌, arith, Bool-cases, inl, inr, subst, eq-of_==,
}
use Prim.Native.Nat.{bit_or}
use osy.Common.Bits.{bit_and-one, bit_or-four, bit_or-two, bit_and-13, bit_or-13}
use osy.Vmm.{Vmm, page_size, mapping_find}
use osy.Tlb.{
  Entry, Processor, Tlb, index_count, asid_mask, pagemask_4k, probe_failed, entrylo, probe_of,
  write_index, registers, tlb_write_indexed, clear_from, tlb_init, tlb_store_random, tlb_flush,
  tlb_refill,
}

-- The half of an entry for a page, lo0 for even pages, and the other one
abbrev pub half : ℕ → Entry → ℕ
half vpn e = if vpn % 2 == 0 then e.lo0 else e.lo1

abbrev pub other_half : ℕ → Entry → ℕ
other_half vpn e = if vpn % 2 == 0 then e.lo1 else e.lo0

abbrev pub cleared : (hi : ℕ) → Entry
cleared hi = record { mask = pagemask_4k; hi = hi; lo0 = 0; lo1 = 0 }

entrylo_lem : (pfn : ℕ) → pfn < 0x100000 → entrylo pfn ≡ pfn * 64 + 6
unfolding entrylo
entrylo_lem pfn h =
    let fits : pfn * 2 ^ 6 % 2 ^ 32 ≡ pfn * 8 * 8 = omega (arith, h) in
    let dirty : pfn * 8 * 8 + 4 ≡ (pfn * 16 + 1) * 4 = omega arith in
    ap (λ n. bit_or (bit_or n 4) 2) fits
    ∙ ap (λ n. bit_or n 2) (bit_or-four (pfn * 8) ∙ dirty)
    ∙ bit_or-two (pfn * 16 + 1)
    ∙ omega arith

probe_of_lem :
    (entryhi addr : ℕ) → addr < 2 ^ 32 → probe_of entryhi addr ≡ addr / 8192 * 8192 + entryhi % 8192
unfolding probe_of
probe_of_lem entryhi addr h =
    let page : addr / page_size / 2 * 2 ^ 13 % 2 ^ 32 ≡ addr / 8192 * 8192 = omega (arith, h) in
    ap (λ n. bit_or n (addr / page_size / 2 * 2 ^ 13 % 2 ^ 32)) (bit_and-13 entryhi)
    ∙ ap (bit_or (entryhi % 8192)) page
    ∙ bit_or-13 (entryhi % 8192) (addr / 8192) (omega arith)

refill_run :
    (𝓟 : Processor) (vmm : Vmm) (virt phys : ℕ) (s : Tlb 𝓟.Buffer)
    → mapping_find vmm virt ≡ some phys
    → tlb_refill 𝓟 vmm virt s ≡ some (tlb_store_random 𝓟 (virt / page_size) (phys / page_size) s)
unfolding tlb_refill
refill_run 𝓟 vmm virt phys s found = rw (tlb_refill, found) refl

module _ (𝓟 : Processor)
    (writes : (i : ℕ) (e : Entry) (b : 𝓟.Buffer) → 𝓟.entry_at i (𝓟.put_entry i e b) ≡ e)
    (keeps : (i j : ℕ) (e : Entry) (b : 𝓟.Buffer)
      → j ≢ i
      → 𝓟.entry_at j (𝓟.put_entry i e b) ≡ 𝓟.entry_at j b) where
  open 𝓟 use {Buffer, entry_at, probe, put_entry, random}

  tlb_store_random_lem :
      (vpn pfn : ℕ) (s : Tlb Buffer)
      → (half vpn (entry_at (random s.buffer) (tlb_store_random 𝓟 vpn pfn s).buffer) ≡ entrylo pfn)
        × (other_half vpn (entry_at (random s.buffer) (tlb_store_random 𝓟 vpn pfn s).buffer) ≡ 0)
        × ((entry_at (random s.buffer) (tlb_store_random 𝓟 vpn pfn s).buffer).hi ≡ s.cp0.entryhi)
        × ((j : ℕ)
            → j ≢ random s.buffer
            → entry_at j (tlb_store_random 𝓟 vpn pfn s).buffer ≡ entry_at j s.buffer)
  unfolding tlb_store_random
  tlb_store_random_lem vpn pfn s =
      let i = random s.buffer in
      let parity = bit_and-one vpn in
      elim (Bool-cases (vpn % 2 == 0)) [
        | inl e ↦
            let new : Entry = record {
              mask = pagemask_4k;
              hi = s.cp0.entryhi;
              lo0 = entrylo pfn;
              lo1 = 0;
            } in
            rw (parity, e, writes i new s.buffer)
              (refl, refl, refl, λ j n. keeps i j new s.buffer n)
        | inr e ↦
            let new : Entry = record {
              mask = pagemask_4k;
              hi = s.cp0.entryhi;
              lo0 = 0;
              lo1 = entrylo pfn;
            } in
            rw (parity, e, writes i new s.buffer)
              (refl, refl, refl, λ j n. keeps i j new s.buffer n)
      ]

  -- Where a write changes its entry and no other, and `vmm_mapping_find` finds a 32-bit physical
  -- address for the address, `wrapped_tlb_refill` fills the entry that Random selects: the first
  -- half for an even page, the second for an odd one, has the number of the frame from bit 6 on
  -- with the bits for dirty and valid, which is 64 times the frame and 6; the other half is zero,
  -- the page pair is that in EntryHi, and every other entry is kept.
  pub tlb_refill_lem :
      (vmm : Vmm) (virt phys : ℕ) (s : Tlb Buffer)
      → mapping_find vmm virt ≡ some phys
      → phys < 2 ^ 32
      → (t : Tlb Buffer) × (tlb_refill 𝓟 vmm virt s ≡ some t)
        × (half (virt / page_size) (entry_at (random s.buffer) t.buffer)
            ≡ phys / page_size * 64 + 6)
        × (other_half (virt / page_size) (entry_at (random s.buffer) t.buffer) ≡ 0)
        × ((entry_at (random s.buffer) t.buffer).hi ≡ s.cp0.entryhi)
        × ((j : ℕ) → j ≢ random s.buffer → entry_at j t.buffer ≡ entry_at j s.buffer)
  tlb_refill_lem vmm virt phys s found word =
      let k = tlb_store_random_lem (virt / page_size) (phys / page_size) s in
      (
        tlb_store_random 𝓟 (virt / page_size) (phys / page_size) s,
        refill_run 𝓟 vmm virt phys s found,
        k.0 ∙ entrylo_lem (phys / page_size) (omega (arith, word)),
        k.1,
        k.2,
        k.3,
      )

  -- Where a write changes its entry and no other, at most one entry matches the flushed page pair
  -- in the address space of EntryHi, a probe fails only if none does, and else gives the index of a
  -- match: after `tlb_flush` EntryHi is what it was, whether the probe fails or not, an entry that
  -- matches has two invalid halves, and every entry that did not match is as before.
  pub tlb_flush_lem :
      (Matches : ℕ → Entry → Type 0) (addr hi : ℕ) (s : Tlb Buffer)
      → addr < 2 ^ 32
      → hi ≡ addr / 8192 * 8192 + s.cp0.entryhi % 8192
      → (probe_failed (probe hi s.buffer) ≡ true → (j : ℕ) → ¬ (Matches hi (entry_at j s.buffer)))
      → (probe_failed (probe hi s.buffer) ≡ false
          → Matches hi (entry_at (probe hi s.buffer) s.buffer))
      → ((i j : ℕ) → Matches hi (entry_at i s.buffer) → Matches hi (entry_at j s.buffer) → i ≡ j)
      → ((tlb_flush 𝓟 addr s).cp0.entryhi ≡ s.cp0.entryhi)
        × ((j : ℕ)
            → Matches hi (entry_at j (tlb_flush 𝓟 addr s).buffer)
            → ((entry_at j (tlb_flush 𝓟 addr s).buffer).lo0 ≡ 0)
              × ((entry_at j (tlb_flush 𝓟 addr s).buffer).lo1 ≡ 0))
        × ((j : ℕ)
            → ¬ (Matches hi (entry_at j s.buffer))
            → entry_at j (tlb_flush 𝓟 addr s).buffer ≡ entry_at j s.buffer)
  unfolding tlb_flush
  tlb_flush_lem Matches addr hi s word page absent hit unique =
      let same = probe_of_lem s.cp0.entryhi addr word ∙ sym page in
      elim (Bool-cases (probe_failed (probe hi s.buffer))) [
        | inl e ↦ rw (same, e) (refl, (λ j m. absurd (absent e j m)), λ j n. refl)
        | inr e ↦
            let kept = flushed_kept Matches hi s (hit e) unique in
            rw (same, e) (refl, kept.0, kept.1)
      ]
    where
      flushed_kept :
          (Matches : ℕ → Entry → Type 0) (hi : ℕ) (s : Tlb Buffer)
          → Matches hi (entry_at (probe hi s.buffer) s.buffer)
          → ((i j : ℕ)
              → Matches hi (entry_at i s.buffer)
              → Matches hi (entry_at j s.buffer)
              → i ≡ j)
          → ((j : ℕ)
              → Matches hi (entry_at j (put_entry (probe hi s.buffer) (cleared hi) s.buffer))
              → ((entry_at j (put_entry (probe hi s.buffer) (cleared hi) s.buffer)).lo0 ≡ 0)
                × ((entry_at j (put_entry (probe hi s.buffer) (cleared hi) s.buffer)).lo1 ≡ 0))
            × ((j : ℕ)
                → ¬ (Matches hi (entry_at j s.buffer))
                → entry_at j (put_entry (probe hi s.buffer) (cleared hi) s.buffer)
                  ≡ entry_at j s.buffer)
      flushed_kept Matches hi s found unique =
          let i = probe hi s.buffer in
          (
            (λ j m. elim (Bool-cases (j == i)) [
              | inl f ↦ rw (eq-of_== j i f, writes i (cleared hi) s.buffer) (refl, refl)
              | inr f ↦
                  let apart : j ≢ i = λ g. ground (arith, f, g) in
                  absurd (
                    apart (
                      unique j i (subst (Matches hi) (keeps i j (cleared hi) s.buffer apart) m)
                        found))
            ]),
            λ j n. elim (Bool-cases (j == i)) [
              | inl f ↦
                  absurd
                    (n (subst (λ q. Matches hi (entry_at q s.buffer)) (sym (eq-of_== j i f)) found))
              | inr f ↦ keeps i j (cleared hi) s.buffer (λ g. ground (arith, f, g))
            ],
          )

  clear_from_lem :
      (count i j : ℕ) (s : Tlb Buffer)
      → (i ≤ j → j < i + count → entry_at j (clear_from 𝓟 i count s).buffer ≡ registers 𝓟 s)
        × (j < i → entry_at j (clear_from 𝓟 i count s).buffer ≡ entry_at j s.buffer)
  unfolding clear_from
  clear_from_lem zero i j s = ((λ a b. let no : ⊥ = omega (arith, a, b) in absurd no), λ a. refl)
  clear_from_lem (suc count) i j s =
      let t = tlb_write_indexed 𝓟 (write_index 𝓟 i s) in
      let rest = clear_from_lem count (suc i) j t in
      (
        (λ a b. elim (Bool-cases (i == j)) [
          | inl e ↦
              rest.1 (ground (arith, e))
              ∙ subst (λ q. entry_at q t.buffer ≡ registers 𝓟 s) (eq-of_== _ _ e)
                  (writes i (registers 𝓟 s) s.buffer)
          | inr e ↦ rest.0 (ground (arith, e, a)) (omega (arith, b))
        ]),
        λ a.
            rest.1 (omega (arith, a))
            ∙ keeps i j (registers 𝓟 s) s.buffer (λ e. ground (arith, e, a)),
      )

  -- Where a write changes its entry and no other, each of the 48 entries is invalid in both halves
  -- after `tlb_init`, for the page pair 0 in the address space 255.
  pub tlb_init_lem :
      (j : ℕ) (s : Tlb Buffer)
      → j < 48
      → entry_at j (tlb_init 𝓟 s).buffer ≡ record { mask = 0; hi = 255; lo0 = 0; lo1 = 0 }
  unfolding tlb_init
  tlb_init_lem j s h =
      (clear_from_lem index_count 0 j (record {
        cp0 = record {
          index = s.cp0.index;
          wired = 0;
          pagemask = pagemask_4k;
          entryhi = asid_mask;
          entrylo0 = 0;
          entrylo1 = 0;
        };
        buffer = s.buffer;
      })).0
        (omega arith) (omega (arith, h))
