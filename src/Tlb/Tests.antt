-- ===== src/Tlb/Tests.antt =====
-- Runs of kernel/mm/tlb.c on a buffer that is a function, whose Random register is always 5.
use osy.Common.{
  ℕ, true, some, [], ◌∷◌, ◌==◌, if◌then◌else◌, ◌≡◌, ◌≢◌, refl, sym, ◌∙◌, ◌+◌, ◌*◌, arith, ==_false,
  ==_self, Bool-cases, inl, inr, eq-of_==,
}
use osy.Common.Word.{add32, sub32}
use osy.Vmm.{Vmm, mapping_find}
use osy.Tlb.{Entry, Processor, Tlb, tlb_flush, tlb_refill}
use osy.Tlb.Refill.{half, other_half, tlb_refill_lem, tlb_flush_lem}

abbrev simple : Processor
simple = record {
  Buffer = ℕ → Entry;
  entry_at = λ i b. b i;
  probe = λ hi b. if (b 5).hi == hi then 5 else 0x80000000;
  put_entry = λ i e b j. if j == i then e else b j;
  random = λ b. 5;
}

writes : (i : ℕ) (e : Entry) (b : ℕ → Entry) → simple.entry_at i (simple.put_entry i e b) ≡ e
writes i e b = rw (==_self i) refl

keeps :
    (i j : ℕ) (e : Entry) (b : ℕ → Entry)
    → j ≢ i
    → simple.entry_at j (simple.put_entry i e b) ≡ simple.entry_at j b
keeps i j e b n = rw (==_false j i n) refl

-- The pages 4 and 5 in entry 5
abbrev filled : Tlb (ℕ → Entry)
filled = record {
  cp0 = record { index = 0; wired = 0; pagemask = 0; entryhi = 1; entrylo0 = 0; entrylo1 = 0 };
  buffer = λ j.
      if j == 5
      then record { mask = 0; hi = 16385; lo0 = 582; lo1 = 0 }
      else record { mask = 0; hi = 0; lo0 = 0; lo1 = 0 };
}

abbrev space : Vmm
space = record {
  asid = 1;
  vma = record { vpn_base = 4; pfn_base = 9; count = 2; valid = true } ∷ [];
}

space_maps : mapping_find space 20496 ≡ some 40976
unfolding mapping_find add32 sub32
space_maps = refl

tlb_refill_lem_example :
    (t : Tlb (ℕ → Entry)) × (tlb_refill simple space 20496 filled ≡ some t)
    × (half 5 (t.buffer 5) ≡ 10 * 64 + 6)
    × (other_half 5 (t.buffer 5) ≡ 0)
    × ((t.buffer 5).hi ≡ 1)
    × ((j : ℕ) → j ≢ 5 → t.buffer j ≡ filled.buffer j)
tlb_refill_lem_example =
    tlb_refill_lem simple writes keeps space 20496 40976 filled space_maps (omega arith)

only_five : (j : ℕ) → (filled.buffer j).hi ≡ 16385 → j ≡ 5
only_five j h = elim (Bool-cases (j == 5)) [
  | inl e ↦ eq-of_== j 5 e
  | inr e ↦ let other : (filled.buffer j).hi ≡ 0 = rw e refl in absurd (omega (arith, h, other))
]

tlb_flush_lem_example :
    ((tlb_flush simple 16400 filled).cp0.entryhi ≡ 1)
    × ((j : ℕ)
        → ((tlb_flush simple 16400 filled).buffer j).hi ≡ 16385
        → (((tlb_flush simple 16400 filled).buffer j).lo0 ≡ 0)
          × (((tlb_flush simple 16400 filled).buffer j).lo1 ≡ 0))
    × ((j : ℕ)
        → (filled.buffer j).hi ≢ 16385
        → (tlb_flush simple 16400 filled).buffer j ≡ filled.buffer j)
tlb_flush_lem_example =
    tlb_flush_lem simple writes keeps (λ hi e. e.hi ≡ hi) 16400 16385 filled (omega arith) refl
      (λ e j m. ground (arith, e)) (λ e. refl) λ i j m n. only_five i m ∙ sym (only_five j n)
