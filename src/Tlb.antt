-- ===== src/Tlb.antt =====
-- kernel/mm/tlb.c: the translation buffer and the registers through which it is written. The buffer
-- itself, with what the processor's instructions do to it, is a parameter.
pub mod Refill
mod Tests
use Prim.Native.Nat.{bit_and, bit_or}
use osy.Common.{
  ℕ, zero, suc, ◌+◌, ◌*◌, ◌/◌, ◌%◌, ◌^◌, Bool, true, false, Option, none, some, ◌==◌, if◌then◌else◌,
  ◌≡◌, ◌≢◌,
}
use osy.Vmm.{Vmm, page_size, mapping_find}

-- The registers of coprocessor 0 that the code writes
pub record Cp0 : Type 0 where
  pub index : ℕ
  pub wired : ℕ
  pub pagemask : ℕ
  pub entryhi : ℕ
  pub entrylo0 : ℕ
  pub entrylo1 : ℕ

-- An entry of the buffer
pub record Entry : Type 0 where
  pub mask : ℕ
  pub hi : ℕ
  pub lo0 : ℕ
  pub lo1 : ℕ

-- What the code uses of the processor: the entry with an index, the value of Index that a probe for
-- EntryHi gives, a change of an entry, and the Random register.
pub record Processor : Type 1 where
  pub Buffer : Type 0
  pub entry_at : ℕ → Buffer → Entry
  pub probe : ℕ → Buffer → ℕ
  pub put_entry : ℕ → Entry → Buffer → Buffer
  pub random : Buffer → ℕ

pub record Tlb (B : Type 0) : Type 0 where
  pub cp0 : Cp0
  pub buffer : B

-- `CP0_INDEX_INDEX_COUNT`, `CP0_ENTRYHI_ASID_MASK`, `CP0_PAGEMASK_4K`
abbrev pub index_count : ℕ
index_count = 48

abbrev pub asid_mask : ℕ
asid_mask = 255

abbrev pub pagemask_4k : ℕ
pagemask_4k = 0

-- `CP0_INDEX_P`: the probe failed.
abbrev pub probe_failed : ℕ → Bool
probe_failed index = if bit_and index 0x80000000 == 0 then false else true

-- `(pfn << CP0_ENTRYLO_PFN_SHIFT) | CP0_ENTRYLO_D_MASK | CP0_ENTRYLO_V_MASK`
unfoldable pub entrylo : ℕ → ℕ
entrylo pfn = bit_or (bit_or (pfn * 2 ^ 6 % 2 ^ 32) 4) 2

-- `TLB_ENTRY_PAIR`
abbrev pub entry_pair : ℕ → ℕ
entry_pair vpn = bit_and vpn 1

-- The value of EntryHi that `tlb_flush` probes for
unfoldable pub probe_of : (entryhi addr : ℕ) → ℕ
probe_of entryhi addr = bit_or (bit_and entryhi 0x1fff) (addr / page_size / 2 * 2 ^ 13 % 2 ^ 32)

module _ (𝓟 : Processor) where
  open 𝓟 use {Buffer, entry_at, probe, put_entry, random}

  abbrev pub Step : Type 0
  Step = Tlb Buffer → Tlb Buffer

  -- The writes of the registers
  abbrev pub write_pagemask : ℕ → Step
  write_pagemask v s = record s {
    cp0 = record {
      index = s.cp0.index;
      wired = s.cp0.wired;
      pagemask = v;
      entryhi = s.cp0.entryhi;
      entrylo0 = s.cp0.entrylo0;
      entrylo1 = s.cp0.entrylo1;
    };
  }

  abbrev pub write_entryhi : ℕ → Step
  write_entryhi v s = record s {
    cp0 = record {
      index = s.cp0.index;
      wired = s.cp0.wired;
      pagemask = s.cp0.pagemask;
      entryhi = v;
      entrylo0 = s.cp0.entrylo0;
      entrylo1 = s.cp0.entrylo1;
    };
  }

  abbrev pub write_entrylo0 : ℕ → Step
  write_entrylo0 v s = record s {
    cp0 = record {
      index = s.cp0.index;
      wired = s.cp0.wired;
      pagemask = s.cp0.pagemask;
      entryhi = s.cp0.entryhi;
      entrylo0 = v;
      entrylo1 = s.cp0.entrylo1;
    };
  }

  abbrev pub write_entrylo1 : ℕ → Step
  write_entrylo1 v s = record s {
    cp0 = record {
      index = s.cp0.index;
      wired = s.cp0.wired;
      pagemask = s.cp0.pagemask;
      entryhi = s.cp0.entryhi;
      entrylo0 = s.cp0.entrylo0;
      entrylo1 = v;
    };
  }

  abbrev pub write_index : ℕ → Step
  write_index v s = record s {
    cp0 = record {
      index = v;
      wired = s.cp0.wired;
      pagemask = s.cp0.pagemask;
      entryhi = s.cp0.entryhi;
      entrylo0 = s.cp0.entrylo0;
      entrylo1 = s.cp0.entrylo1;
    };
  }

  abbrev pub write_wired : ℕ → Step
  write_wired v s = record s {
    cp0 = record {
      index = s.cp0.index;
      wired = v;
      pagemask = s.cp0.pagemask;
      entryhi = s.cp0.entryhi;
      entrylo0 = s.cp0.entrylo0;
      entrylo1 = s.cp0.entrylo1;
    };
  }

  -- The entry that the registers make up
  abbrev pub registers : Tlb Buffer → Entry
  registers s = record {
    mask = s.cp0.pagemask;
    hi = s.cp0.entryhi;
    lo0 = s.cp0.entrylo0;
    lo1 = s.cp0.entrylo1;
  }

  -- TLBR, TLBP, TLBWI and TLBWR
  unfoldable pub tlb_read : Step
  tlb_read s =
      let e = entry_at s.cp0.index s.buffer in
      write_pagemask e.mask (write_entryhi e.hi (write_entrylo0 e.lo0 (write_entrylo1 e.lo1 s)))

  unfoldable pub tlb_probe : Step
  tlb_probe s = write_index (probe s.cp0.entryhi s.buffer) s

  unfoldable pub tlb_write_indexed : Step
  tlb_write_indexed s = record s { buffer = put_entry s.cp0.index (registers s) s.buffer }

  unfoldable pub tlb_write_random : Step
  tlb_write_random s = record s { buffer = put_entry (random s.buffer) (registers s) s.buffer }

  -- The loop of `tlb_init`, for the indices from `i` on
  unfoldable pub clear_from : (i count : ℕ) → Step
  unfolding tlb_write_indexed
  clear_from i zero s = s
  clear_from i (suc count) s = clear_from (suc i) count (tlb_write_indexed (write_index i s))

  unfoldable pub tlb_init : Step
  unfolding clear_from
  tlb_init s = clear_from 0 index_count (
      write_entryhi asid_mask
        (write_entrylo1 0 (write_entrylo0 0 (write_pagemask pagemask_4k (write_wired 0 s)))))

  unfoldable pub tlb_store_indexed : (vpn pfn : ℕ) → Step
  unfolding tlb_read tlb_write_indexed
  tlb_store_indexed vpn pfn s =
      let t = write_pagemask pagemask_4k (tlb_read s) in
      tlb_write_indexed (
        if entry_pair vpn == 0
        then write_entrylo0 (entrylo pfn) t
        else write_entrylo1 (entrylo pfn) t)

  unfoldable pub tlb_store_random : (vpn pfn : ℕ) → Step
  unfolding tlb_write_random
  tlb_store_random vpn pfn s =
      let t = write_pagemask pagemask_4k s in
      tlb_write_random (
        if entry_pair vpn == 0
        then write_entrylo1 0 (write_entrylo0 (entrylo pfn) t)
        else write_entrylo1 (entrylo pfn) (write_entrylo0 0 t))

  unfoldable pub tlb_flush : (addr : ℕ) → Step
  unfolding tlb_probe tlb_write_indexed
  tlb_flush addr s =
      let t = tlb_probe (write_entryhi (probe_of s.cp0.entryhi addr) s) in
      write_entryhi s.cp0.entryhi (
        if probe_failed t.cp0.index
        then t
        else tlb_write_indexed (write_entrylo1 0 (write_entrylo0 0 (write_pagemask pagemask_4k t))))

  -- `tlb_invalid`: `none` where the address has no mapping and the thread is finished.
  unfoldable pub tlb_invalid : Vmm → (virt entryhi : ℕ) → Tlb Buffer → Option (Tlb Buffer)
  unfolding tlb_probe tlb_store_random tlb_store_indexed
  tlb_invalid vmm virt entryhi s = elim (mapping_find vmm virt) [
    | none ↦ none
    | some phys ↦
        let vpn = virt / page_size in
        let pfn = phys / page_size in
        let t = tlb_probe (write_entryhi entryhi s) in
        some (
          if probe_failed t.cp0.index
          then tlb_store_random vpn pfn t
          else tlb_store_indexed vpn pfn t)
  ]

  -- `wrapped_tlb_refill`, likewise
  unfoldable pub tlb_refill : Vmm → (virt : ℕ) → Tlb Buffer → Option (Tlb Buffer)
  unfolding tlb_store_random
  tlb_refill vmm virt s = elim (mapping_find vmm virt) [
    | none ↦ none
    | some phys ↦ some (tlb_store_random (virt / page_size) (phys / page_size) s)
  ]
