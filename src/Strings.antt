-- ===== src/Strings.antt =====
-- kernel/lib/string.c: copying and clearing of memory. The memory maps an address to its byte; a
-- pointer that is increased wraps around as the machine's addresses do.
mod Tests
use osy.Common.{
  ℕ, zero, suc, ◌+◌, ◌^◌, ◌≤◌, ◌<◌, ◌==◌, if◌then◌else◌, ◌≡◌, ◌≢◌, ◌⊎◌, refl, ◌∙◌, ==_self,
  ==_false, Bool-cases, inl, inr, arith,
}
use osy.Common.Word.{add32, add32_lem}

abbrev pub Bytes : Type 0
Bytes = ℕ → ℕ

abbrev store : Bytes → ℕ → ℕ → Bytes
store m a v b = if b == a then v else m b

-- The loops, with `cnt` rounds to go
copy_bytes : (cnt dp sp : ℕ) → Bytes → Bytes
copy_bytes zero dp sp m = m
copy_bytes (suc cnt) dp sp m = copy_bytes cnt (add32 dp 1) (add32 sp 1) (store m dp (m sp))

zero_bytes : (cnt dp : ℕ) → Bytes → Bytes
zero_bytes zero dp m = m
zero_bytes (suc cnt) dp m = zero_bytes cnt (add32 dp 1) (store m dp 0)

unfoldable pub memcpy : (dst src cnt : ℕ) → Bytes → ℕ × Bytes
unfolding copy_bytes
memcpy dst src cnt m = (dst, copy_bytes cnt dst src m)

unfoldable pub bzero : (dst cnt : ℕ) → Bytes → Bytes
unfolding zero_bytes
bzero dst cnt m = zero_bytes cnt dst m

-- An address of a block of `cnt` bytes, or one outside it
abbrev pub Outside : (a dst cnt : ℕ) → Type 0
Outside a dst cnt = (a < dst) ⊎ (dst + cnt ≤ a)

store-other : (m : Bytes) (a v b : ℕ) → b ≢ a → store m a v b ≡ m b
store-other m a v b h = let off = ==_false b a h in rw off refl

store_self : (m : Bytes) (a v : ℕ) → store m a v a ≡ v
store_self m a v = let self = ==_self a in rw self refl

copy-Outside :
    (cnt dp sp : ℕ) (m : Bytes) (a : ℕ)
    → dp + cnt < 2 ^ 32
    → Outside a dp cnt
    → copy_bytes cnt dp sp m a ≡ m a
unfolding copy_bytes
copy-Outside zero dp sp m a h out = refl
copy-Outside (suc n) dp sp m a h out =
    let next = add32_lem dp 1 (omega (arith, h)) in
    rw next (
      copy-Outside n (dp + 1) (add32 sp 1) (store m dp (m sp)) a (omega (arith, h))
        (ground (arith, out))
      ∙ store-other m dp (m sp) a (ground (arith, out)))

copy-inside :
    (cnt dp sp : ℕ) (m : Bytes) (i : ℕ)
    → dp + cnt < 2 ^ 32
    → sp + cnt < 2 ^ 32
    → (dp ≤ sp) ⊎ (sp + cnt ≤ dp)
    → i < cnt
    → copy_bytes cnt dp sp m (dp + i) ≡ m (sp + i)
unfolding copy_bytes
copy-inside zero dp sp m i h g apart lt = absurd (omega (arith, lt))
copy-inside (suc n) dp sp m zero h g apart lt =
    let next = add32_lem dp 1 (omega (arith, h)) in
    let here : dp + 0 ≡ dp = omega arith in
    let there : sp + 0 ≡ sp = omega arith in
    rw (next, here, there)
      (copy-Outside n (dp + 1) (add32 sp 1) (store m dp (m sp)) dp (omega (arith, h))
          (inl (omega arith))
        ∙ store_self m dp (m sp))
copy-inside (suc n) dp sp m (suc i) h g apart lt =
    let next = add32_lem dp 1 (omega (arith, h)) in
    let from = add32_lem sp 1 (omega (arith, g)) in
    let here : dp + suc i ≡ (dp + 1) + i = omega arith in
    let there : sp + suc i ≡ (sp + 1) + i = omega arith in
    rw (next, from, here, there)
      (copy-inside n (dp + 1) (sp + 1) (store m dp (m sp)) i (omega (arith, h)) (omega (arith, g))
          (ground (arith, apart)) (omega (arith, lt))
        ∙ store-other m dp (m sp) ((sp + 1) + i) (ground (arith, apart, lt)))

-- If neither block reaches the end of the address space and the destination does not start inside
-- the source behind its first byte, memcpy returns the destination, each byte there is the one that
-- the source had before the call, and every other byte of memory is as before.
pub memcpy_lem :
    (dst src cnt : ℕ) (m : Bytes)
    → dst + cnt < 2 ^ 32
    → src + cnt < 2 ^ 32
    → (dst ≤ src) ⊎ (src + cnt ≤ dst)
    → ((memcpy dst src cnt m).0 ≡ dst)
      × ((i : ℕ) → i < cnt → (memcpy dst src cnt m).1 (dst + i) ≡ m (src + i))
      × ((a : ℕ) → Outside a dst cnt → (memcpy dst src cnt m).1 a ≡ m a)
unfolding memcpy
memcpy_lem dst src cnt m h g apart = (
  refl,
  λ i lt. copy-inside cnt dst src m i h g apart lt,
  λ a out. copy-Outside cnt dst src m a h out,
)

zero-Outside :
    (cnt dp : ℕ) (m : Bytes) (a : ℕ)
    → dp + cnt < 2 ^ 32
    → Outside a dp cnt
    → zero_bytes cnt dp m a ≡ m a
unfolding zero_bytes
zero-Outside zero dp m a h out = refl
zero-Outside (suc n) dp m a h out =
    let next = add32_lem dp 1 (omega (arith, h)) in
    rw next (
      zero-Outside n (dp + 1) (store m dp 0) a (omega (arith, h)) (ground (arith, out))
      ∙ store-other m dp 0 a (ground (arith, out)))

zero-inside :
    (cnt dp : ℕ) (m : Bytes) (i : ℕ)
    → dp + cnt < 2 ^ 32
    → i < cnt
    → zero_bytes cnt dp m (dp + i) ≡ 0
unfolding zero_bytes
zero-inside zero dp m i h lt = absurd (omega (arith, lt))
zero-inside (suc n) dp m zero h lt =
    let next = add32_lem dp 1 (omega (arith, h)) in
    let here : dp + 0 ≡ dp = omega arith in
    rw (next, here)
      (zero-Outside n (dp + 1) (store m dp 0) dp (omega (arith, h)) (inl (omega arith))
        ∙ store_self m dp 0)
zero-inside (suc n) dp m (suc i) h lt =
    let next = add32_lem dp 1 (omega (arith, h)) in
    let here : dp + suc i ≡ (dp + 1) + i = omega arith in
    rw (next, here) (zero-inside n (dp + 1) (store m dp 0) i (omega (arith, h)) (omega (arith, lt)))

-- `bzero` of a block that does not end beyond the address space makes each byte of the block zero
-- and leaves every other byte of memory as it was.
pub bzero_lem :
    (dst cnt : ℕ) (m : Bytes)
    → dst + cnt < 2 ^ 32
    → ((i : ℕ) → i < cnt → bzero dst cnt m (dst + i) ≡ 0)
      × ((a : ℕ) → Outside a dst cnt → bzero dst cnt m a ≡ m a)
unfolding bzero
bzero_lem dst cnt m h =
    ((λ i lt. zero-inside cnt dst m i h lt), λ a out. zero-Outside cnt dst m a h out)
