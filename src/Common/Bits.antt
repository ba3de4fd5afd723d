-- ===== src/Common/Bits.antt =====
-- The bit operations of the kernel's code as arithmetic: one binary digit at a time, and the masks
-- that the code uses.
use Prim.Native.Nat.{min, max, digits, bitwise, bit_and, bit_or, bit_and-bitwise, bit_or-bitwise}
use osy.Common.{ℕ, zero, suc, ◌+◌, ◌*◌, ◌/◌, ◌%◌, ◌≤◌, ◌<◌, ◌≡◌, refl, ap, ◌∙◌, arith}

module _ (end : ℕ → ℕ) (op : ℕ → ℕ → ℕ) where
  -- Any count that is large enough for the first number gives the same digits.
  digits-enough : (x y m n : ℕ) → x ≤ m → x ≤ n → digits end op m x y ≡ digits end op n x y
  digits-enough zero y zero zero p q = refl
  digits-enough zero y zero (suc n) p q = refl
  digits-enough zero y (suc m) zero p q = refl
  digits-enough zero y (suc m) (suc n) p q = refl
  digits-enough (suc x) y zero n p q = absurd (omega (arith, p))
  digits-enough (suc x) y (suc m) zero p q = absurd (omega (arith, q))
  digits-enough (suc x) y (suc m) (suc n) p q =
      let half = digits-enough (suc x / 2) (y / 2) m n (omega (arith, p)) (omega (arith, q)) in
      rw half refl

  lowest :
      (x y : ℕ)
      → bitwise end op (suc x) y ≡ bitwise end op (suc x / 2) (y / 2) * 2 + op (suc x % 2) (y % 2)
  lowest x y =
      let half = digits-enough (suc x / 2) (y / 2) x (suc x / 2) (omega arith) (omega arith) in
      rw half refl

or_lowest : (x y : ℕ) → bit_or x y ≡ bit_or (x / 2) (y / 2) * 2 + max (x % 2) (y % 2)
or_lowest zero y = omega (arith, bit_or-bitwise 0 y, bit_or-bitwise 0 (y / 2))
or_lowest (suc x) y =
    omega
      (arith, bit_or-bitwise (suc x) y, bit_or-bitwise (suc x / 2) (y / 2), lowest (λ b. b) max x y)

and_lowest : (x y : ℕ) → bit_and x y ≡ bit_and (x / 2) (y / 2) * 2 + min (x % 2) (y % 2)
and_lowest zero y = omega (arith, bit_and-bitwise 0 y, bit_and-bitwise 0 (y / 2))
and_lowest (suc x) y =
    omega (
      arith,
      bit_and-bitwise (suc x) y,
      bit_and-bitwise (suc x / 2) (y / 2),
      lowest (λ b. 0) min x y,
    )

or_none : (n x : ℕ) → x ≤ n → bit_or x 0 ≡ x
or_none n zero h = refl
or_none zero (suc x) h = absurd (omega (arith, h))
or_none (suc n) (suc x) h =
    omega (arith, or_lowest (suc x) 0, or_none n (suc x / 2) (omega (arith, h)))

and_none : (n x : ℕ) → x ≤ n → bit_and x 0 ≡ 0
and_none n zero h = refl
and_none zero (suc x) h = absurd (omega (arith, h))
and_none (suc n) (suc x) h =
    omega (arith, and_lowest (suc x) 0, and_none n (suc x / 2) (omega (arith, h)))

-- The lowest bit tells whether a number is odd.
pub bit_and-one : (x : ℕ) → bit_and x 1 ≡ x % 2
bit_and-one x = omega (arith, and_lowest x 1, and_none (x / 2) (x / 2) (omega arith))

-- The second and the third bit of a word that has neither are set by adding them.
pub bit_or-four : (x : ℕ) → bit_or (x * 8) 4 ≡ x * 8 + 4
bit_or-four x = omega (
  arith,
  or_lowest (x * 8) 4,
  or_lowest (x * 8 / 2) 2,
  or_lowest (x * 8 / 2 / 2) 1,
  or_none (x * 8 / 2 / 2 / 2) (x * 8 / 2 / 2 / 2) (omega arith),
)

pub bit_or-two : (x : ℕ) → bit_or (x * 4) 2 ≡ x * 4 + 2
bit_or-two x = omega (
  arith,
  or_lowest (x * 4) 2,
  or_lowest (x * 4 / 2) 1,
  or_none (x * 4 / 2 / 2) (x * 4 / 2 / 2) (omega arith),
)

-- A number with `k` binary zeros behind it, and the mask of `k` ones
abbrev shift : (k x : ℕ) → ℕ
shift zero x = x
shift (suc k) x = shift k x * 2

abbrev ones : ℕ → ℕ
ones zero = 0
ones (suc k) = ones k * 2 + 1

or_even : (x z : ℕ) → bit_or x (z * 2) ≡ bit_or (x / 2) z * 2 + x % 2
or_even x z =
    let half : z * 2 / 2 ≡ z = omega arith in
    omega (arith, or_lowest x (z * 2), ap (bit_or (x / 2)) half)

and_odd : (x z : ℕ) → bit_and x (z * 2 + 1) ≡ bit_and (x / 2) z * 2 + x % 2
and_odd x z =
    let half : (z * 2 + 1) / 2 ≡ z = omega arith in
    omega (arith, and_lowest x (z * 2 + 1), ap (bit_and (x / 2)) half)

or_fields : (k x y : ℕ) → x < shift k 1 → bit_or x (shift k y) ≡ shift k y + x
or_fields zero zero y h = bit_or-bitwise 0 y ∙ omega arith
or_fields zero (suc x) y h = absurd (omega (arith, h))
or_fields (suc k) x y h =
    or_even x (shift k y) ∙ omega (arith, or_fields k (x / 2) y (omega (arith, h)))

abbrev low : (k x : ℕ) → ℕ
low zero x = 0
low (suc k) x = low k (x / 2) * 2 + x % 2

and_ones : (k x : ℕ) → bit_and x (ones k) ≡ low k x
and_ones zero x = and_none x x (omega arith)
and_ones (suc k) x = and_odd x (ones k) ∙ omega (arith, and_ones k (x / 2))

-- The lower 13 bits of a word, and a word put together of these and the others.
pub bit_and-13 : (x : ℕ) → bit_and x 0x1fff ≡ x % 8192
bit_and-13 x = and_ones 13 x ∙ omega arith

pub bit_or-13 : (x y : ℕ) → x < 8192 → bit_or x (y * 8192) ≡ y * 8192 + x
bit_or-13 x y h =
    let at : y * 8192 ≡ shift 13 y = omega arith in
    ap (bit_or x) at ∙ or_fields 13 x y (omega (arith, h)) ∙ omega arith
