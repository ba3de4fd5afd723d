-- ===== src/Print/Digits.antt =====
-- kernel/lib/print.c: the digits of a number, and what they read back as.
use mathlib.Core.List.{reverse, reverse-cons}
use native.Mathlib.Nat.{div-add-mod, div-add-mod', mod-lt, mul-le-mul_right, mul-le-mul_left}
use osy.Common.{
  ℕ, zero, suc, ◌+◌, ◌-◌, ◌*◌, ◌/◌, ◌%◌, ◌^◌, ◌<◌, ◌≤◌, Bool, true, false, List, [], ◌∷◌, ◌++◌, ltb,
  ◌==◌, if◌then◌else◌, ◌≡◌, refl, ◌∙◌, ap, inl, inr, arith, Bool-cases, eq-of_==, ltb→lt, length,
  subst, replicate, length-append,
}
use osy.Print.{digit, digits_of, number_text, sign_of, prefix_of, no_format, Format}

-- The value of a digit's character.
unfoldable pub digit_value : ℕ → ℕ
digit_value c = if ltb c 58 then c - 48 else if ltb c 71 then c - 55 else c - 87

-- A text of digits, read from the left.
unfoldable pub read_number : (base acc : ℕ) → List ℕ → ℕ
unfolding digit_value
read_number base acc [] = acc
read_number base acc (c ∷ cs) = read_number base (acc * base + digit_value c) cs

digit_value-digit : (upcase : Bool) (d : ℕ) → d < 16 → digit_value (digit upcase d) ≡ d
unfolding digit digit_value
digit_value-digit true d h = ground arith
digit_value-digit false d h = ground arith

read-last :
    (base acc : ℕ) (cs : List ℕ) (c : ℕ)
    → read_number base acc (cs ++ c ∷ []) ≡ read_number base acc cs * base + digit_value c
unfolding read_number
read-last base acc [] c = refl
read-last base acc (d ∷ cs) c = read-last base (acc * base + digit_value d) cs c

div_below : (num b m : ℕ) → num < b * m → num / b < m
div_below num b m h = elim (Bool-cases (ltb (num / b) m)) [
  | inl e ↦ ltb→lt (num / b) m e
  | inr e ↦
      let le : m ≤ num / b = ground (arith, e) in
      let mul = mul-le-mul_left b le in let whole = div-add-mod num b in absurd (omega arith)
]

-- The digits of a number read back as the number, in either case of letters, where `fuel` bits are
-- enough for it.
read-digits :
    (fuel : ℕ) (upcase : Bool) (num base : ℕ)
    → 2 ≤ base
    → base ≤ 16
    → num < 2 ^ fuel
    → read_number base 0 (reverse (digits_of fuel upcase num base)) ≡ num
unfolding digits_of read_number
read-digits zero upcase num base lo hi fit = omega arith
read-digits (suc fuel) upcase num base lo hi fit =
    let whole = div-add-mod' num base in
    let below : num % base < base = mod-lt num (omega arith) in
    let value = digit_value-digit upcase (num % base) (omega arith) in
    let more : num < base * 2 ^ fuel = omega (arith, mul-le-mul_right (2 ^ fuel) lo) in
    let rest =
      read-digits fuel upcase (num / base) base lo hi (div_below num base (2 ^ fuel) more) in
    elim (Bool-cases (num / base == 0)) [
      | inl e ↦
          let none_left : num / base ≡ 0 = eq-of_== (num / base) 0 e in
          rw (e, value) (subst (λ q. q * base + num % base ≡ num) none_left whole)
      | inr e ↦
          let last =
            reverse-cons (digit upcase (num % base)) (digits_of fuel upcase (num / base) base) in
          let split =
            read-last base 0 (reverse (digits_of fuel upcase (num / base) base))
              (digit upcase (num % base)) in
          rw (e, last, split, rest, value) whole
    ]

abbrev pub power : ℕ → ℕ → ℕ
power base zero = 1
power base (suc k) = base * power base k

-- A number that `k` digits suffice for has no more digits.
pub length-digits_of :
    (fuel k : ℕ) (upcase : Bool) (num base : ℕ)
    → num < power base (suc k)
    → length (digits_of fuel upcase num base) ≤ suc k
unfolding digits_of
length-digits_of zero k upcase num base h = omega arith
length-digits_of (suc fuel) zero upcase num base h =
    let none_left : num / base < 1 = div_below num base 1 h in
    let e : (num / base == 0) ≡ true = ground (arith, none_left) in rw e omega arith
length-digits_of (suc fuel) (suc k) upcase num base h =
    let rest =
      length-digits_of fuel k upcase (num / base) base
        (div_below num base (power base (suc k)) h) in
    elim (Bool-cases (num / base == 0)) [
      | inl e ↦ rw e omega arith
      | inr e ↦ rw e omega (arith, rest)
    ]

read-zeros :
    (base n : ℕ) (cs : List ℕ) → read_number base 0 (replicate n 48 ++ cs) ≡ read_number base 0 cs
unfolding read_number digit_value
read-zeros base zero cs = refl
read-zeros base (suc n) cs =
    let first : 0 * base + 0 ≡ 0 = omega arith in rw (read_number, first) (read-zeros base n cs)

append-nil : (xs : List ℕ) → xs ++ [] ≡ xs
append-nil [] = refl
append-nil (x ∷ xs) = ap (λ l. x ∷ l) (append-nil xs)

pub length-replicate : (n c : ℕ) → length (replicate n c) ≡ n
length-replicate zero c = omega arith
length-replicate (suc n) c = omega (arith, length-replicate n c)

pub length-reverse : (xs : List ℕ) → length (reverse xs) ≡ length xs
length-reverse [] = refl
length-reverse (x ∷ xs) =
    let last = reverse-cons x xs in
    rw last omega (arith, length-append (reverse xs) (x ∷ []), length-reverse xs)

-- The precision is the number of digits.
pub most_zero : (n : ℕ) → (if ltb 0 n then n else 0) ≡ n
most_zero n = ground arith

-- The text that `%u` gives for a 32-bit word reads back in base 10 as the word.
pub unsigned-read :
    (num : ℕ) → num < 2 ^ 32 → read_number 10 0 (number_text num 10 0 0 no_format) ≡ num
unfolding number_text sign_of prefix_of
unsigned-read num h =
    let same : number_text num 10 0 0 no_format ≡ reverse (digits_of 32 false num 10) =
      text-plain (reverse (digits_of 32 false num 10)) (length (digits_of 32 false num 10)) in
    rw same (read-digits 32 false num 10 (omega arith) (omega arith) h)
  where
    text-plain :
        (tmp : List ℕ) (n : ℕ)
        → replicate (0 - (if ltb 0 n then n else 0)) 32
            ++ (replicate ((if ltb 0 n then n else 0) - n) 48 ++ (tmp ++ []))
          ≡ tmp
    text-plain tmp n =
        let most = most_zero n in
        let none_left : n - n ≡ 0 = omega arith in
        let none_over : 0 - n ≡ 0 = omega arith in rw (most, none_left, none_over) (append-nil tmp)

-- The format of `%x` and `%p`
abbrev pub hex_format : Format
hex_format = record no_format { zeropad = true; special = true }

-- The text that `%x` and `%p` give for a 32-bit word is `0x` and eight digits, which read back in
-- base 16 as the word.
pub hex-read :
    (num : ℕ)
    → num < 2 ^ 32
    → (digits : List ℕ) × (number_text num 16 10 0 hex_format ≡ 48 ∷ 120 ∷ digits)
      × (length digits ≡ 8)
      × (read_number 16 0 digits ≡ num)
unfolding number_text sign_of prefix_of
hex-read num h =
    let tmp = digits_of 32 false num 16 in
    let n = length tmp in
    let most = most_zero n in
    let few : n ≤ 8 = length-digits_of 32 7 false num 16 h in
    let none_left : n - n ≡ 0 = omega arith in
    let tail = append-nil (reverse tmp) in
    let size : length (replicate (8 - n) 48 ++ reverse tmp) ≡ 8 = omega (
      arith,
      length-append (replicate (8 - n) 48) (reverse tmp),
      length-replicate (8 - n) 48,
      length-reverse tmp,
      few,
    ) in
    let read = read-zeros 16 (8 - n) (reverse tmp) in
    (
      replicate (8 - n) 48 ++ reverse tmp,
      rw (most, none_left, tail) refl,
      size,
      read ∙ read-digits 32 false num 16 (omega arith) (omega arith) h,
    )
