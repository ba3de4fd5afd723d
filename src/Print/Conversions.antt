-- ===== src/Print/Conversions.antt =====
-- kernel/lib/print.c: the number conversions of `vprintk`.
use mathlib.Core.List.{reverse, reverse-cons}
use osy.Common.{
  ℕ, zero, suc, ◌+◌, ◌-◌, ◌/◌, ◌%◌, ◌^◌, ◌<◌, ◌≤◌, Bool, true, false, not, ◌&&◌, ◌||◌, List, [],
  ◌∷◌, ◌++◌, leb, ◌==◌, Option, none, some, if◌then◌else◌, ◌≡◌, refl, ap, ◌∙◌, ◌⊎◌, ◌≢◌, inl, inr,
  arith, Bool-cases, length, replicate, All, All-append, length-append, subst,
}
use osy.Print.{
  Format, digit, digits_of, sign_of, prefix_of, number_text, print_number, conversion, convert,
  word,
}
use osy.Print.Digits.{
  read_number, hex_format, hex-read, length-digits_of, length-replicate, length-reverse, most_zero,
  power,
}
use osy.Print.Writes.{print_number_lem}

abbrev Nonzero : List ℕ → Type 0
Nonzero = All (λ c. c ≢ 0)

digit_nonzero : (upcase : Bool) (d : ℕ) → digit upcase d ≢ 0
unfolding digit
digit_nonzero true d h = ground arith
digit_nonzero false d h = ground arith

digits_of-Nonzero :
    (fuel : ℕ) (upcase : Bool) (num base : ℕ) → Nonzero (digits_of fuel upcase num base)
unfolding digits_of
digits_of-Nonzero zero upcase num base = tt
digits_of-Nonzero (suc fuel) upcase num base =
    let rest = digits_of-Nonzero fuel upcase (num / base) base in
    (
      digit_nonzero upcase (num % base),
      elim (Bool-cases (num / base == 0)) [ inl e ↦ rw e tt | inr e ↦ rw e rest ],
    )

reverse-Nonzero : (xs : List ℕ) → Nonzero xs → Nonzero (reverse xs)
reverse-Nonzero [] h = tt
reverse-Nonzero (x ∷ xs) h =
    let last = reverse-cons x xs in
    rw last (All-append (λ c. c ≢ 0) (reverse xs) (x ∷ []) (reverse-Nonzero xs h.1) (h.0, tt))

replicate-Nonzero : (n c : ℕ) → c ≢ 0 → Nonzero (replicate n c)
replicate-Nonzero zero c h = tt
replicate-Nonzero (suc n) c h = (h, replicate-Nonzero n c h)

-- What goes in front of and behind the digits
choice-Nonzero : (b : Bool) (xs : List ℕ) → Nonzero xs → Nonzero (if b then xs else [])
choice-Nonzero true xs h = h
choice-Nonzero false xs h = tt

choice'-Nonzero : (b : Bool) (xs : List ℕ) → Nonzero xs → Nonzero (if b then [] else xs)
choice'-Nonzero true xs h = tt
choice'-Nonzero false xs h = h

sign-Nonzero : (format : Format) (num : ℕ) → Nonzero (sign_of format num).0
unfolding sign_of
sign-Nonzero format num = elim (Bool-cases (format.signed && leb (2 ^ 31) num)) [
  | inl e ↦ rw e (omega arith, tt)
  | inr e ↦ elim (Bool-cases (format.signed && format.plus)) [
    | inl k ↦ rw (e, k) (omega arith, tt)
    | inr k ↦ elim (Bool-cases (format.signed && format.space)) [
      | inl l ↦ rw (e, k, l) (omega arith, tt)
      | inr l ↦ rw (e, k, l) tt
    ]
  ]
]

prefix-Nonzero : (format : Format) (base : ℕ) → Nonzero (prefix_of format base)
unfolding prefix_of
prefix-Nonzero format base = elim (Bool-cases format.special) [
  | inr e ↦ rw e tt
  | inl e ↦ elim (Bool-cases (base == 16)) [
    | inl k ↦ rw (e, k) (omega arith, (omega arith, tt))
    | inr k ↦ elim (Bool-cases (base == 8)) [
      | inl l ↦ rw (e, k, l) (omega arith, tt)
      | inr l ↦ rw (e, k, l) tt
    ]
  ]
]

text-Nonzero :
    (num base size precision : ℕ) (format : Format)
    → Nonzero (number_text num base size precision format)
unfolding number_text
text-Nonzero num base size precision format =
    let P : ℕ → Type 0 = λ c. c ≢ 0 in
    All-append P _ _
      (choice'-Nonzero (format.zeropad && not format.left || format.left) _
        (replicate-Nonzero _ 32 (omega arith)))
      (All-append P _ _ (sign-Nonzero format num) (
        All-append P _ _ (prefix-Nonzero format base) (
          All-append P _ _
            (choice-Nonzero (format.zeropad && not format.left) _
              (replicate-Nonzero _ 48 (omega arith)))
            (All-append P _ _ (replicate-Nonzero _ 48 (omega arith)) (
              All-append P _ _ (reverse-Nonzero _ (digits_of-Nonzero 32 format.upcase _ base))
                (choice-Nonzero format.left _ (replicate-Nonzero _ 32 (omega arith))))))))

-- The padding stands in one place only.
padding :
    (zeros left : Bool) (pad : ℕ)
    → length {A = ℕ} (if (zeros && not left) || left then [] else replicate pad 32)
        + length {A = ℕ} (if zeros && not left then replicate pad 48 else [])
        + length {A = ℕ} (if left then replicate pad 32 else [])
      ≡ pad
padding true true pad = omega (arith, length-replicate pad 32)
padding true false pad = omega (arith, length-replicate pad 48)
padding false true pad = omega (arith, length-replicate pad 32)
padding false false pad = omega (arith, length-replicate pad 32)

length_sign : (format : Format) (num : ℕ) → length (sign_of format num).0 ≤ 1
unfolding sign_of
length_sign format num = elim (Bool-cases (format.signed && leb (2 ^ 31) num)) [
  | inl e ↦ rw e omega arith
  | inr e ↦ elim (Bool-cases (format.signed && format.plus)) [
    | inl k ↦ rw (e, k) (omega arith)
    | inr k ↦ elim (Bool-cases (format.signed && format.space)) [
      | inl l ↦ rw (e, k, l) (omega arith)
      | inr l ↦ rw (e, k, l) (omega arith)
    ]
  ]
]

length_prefix : (format : Format) (base : ℕ) → length (prefix_of format base) ≤ 2
unfolding prefix_of
length_prefix format base = elim (Bool-cases format.special) [
  | inr e ↦ rw e (omega arith)
  | inl e ↦ elim (Bool-cases (base == 16)) [
    | inl k ↦ rw (e, k) (omega arith)
    | inr k ↦ elim (Bool-cases (base == 8)) [
      | inl l ↦ rw (e, k, l) (omega arith)
      | inr l ↦ rw (e, k, l) (omega arith)
    ]
  ]
]

length-six :
    (a b c d e f g : List ℕ)
    → length (a ++ (b ++ (c ++ (d ++ (e ++ (f ++ g))))))
      ≡ length a + length b + length c + length d + length e + length f + length g
length-six a b c d e f g = omega (
  arith,
  length-append a (b ++ (c ++ (d ++ (e ++ (f ++ g))))),
  length-append b (c ++ (d ++ (e ++ (f ++ g)))),
  length-append c (d ++ (e ++ (f ++ g))),
  length-append d (e ++ (f ++ g)),
  length-append e (f ++ g),
  length-append f g,
)

-- The text is as long as its field, or three characters longer than the digits.
length_text :
    (num base size : ℕ) (format : Format) (k : ℕ)
    → length (digits_of 32 format.upcase (sign_of format num).1 base) ≤ k
    → length (number_text num base size 0 format) ≤ size + 3 + k
unfolding number_text
length_text num base size format k few =
    let (sign, rest) = sign_of format num in
    let tmp = digits_of 32 format.upcase (sign_of format num).1 base in
    let n = length tmp in
    let most = most_zero n in
    let same : n - n ≡ 0 = omega arith in
    let pad = size - length (sign_of format num).0 - length (prefix_of format base) - n in
    rw most (
      omega (
        arith,
        length-six
            (if (format.zeropad && not format.left) || format.left then [] else replicate pad 32)
            (sign_of format num).0 (prefix_of format base)
            (if format.zeropad && not format.left then replicate pad 48 else [])
            (replicate (n - n) 48) (reverse tmp) (if format.left then replicate pad 32 else []),
        padding format.zeropad format.left pad,
        length_sign format num,
        length_prefix format base,
        length-replicate (n - n) 48,
        length-reverse tmp,
        few,
      ))

sign_rest : (format : Format) (num : ℕ) → num < 2 ^ 32 → (sign_of format num).1 < 2 ^ 32
unfolding sign_of
sign_rest format num h = elim (Bool-cases (format.signed && leb (2 ^ 31) num)) [
  | inl e ↦ rw e (omega arith)
  | inr e ↦ elim (Bool-cases (format.signed && format.plus)) [
    | inl k ↦ rw (e, k) h
    | inr k ↦ elim (Bool-cases (format.signed && format.space)) [
      | inl l ↦ rw (e, k, l) h
      | inr l ↦ rw (e, k, l) h
    ]
  ]
]

-- The base is one that `number` accepts, and the text of each word fits in the buffer.
abbrev Fits : ℕ × ℕ × Format → Type 0
Fits (base, width, format) =
    (2 ≤ base)
    × (base ≤ 16)
    × ((num : ℕ) → num < 2 ^ 32 → length (number_text num base width 0 format) < 32)

abbrev EachFits : Option (ℕ × ℕ × Format) → Type 0
EachFits none = Unit
EachFits (some how) = Fits how

fits :
    (base width : ℕ) (format : Format) (k : ℕ)
    → 2 ≤ base
    → base ≤ 16
    → 2 ^ 32 ≤ power base (suc k)
    → width + 3 + suc k < 32
    → Fits (base, width, format)
fits base width format k lo hi enough room = (
  lo,
  hi,
  λ num h.
      let few =
        length-digits_of 32 k format.upcase (sign_of format num).1 base
          (omega (arith, sign_rest format num h, enough)) in
      omega (arith, length_text num base width format (suc k) few, room),
)

conversion-Fits : (c : ℕ) → EachFits (conversion c)
unfolding conversion
conversion-Fits c = elim (Bool-cases (c == 100 || (c == 105))) [
  | inl e ↦ rw e (fits 10 0 _ 9 (omega arith) (omega arith) (omega arith) (omega arith))
  | inr e ↦ elim (Bool-cases (c == 111)) [
    | inl k ↦ rw (e, k) (fits 8 0 _ 10 (omega arith) (omega arith) (omega arith) (omega arith))
    | inr k ↦ elim (Bool-cases (c == 117)) [
      | inl l ↦ rw (e, k, l) (fits 10 0 _ 9 (omega arith) (omega arith) (omega arith) (omega arith))
      | inr l ↦ elim (Bool-cases (c == 120)) [
        | inl m ↦
            rw (e, k, l, m) (fits 16 10 _ 7 (omega arith) (omega arith) (omega arith) (omega arith))
        | inr m ↦ elim (Bool-cases (c == 112)) [
          | inl n ↦
              rw (e, k, l, m, n)
                (fits 16 10 _ 7 (omega arith) (omega arith) (omega arith) (omega arith))
          | inr n ↦ rw (e, k, l, m, n) tt
        ]
      ]
    ]
  ]
]

-- For every number conversion of `vprintk`, every 32-bit word and every content of the buffer of 32
-- characters, formatting the word and printing the buffer gives the whole text of the number: it is
-- never cut off and always ends with a null.
pub conversion_lem :
    (cells : List ℕ) (c num base width : ℕ) (format : Format)
    → length cells ≡ 32
    → num < 2 ^ 32
    → conversion c ≡ some (base, width, format)
    → print_number cells num (base, width, format) ≡ some (number_text num base width 0 format)
conversion_lem cells c num base width format size below how =
    let known : Fits (base, width, format) = subst EachFits how (conversion-Fits c) in
    let short = known.2 num below in
    print_number_lem cells num base width format known.0 known.1 (omega (arith, short, size))
      (text-Nonzero num base width 0 format)

hex_conversion : (c : ℕ) → (c ≡ 120) ⊎ (c ≡ 112) → conversion c ≡ some (16, 10, hex_format)
unfolding conversion
hex_conversion c (inl e) = rw e refl
hex_conversion c (inr e) = rw e refl

-- For every 32-bit word and every content of the buffer of 32 characters, the conversions `%x` and
-- `%p` print `0x` and eight digits, which read back in base 16 as the word.
pub convert-hex :
    (cells : List ℕ) (c num : ℕ)
    → length cells ≡ 32
    → (c ≡ 120) ⊎ (c ≡ 112)
    → num < 2 ^ 32
    → (digits : List ℕ) × (convert cells c (word num) ≡ some (48 ∷ 120 ∷ digits))
      × (length digits ≡ 8)
      × (read_number 16 0 digits ≡ num)
unfolding convert
convert-hex cells c num size is_hex fit =
    let how = hex_conversion c is_hex in
    let (digits, text, long, read) = hex-read num fit in
    let number : (c == 99) ≡ false = elim is_hex [ inl e ↦ rw e refl | inr e ↦ rw e refl ] in
    let whole : num % 2 ^ 32 ≡ num = omega (arith, fit) in
    let printed = conversion_lem cells c num 16 10 hex_format size fit how in
    (digits, rw (number, how, whole) (printed ∙ ap some text), long, read)
