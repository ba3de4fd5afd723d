-- ===== src/Print.antt =====
-- kernel/lib/print.c: numbers as text in a buffer of 32 characters, and formatted messages.
-- Characters are their codes; what reaches the console is the list of them. `size` and `precision`
-- count down to at most 0: below it the code's loops do nothing either.
pub mod Digits
pub mod Writes
pub mod Conversions
mod Tests
use osy.Common.{
  ℕ, zero, suc, ◌+◌, ◌-◌, ◌*◌, ◌/◌, ◌%◌, ◌^◌, Bool, true, false, not, ◌&&◌, ◌||◌, Option, none,
  some, List, [], ◌∷◌, ◌++◌, ltb, leb, ◌==◌, if◌then◌else◌, length, get_elem?, set, replicate,
}
use mathlib.Core.List.{reverse}

-- The flags `NF_…` that the code tests.
pub record Format : Type 0 where
  pub zeropad : Bool
  pub signed : Bool
  pub plus : Bool
  pub space : Bool
  pub left : Bool
  pub special : Bool
  pub upcase : Bool

abbrev pub no_format : Format
no_format = record {
  zeropad = false;
  signed = false;
  plus = false;
  space = false;
  left = false;
  special = false;
  upcase = false;
}

-- `digits [d]`
unfoldable pub digit : Bool → ℕ → ℕ
digit upcase d = if ltb d 10 then 48 + d else (if upcase then 65 else 97) + (d - 10)

-- The text in `tmp`, the last digit first. `tmp` has 32 characters.
unfoldable pub digits_of : (fuel : ℕ) → Bool → (num base : ℕ) → List ℕ
digits_of zero upcase num base = []
digits_of (suc fuel) upcase num base =
    let rest = digits_of fuel upcase (num / base) base in
    digit upcase (num % base) ∷ (if num / base == 0 then [] else rest)

-- A buffer with its position.
pub record Buffer : Type 0 where
  pub cells : List ℕ
  pub pos : ℕ

-- `if (buf <= end) *buf = c; ++buf;`, where `end` is the last cell
unfoldable pub put : ℕ → Buffer → Buffer
put c b = record { cells = set b.cells b.pos c; pos = suc b.pos }

unfoldable pub put_all : List ℕ → Buffer → Buffer
unfolding put
put_all [] b = b
put_all (c ∷ cs) b = put_all cs (put c b)

-- `if (buf <= end) *buf = 0;`
unfoldable pub terminate : Buffer → Buffer
terminate b = record b { cells = set b.cells b.pos 0 }

-- The number's sign character and what it is the sign of.
unfoldable pub sign_of : Format → ℕ → List ℕ × ℕ
sign_of format num =
    if format.signed && leb (2 ^ 31) num
    then ((45 ∷ []), (2 ^ 32 - num) % 2 ^ 32)
    else if format.signed && format.plus
    then ((43 ∷ []), num)
    else if format.signed && format.space
    then ((32 ∷ []), num)
    else ([], num)

unfoldable pub prefix_of : Format → ℕ → List ℕ
prefix_of format base =
    if format.special
    then if base == 16 then (48 ∷ 120 ∷ []) else if base == 8 then (48 ∷ []) else []
    else []

-- The characters that `number` writes, but for the trailing null.
unfoldable pub number_text : (num base size precision : ℕ) → Format → List ℕ
number_text num base size precision format =
    let zeropad = format.zeropad && not format.left in
    let (sign, rest) = sign_of format num in
    let lead = prefix_of format base in
    let tmp = digits_of 32 format.upcase rest base in
    let digits = if ltb precision (length tmp) then length tmp else precision in
    let pad = size - length sign - length lead - digits in
    let before = if zeropad || format.left then [] else replicate pad 32 in
    let zeros = if zeropad then replicate pad 48 else [] in
    let after = if format.left then replicate pad 32 else [] in
    before
    ++ (sign ++ (lead ++ (zeros ++ (replicate (digits - length tmp) 48 ++ (reverse tmp ++ after)))))

-- `number`: the buffer afterwards; `none` is the panic.
unfoldable pub number : Buffer → (num base size precision : ℕ) → Format → Option Buffer
number b num base size precision format =
    if ltb base 2 || ltb 16 base
    then none
    else some (terminate (put_all (number_text num base size precision format) b))

-- `puts`: what is printed of a text in memory; `none` if the memory ends before a null.
unfoldable pub puts : List ℕ → Option (List ℕ)
puts [] = none
puts (c ∷ cs) =
    let rest = puts cs in
    if c == 0 then some [] else elim rest [ none ↦ none | some text ↦ some (c ∷ text) ]

-- What a message is made of: the arguments of `printk` are words, or addresses of texts.
pub data Arg : Type 0 where
  word : ℕ → Arg
  text : Option (List ℕ) → Arg

-- The number conversions: base, width and flags.
unfoldable pub conversion : ℕ → Option (ℕ × ℕ × Format)
conversion c =
    if c == 100 || (c == 105)
    then some (10, 0, record no_format { signed = true })
    else if c == 111
    then some (8, 0, record no_format { special = true })
    else if c == 117
    then some (10, 0, no_format)
    else if c == 120
    then some (16, 10, record no_format { zeropad = true; special = true })
    else if c == 112
    then some (16, 10, record no_format { zeropad = true; special = true })
    else none

-- What `number` and `puts` print with a buffer of 32 characters.
unfoldable pub print_number : List ℕ → ℕ → (ℕ × ℕ × Format) → Option (List ℕ)
print_number cells num (base, width, format) =
    elim (number (record { cells = cells; pos = 0 }) num base width 0 format) [
      | none ↦ none
      | some b ↦ puts b.cells
    ]

-- `<NULL>`
abbrev pub null_text : List ℕ
null_text = (60 ∷ 78 ∷ 85 ∷ 76 ∷ 76 ∷ 62 ∷ [])

abbrev pub and_print : Option (List ℕ) → Option (List ℕ) → Option (List ℕ)
and_print none rest = none
and_print (some out) none = none
and_print (some out) (some rest) = some (out ++ rest)

-- The conversions that take an argument.
unfoldable pub takes_argument : ℕ → Bool
takes_argument d = d == 99 || (d == 115) || elim (conversion d) [ none ↦ false | some _ ↦ true ]

-- What one conversion prints of its argument; `none` if the argument is of the wrong kind.
unfoldable pub convert : List ℕ → ℕ → Arg → Option (List ℕ)
convert cells d (word n) =
    if d == 99
    then some (n % 256 ∷ [])
    else elim (conversion d) [ none ↦ none | some how ↦ print_number cells (n % 2 ^ 32) how ]
convert cells d (text none) = if d == 115 then some null_text else none
convert cells d (text (some cs)) = if d == 115 then puts cs else none

-- `vprintk`: what is printed; the returned count is its length. `cells` is what stands in the
-- buffer before. `none` is a missing argument or one of the wrong kind, or a format that ends with
-- a `%` of its own, where the code reads on behind the end of the format.
unfoldable pub vprintk : List ℕ → List ℕ → List Arg → Option (List ℕ)
vprintk cells [] args = some []
vprintk cells (c ∷ []) args = if c == 37 then none else some (c ∷ [])
vprintk cells (c ∷ d ∷ format) args =
    let plain = vprintk cells (d ∷ format) args in
    let rest = vprintk cells format args in
    let converted : Option (List ℕ) = elim args [
      | [] ↦ none
      | a ∷ others ↦ and_print (convert cells d a) (vprintk cells format others)
    ] in
    if not (c == 37)
    then and_print (some (c ∷ [])) plain
    else if d == 37
    then and_print (some (37 ∷ [])) rest
    else if takes_argument d
    then converted
    else and_print (some (37 ∷ d ∷ [])) rest
