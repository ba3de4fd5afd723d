-- ===== src/Print/Tests.antt =====
-- Runs of kernel/lib/print.c.
use osy.Common.{ℕ, ◌≡◌, refl, none, some, List, [], ◌∷◌, replicate, length, inr, arith}
use osy.Print.{
  word, text, number_text, print_number, vprintk, digits_of, digit, sign_of, prefix_of, number,
  puts, put_all, terminate, put, convert, conversion, takes_argument,
}
use osy.Print.Digits.{read_number, hex_format}
use osy.Print.Conversions.{conversion_lem, convert-hex}

convert-hex_example :
    (digits : List ℕ) × (convert (replicate 32 1) 112 (word 48879) ≡ some (48 ∷ 120 ∷ digits))
    × (length digits ≡ 8)
    × (read_number 16 0 digits ≡ 48879)
convert-hex_example = convert-hex (replicate 32 1) 112 48879 refl (inr refl) (omega arith)

-- `printk ("a%d%%%s", -7, "ok")`
message :
    vprintk
      (replicate 32 1)
      (97 ∷ 37 ∷ 100 ∷ 37 ∷ 37 ∷ 37 ∷ 115 ∷ [])
      (word 4294967289 ∷ text (some (111 ∷ 107 ∷ 0 ∷ [])) ∷ [])
    ≡ some (97 ∷ 45 ∷ 55 ∷ 37 ∷ 111 ∷ 107 ∷ [])
unfolding vprintk convert conversion takes_argument print_number number number_text digits_of digit
    sign_of prefix_of puts put_all put terminate
message = refl

-- A format that ends with a lone `%` is read past its end.
lone_percent : vprintk (replicate 32 1) (97 ∷ 37 ∷ []) [] ≡ none
unfolding vprintk
lone_percent = refl

conversion_lem_example :
    print_number (replicate 32 1) 48879 (16, 10, hex_format)
    ≡ some (number_text 48879 16 10 0 hex_format)
unfolding conversion
conversion_lem_example =
    conversion_lem (replicate 32 1) 120 48879 16 10 hex_format refl (omega arith) refl
