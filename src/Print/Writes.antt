-- ===== src/Print/Writes.antt =====
-- kernel/lib/print.c: what `number` writes into its buffer, and what `puts` reads there.
use mathlib.Core.List.{append_assoc}
use osy.Common.{
  ℕ, suc, ◌<◌, ◌≤◌, false, List, [], ◌∷◌, ◌++◌, ltb, some, ◌≡◌, ◌≢◌, refl, ◌∙◌, ap, arith, ==_false,
  length, set, All, length-append, ◌||◌,
}
use osy.Print.{Buffer, put, put_all, terminate, puts, number, number_text, Format, print_number}

-- The text `front` is in the first cells, and the position is behind it.
abbrev Holds : List ℕ → Buffer → Type 0
Holds front b = (tail : List ℕ) × (b.cells ≡ front ++ tail) × (b.pos ≡ length front)

set-append :
    (front : List ℕ) (c d : ℕ) (tail : List ℕ)
    → set (front ++ d ∷ tail) (length front) c ≡ front ++ c ∷ tail
set-append [] c d tail = refl
set-append (x ∷ front) c d tail = ap (λ l. x ∷ l) (set-append front c d tail)

put-append :
    (front : List ℕ) (c d : ℕ) (cells : List ℕ)
    → put c (record { cells = front ++ d ∷ cells; pos = length front })
      ≡ record { cells = (front ++ c ∷ []) ++ cells; pos = length (front ++ c ∷ []) }
unfolding put
put-append front c d cells =
    let here = set-append front c d cells in
    let place : length (front ++ c ∷ []) ≡ suc (length front) =
      omega (arith, length-append front (c ∷ [])) in
    let split = append_assoc front (c ∷ []) cells in rw (here, place, split) refl

-- A text behind another, where the buffer has room for both and the null.
cells-put_all :
    (front text : List ℕ) (cells : List ℕ)
    → length text < length cells
    → (tail : List ℕ) × ((terminate
          (put_all text (record { cells = front ++ cells; pos = length front }))).cells
        ≡ front ++ (text ++ 0 ∷ tail))
unfolding put_all put terminate
cells-put_all front [] (d ∷ cells) room = (cells, set-append front 0 d cells)
cells-put_all front [] [] room = elim room [ ]
cells-put_all front (c ∷ text) [] room = elim room [ ]
cells-put_all front (c ∷ text) (d ∷ cells) room =
    let (tail, rest) = cells-put_all (front ++ c ∷ []) text cells (omega arith) in
    let step = put-append front c d cells in
    let text' = append_assoc front (c ∷ []) (text ++ 0 ∷ tail) in
    (tail, ap (λ b. (terminate (put_all text b)).cells) step ∙ (rest ∙ text'))

puts-text : (text tail : List ℕ) → All (λ c. c ≢ 0) text → puts (text ++ 0 ∷ tail) ≡ some text
unfolding puts
puts-text [] tail h = refl
puts-text (c ∷ text) tail h =
    let rest = puts-text text tail h.1 in
    let some_more = ==_false c 0 h.0 in rw (some_more, rest) refl

-- In a base from 2 to 16, where the text of a number has no null and the buffer has room for it and
-- for a null, formatting the number into the buffer and printing the buffer gives exactly the text,
-- whatever stood in the buffer.
pub print_number_lem :
    (cells : List ℕ) (num base width : ℕ) (format : Format)
    → 2 ≤ base
    → base ≤ 16
    → length (number_text num base width 0 format) < length cells
    → All (λ c. c ≢ 0) (number_text num base width 0 format)
    → print_number cells num (base, width, format) ≡ some (number_text num base width 0 format)
unfolding print_number number
print_number_lem cells num base width format lo hi room nonzero =
    let (tail, e) = cells-put_all [] (number_text num base width 0 format) cells room in
    let read = puts-text (number_text num base width 0 format) tail nonzero in
    let ok : (ltb base 2 || ltb 16 base) ≡ false = ground arith in
    rw (print_number, ok, e, read) refl
