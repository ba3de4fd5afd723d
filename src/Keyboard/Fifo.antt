-- ===== src/Keyboard/Fifo.antt =====
-- kernel/drivers/kbd.c: the ring is a bounded first-in first-out queue.
use osy.Common.{
  ℕ, zero, suc, ◌+◌, ◌-◌, ◌%◌, ◌<◌, ltb, true, false, ◌==◌, if◌then◌else◌, List, [], ◌∷◌, ◌++◌,
  length, ◌≡◌, ◌≢◌, refl, ap, ◌∙◌, ==_false, Bool-cases, inl, inr, eq-of_==, arith,
}
use osy.Keyboard.{
  WaitQueue, State, buffer_size, store_key, int_of_char, pop_waiter, kbd_handle, getc_try,
}

-- `n` keys from the index `t` on
abbrev items : (ℕ → ℕ) → (t n : ℕ) → List ℕ
items b t zero = []
items b t (suc n) = b t ∷ items b ((t + 1) % buffer_size) n

abbrev pub count : {Q : Type 0} → State Q → ℕ
count s = (s.head + buffer_size - s.tail) % buffer_size

-- The keys that wait to be read, the oldest first
abbrev pub contents : {Q : Type 0} → State Q → List ℕ
contents s = items s.buffer s.tail (count s)

abbrev pub IsRing : {Q : Type 0} → State Q → Type 0
IsRing s = (s.head < buffer_size) × (s.tail < buffer_size)

length-items : (b : ℕ → ℕ) (t n : ℕ) → length (items b t n) ≡ n
length-items b t zero = refl
length-items b t (suc n) = ap suc (length-items b ((t + 1) % buffer_size) n)

-- A key that is put behind the others is the last one.
items-snoc :
    (b : ℕ → ℕ) (t n h key : ℕ)
    → t < buffer_size
    → n < 127
    → h ≡ (t + n) % buffer_size
    → items (store_key b h key) t (suc n) ≡ items b t n ++ key ∷ []
items-snoc b t zero h key lt room at =
    let here : (t == h) ≡ true = ground (arith, at, lt) in rw here refl
items-snoc b t (suc n) h key lt room at =
    let other : (t == h) ≡ false = ==_false t h (omega (arith, at, lt, room)) in
    rw other (
      ap (λ xs. b t ∷ xs)
        (items-snoc b ((t + 1) % buffer_size) n h key (omega arith) (omega (arith, room))
          (omega (arith, at))))

-- The queue that the ring stands for: at most 127 keys.
pub data Event : Type 0 where
  press : Event
  read : Event

-- What a press does to the keys, and what a read returns and leaves: the signed character, or -11
unfoldable pub push : (key : ℕ) → List ℕ → List ℕ
push key xs = if length xs == 127 then xs else xs ++ key ∷ []

unfoldable pub pop : List ℕ → ℕ × List ℕ
pop [] = (0xfffffff5, [])
pop (x ∷ xs) = (if ltb x 128 then x else x + 0xffffff00, xs)

-- The outputs of the reads in a sequence of presses and reads, of the queue
unfoldable pub queue_outputs : List Event → List ℕ → List ℕ
unfolding push pop
queue_outputs [] xs = []
queue_outputs (press ∷ es) xs = queue_outputs es (push 0 xs)
queue_outputs (read ∷ es) xs = let (out, ys) = pop xs in out ∷ queue_outputs es ys

full_lem :
    (h t : ℕ)
    → h < buffer_size
    → t < buffer_size
    → ((h + 1) % buffer_size) ≡ t
    → ((h + buffer_size - t) % buffer_size) ≡ 127
full_lem h t a b e = omega arith

room_lem :
    (h t : ℕ)
    → h < buffer_size
    → t < buffer_size
    → ((h + 1) % buffer_size) ≢ t
    → (((h + buffer_size - t) % buffer_size) < 127)
      × ((((h + 1) % buffer_size + buffer_size - t) % buffer_size)
          ≡ suc ((h + buffer_size - t) % buffer_size))
      × (h ≡ (t + (h + buffer_size - t) % buffer_size) % buffer_size)
room_lem h t a b e = (omega arith, omega arith, omega arith)

taken_lem :
    (h t : ℕ)
    → h < buffer_size
    → t < buffer_size
    → h ≢ t
    → ((h + buffer_size - t) % buffer_size)
      ≡ suc ((h + buffer_size - (t + 1) % buffer_size) % buffer_size)
taken_lem h t a b e = omega arith

module _ (𝓠 : WaitQueue) where
  pop_waiter-contents :
      (s : State 𝓠.Queue)
      → (contents (pop_waiter 𝓠 s) ≡ contents s) × (IsRing s → IsRing (pop_waiter 𝓠 s))
  unfolding pop_waiter
  pop_waiter-contents s = elim (Bool-cases (𝓠.plist_empty s.waiting)) [
    | inl e ↦ rw e (refl, λ r. r)
    | inr e ↦ rw e (refl, λ r. r)
  ]

  -- A press puts the key 0 behind the keys that wait, and drops it when there are 127 of them.
  pub kbd_handle-push :
      (s : State 𝓠.Queue)
      → IsRing s
      → (contents (kbd_handle 𝓠 s) ≡ push 0 (contents s)) × IsRing (kbd_handle 𝓠 s)
  unfolding kbd_handle push
  kbd_handle-push s r =
      let long = length-items s.buffer s.tail (count s) in
      elim (Bool-cases ((s.head + 1) % buffer_size == s.tail)) [
        | inl e ↦
            let full = full_lem s.head s.tail (r.0) (r.1) (eq-of_== _ _ e) in
            let yes : (length (contents s) == 127) ≡ true = ground (arith, long, full) in
            rw (e, yes) (refl, r)
        | inr e ↦
            let room = room_lem s.head s.tail (r.0) (r.1) (λ x. ground (arith, e, x)) in
            let no : (length (contents s) == 127) ≡ false = ground (arith, long, room.0) in
            let u : State 𝓠.Queue = record s {
              buffer = store_key s.buffer s.head 0;
              head = (s.head + 1) % buffer_size;
            } in
            let kept = pop_waiter-contents u in
            let more : contents u ≡ contents s ++ 0 ∷ [] =
              ap (items (store_key s.buffer s.head 0) s.tail) (room.1)
              ∙ items-snoc s.buffer s.tail (count s) s.head 0 (r.1) (room.0) (room.2) in
            rw (e, no) (kept.0 ∙ more, kept.1 (omega arith, r.1))
      ]

  -- A read that does not wait takes the oldest key, if there is one.
  pub getc_try-pop :
      (s : State 𝓠.Queue)
      → IsRing s
      → ((getc_try 𝓠 s).0 ≡ (pop (contents s)).0)
        × (contents (getc_try 𝓠 s).1 ≡ (pop (contents s)).1)
        × IsRing (getc_try 𝓠 s).1
  unfolding getc_try pop int_of_char
  getc_try-pop s r = elim (Bool-cases (s.head == s.tail)) [
    | inl e ↦
        let same = eq-of_== s.head s.tail e in
        let none_left : count s ≡ 0 = omega (arith, same, r.0) in rw (e, none_left) (refl, refl, r)
    | inr e ↦
        let more = taken_lem s.head s.tail (r.0) (r.1) (λ x. ground (arith, e, x)) in
        rw (e, more) (refl, refl, (r.0, omega arith))
  ]

  unfoldable pub outputs : List Event → State 𝓠.Queue → List ℕ
  unfolding kbd_handle getc_try
  outputs [] s = []
  outputs (press ∷ es) s = outputs es (kbd_handle 𝓠 s)
  outputs (read ∷ es) s = let (out, t) = getc_try 𝓠 s in out ∷ outputs es t

  -- For all keyboard interrupts and calls of getc_try in any order, from head and tail indices
  -- inside the buffer, the calls return what a first-in first-out queue of at most 127 characters
  -- returns that starts with the ring's contents, into which each interrupt puts the character 0 if
  -- there is room: the oldest character as a signed number, or -11 from the empty queue, both in 32
  -- bits.
  pub outputs-queue :
      (es : List Event) (s : State 𝓠.Queue)
      → IsRing s
      → outputs es s ≡ queue_outputs es (contents s)
  unfolding outputs queue_outputs
  outputs-queue [] s r = refl
  outputs-queue (press ∷ es) s r =
      let step = kbd_handle-push s r in
      outputs-queue es (kbd_handle 𝓠 s) (step.1) ∙ ap (queue_outputs es) (step.0)
  outputs-queue (read ∷ es) s r =
      let step = getc_try-pop s r in
      let rest = outputs-queue es (getc_try 𝓠 s).1 (step.2) in
      ap (λ o. o ∷ outputs es (getc_try 𝓠 s).1) (step.0)
      ∙ ap (λ os. (pop (contents s)).0 ∷ os) (rest ∙ ap (queue_outputs es) (step.1))
