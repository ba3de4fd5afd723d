-- ===== src/Common/Monad.antt =====
-- Commands over a state: `none` is a failed assertion, a panic or an access through NULL.
use mathlib.Core.Option.{Option, none, some}
use mathlib.Core.Bool.{Bool, true, false}

abbrev pub Cmd : Type 0 → Type 0 → Type 0
Cmd S A = S → Option (A × S)

module _ {S A : Type 0} where
  abbrev pub pure : A → Cmd S A
  pure a s = some (a, s)

  abbrev pub fail : Cmd S A
  fail s = none

module _ {S A B : Type 0} where
  abbrev pub and_then : Option (A × S) → (A → Cmd S B) → Option (B × S)
  and_then none f = none
  and_then (some (a, s)) f = f a s

  infixl 5 ◌>>=◌ ◌>>◌
  abbrev pub ◌>>=◌ : Cmd S A → (A → Cmd S B) → Cmd S B
  ◌>>=◌ m f s = and_then (m s) f

  abbrev pub ◌>>◌ : Cmd S A → Cmd S B → Cmd S B
  m >> k = m >>= λ _. k

-- `assert (b)` of lib/debug.h, in a kernel that is built with checks
abbrev pub assert : {S : Type 0} → Bool → Cmd S (Unit {0})
assert true s = some (tt, s)
assert false s = none

-- A run that does not fail, with a postcondition.
abbrev pub Returns : {S A : Type 0} → (A → S → Type 0) → Option (A × S) → Type 0
Returns P none = ⊥
Returns P (some (a, s)) = P a s

pub Returns-bind :
    {S A B : Type 0} (P : A → S → Type 0) (Q : B → S → Type 0) (r : Option (A × S))
    (f : A → Cmd S B)
    → Returns P r
    → ((a : A) (s : S) → P a s → Returns Q (f a s))
    → Returns Q (and_then r f)
Returns-bind P Q none f h k = h
Returns-bind P Q (some (a, s)) f h k = k a s h

pub Returns-mono :
    {S A : Type 0} (P Q : A → S → Type 0) (r : Option (A × S))
    → Returns P r
    → ((a : A) (s : S) → P a s → Q a s)
    → Returns Q r
Returns-mono P Q none h k = h
Returns-mono P Q (some (a, s)) h k = k a s h

-- A postcondition of every run that does not fail.
abbrev pub Ensures : {S A : Type 0} → (A → S → Type 0) → Option (A × S) → Type 0
Ensures P none = Unit
Ensures P (some (a, s)) = P a s

pub Ensures-bind :
    {S A B : Type 0} (P : A → S → Type 0) (Q : B → S → Type 0) (r : Option (A × S))
    (f : A → Cmd S B)
    → Ensures P r
    → ((a : A) (s : S) → P a s → Ensures Q (f a s))
    → Ensures Q (and_then r f)
Ensures-bind P Q none f h k = tt
Ensures-bind P Q (some (a, s)) f h k = k a s h

pub Returns-and :
    {S A : Type 0} (P Q : A → S → Type 0) (r : Option (A × S))
    → Returns P r
    → Ensures Q r
    → Returns (λ a s. P a s × Q a s) r
Returns-and P Q none h k = h
Returns-and P Q (some (a, s)) h k = (h, k)

pub Ensures-mono :
    {S A : Type 0} (P Q : A → S → Type 0) (r : Option (A × S))
    → Ensures P r
    → ((a : A) (s : S) → P a s → Q a s)
    → Ensures Q r
Ensures-mono P Q none h k = tt
Ensures-mono P Q (some (a, s)) h k = k a s h

pub Ensures-any : {S A : Type 0} (r : Option (A × S)) → Ensures (λ _ _. Unit) r
Ensures-any none = tt
Ensures-any (some (a, s)) = tt
