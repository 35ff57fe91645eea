-- ===== src/Prelude/Atoi.antt =====
-- `strconv.Atoi` on the bytes of a text: an optional sign and decimal digits, within an int64.
use Prim.Native.Nat.{ℕ, zero, suc, ◌+◌, ◌-◌, ◌*◌}
use mathlib.Core.Bool.{◌&&◌}
use mathlib.Core.Option.{Option, none, some}
use mathlib.Core.List.{List, [], ◌∷◌}
use botex.Prelude.Tests.{ltb, leb, ◌==◌, if◌then◌else◌}

-- `negsuc n` is -(n + 1).
pub data ℤ : Type 0 where
  pos : ℕ → ℤ
  negsuc : ℕ → ℤ

-- The value of the digits behind those that have been read.
digits : ℕ → List ℕ → Option ℕ
digits value [] = some value
digits value (c ∷ cs) =
    let rest = digits (value * 10 + (c - b'0')) cs in
    if leb b'0' c && leb c b'9' then rest else none

unsigned : List ℕ → Option ℕ
unfolding digits
unsigned [] = none
unsigned (c ∷ cs) = digits 0 (c ∷ cs)

-- The opposite of a number that is at most 2^63.
negative : ℕ → ℤ
negative zero = pos 0
negative (suc n) = negsuc n

below : ℕ → (ℕ → ℤ) → ℕ → Option ℤ
below limit make n = if ltb n limit then some (make n) else none

in_range : ℕ → (ℕ → ℤ) → Option ℕ → Option ℤ
unfolding below
in_range limit make none = none
in_range limit make (some n) = below limit make n

unfoldable pub atoi : List ℕ → Option ℤ
unfolding unsigned in_range negative
atoi [] = none
atoi (c ∷ cs) =
    if c == b'-'
    then in_range 9_223_372_036_854_775_809 negative (unsigned cs)
    else if c == b'+'
    then in_range 9_223_372_036_854_775_808 pos (unsigned cs)
    else in_range 9_223_372_036_854_775_808 pos (unsigned (c ∷ cs))
