-- ===== src/Base/Number.antt =====
-- Numbers and truth values in a text, as package strconv reads them.
use Prim.Native.Nat.{ℕ, ◌+◌, ◌-◌, ◌*◌, ◌^◌}
use mathlib.Core.Bool.{Bool, true, false, ◌&&◌, ◌||◌}
use mathlib.Core.List.{List, [], ◌∷◌}
use mathlib.Core.Option.{Option, none, some}
use go_exercise.Base.Int.{ℤ, pos, negsuc}
use go_exercise.Base.Tests.{ltb, leb, ◌==◌, if◌then◌else◌}
use go_exercise.Base.Text.{Text, codes, text_eq}

-- The decimal digits behind those read so far.
digits : ℕ → Text → Option ℕ
digits n [] = some n
digits n (c ∷ s) = if leb b'0' c && leb c b'9' then digits (n * 10 + (c - b'0')) s else none

some_digits : Text → Option ℕ
unfolding digits
some_digits [] = none
some_digits (c ∷ s) = digits 0 (c ∷ s)

-- The range of int64.
in_range : Bool → Option ℕ → Option ℤ
in_range negative none = none
in_range false (some n) = if ltb n (2 ^ 63) then some (pos n) else none
in_range true (some n) =
    if n == 0 then some (pos 0) else if leb n (2 ^ 63) then some (negsuc (n - 1)) else none

-- `strconv.Atoi`, and `strconv.ParseInt` to base 10 and 64 bits: `none` for an error.
unfoldable pub parse_int : Text → Option ℤ
unfolding some_digits in_range
parse_int [] = none
parse_int (c ∷ s) =
    if c == b'-'
    then in_range true (some_digits s)
    else if c == b'+'
    then in_range false (some_digits s)
    else in_range false (some_digits (c ∷ s))

is_one_of : Text → List Text → Bool
is_one_of s [] = false
is_one_of s (t ∷ ts) = text_eq s t || is_one_of s ts

-- `strconv.ParseBool`
unfoldable pub parse_bool : Text → Option Bool
unfolding is_one_of
parse_bool s =
    if is_one_of s
      (codes "1" ∷ codes "t" ∷ codes "T" ∷ codes "TRUE" ∷ codes "true" ∷ codes "True" ∷ [])
    then some true
    else if is_one_of s
        (codes "0" ∷ codes "f" ∷ codes "F" ∷ codes "FALSE" ∷ codes "false" ∷ codes "False" ∷ [])
    then some false
    else none
