-- ===== src/Support/Strconv.antt =====
-- Package strconv as the code uses it: Atoi on 64 bits and ParseBool.
use goosed.Support.Tests.{leb, ◌==◌, if◌then◌else◌}
use goosed.Support.Lists.{any}
use goosed.Support.Text.{Text, lit, text_eq}
use Prim.Native.Nat.{ℕ, zero, suc, ◌+◌, ◌-◌, ◌*◌, ◌^◌}
use mathlib.Core.Bool.{Bool, true, false, ◌&&◌}
use mathlib.Core.List.{[], ◌∷◌}
use mathlib.Core.Option.{Option, none, some}

-- int, as strconv.Atoi returns it: `negsuc n` is -(n + 1).
pub data ℤ : Type 0 where
  pos : ℕ → ℤ
  negsuc : ℕ → ℤ

abbrev is_digit : ℕ → Bool
is_digit c = leb 48 c && leb c 57

-- The decimal number of the digits, read after `n`; none at anything else than a digit.
abbrev digits : ℕ → Text → Option ℕ
digits n [] = some n
digits n (c ∷ s) = let rest = digits (n * 10 + (c - 48)) s in if is_digit c then rest else none

abbrev magnitude : Text → Option ℕ
magnitude [] = none
magnitude (c ∷ s) = digits 0 (c ∷ s)

abbrev in_range : ℕ → Option ℕ → Option ℕ
in_range bound none = none
in_range bound (some n) = if leb n bound then some n else none

abbrev positive : Option ℕ → Option ℤ
positive none = none
positive (some n) = some (pos n)

abbrev negative : Option ℕ → Option ℤ
negative none = none
negative (some zero) = some (pos 0)
negative (some (suc n)) = some (negsuc n)

-- strconv.Atoi on 64 bits
unfoldable pub atoi : Text → Option ℤ
atoi [] = none
atoi (c ∷ s) =
    if c == 43
    then positive (in_range (2 ^ 63 - 1) (magnitude s))
    else if c == 45
    then negative (in_range (2 ^ 63) (magnitude s))
    else positive (in_range (2 ^ 63 - 1) (magnitude (c ∷ s)))

-- strconv.ParseBool
unfoldable pub parse_bool : Text → Option Bool
unfolding text_eq any
parse_bool s =
    if any (text_eq s) (lit "1" ∷ lit "t" ∷ lit "T" ∷ lit "TRUE" ∷ lit "true" ∷ lit "True" ∷ [])
    then some true
    else if any (text_eq s)
        (lit "0" ∷ lit "f" ∷ lit "F" ∷ lit "FALSE" ∷ lit "false" ∷ lit "False" ∷ [])
    then some false
    else none
