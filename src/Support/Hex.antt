-- ===== src/Support/Hex.antt =====
-- Package encoding/hex on bytes: EncodeToString and DecodeString.
use goosed.Support.Tests.{ltb, leb, if◌then◌else◌}
use goosed.Support.Lists.{All}
use goosed.Support.Text.{Text, to_lower, lower_rune, equal_fold, text_eq_iff}
use Prim.Native.Nat.{ℕ, ◌+◌, ◌-◌, ◌*◌, ◌/◌, ◌%◌, ◌<◌}
use mathlib.Core.Path.{◌≡◌, refl, ap, sym, ◌∙◌}
use mathlib.Core.Bool.{true, ◌&&◌}
use mathlib.Core.List.{List, [], ◌∷◌}
use mathlib.Core.Option.{Option, none, some}
use native.Mathlib.Omega.{arith}

abbrev pub hex_digit : ℕ → ℕ
hex_digit n = if ltb n 10 then n + 48 else n + 87

-- hex.EncodeToString
unfoldable pub hex_encode : List ℕ → Text
hex_encode [] = []
hex_encode (b ∷ bs) = hex_digit (b / 16) ∷ hex_digit (b % 16) ∷ hex_encode bs

unfoldable pub digit_value : ℕ → Option ℕ
digit_value c =
    if leb 48 c && leb c 57
    then some (c - 48)
    else if leb 97 c && leb c 102
    then some (c - 87)
    else if leb 65 c && leb c 70
    then some (c - 55)
    else none

abbrev pub with_byte : Option ℕ → Option ℕ → Option (List ℕ) → Option (List ℕ)
with_byte (some a) (some b) (some bs) = some ((a * 16 + b) ∷ bs)
with_byte (some a) (some b) none = none
with_byte (some a) none _ = none
with_byte none _ _ = none

-- hex.DecodeString
unfoldable pub hex_decode : Text → Option (List ℕ)
unfolding digit_value
hex_decode [] = some []
hex_decode (c ∷ []) = none
hex_decode (c ∷ d ∷ s) = with_byte (digit_value c) (digit_value d) (hex_decode s)

digit_value-hex_digit : (n : ℕ) → n < 16 → digit_value (hex_digit n) ≡ some n
unfolding digit_value
digit_value-hex_digit n h = ground arith

digit_value-lower_rune : (c : ℕ) → digit_value (lower_rune c) ≡ digit_value c
unfolding digit_value lower_rune
digit_value-lower_rune c = ground arith

pub hex_decode-hex_encode :
    (bs : List ℕ) → All (λ b. b < 256) bs → hex_decode (hex_encode bs) ≡ some bs
unfolding hex_encode hex_decode
hex_decode-hex_encode [] h = refl
hex_decode-hex_encode (b ∷ bs) (h, hs) = ground (
  arith,
  digit_value-hex_digit (b / 16),
  digit_value-hex_digit (b % 16),
  hex_decode-hex_encode bs hs,
)

hex_decode-to_lower : (s : Text) → hex_decode (to_lower s) ≡ hex_decode s
unfolding hex_decode to_lower
hex_decode-to_lower [] = refl
hex_decode-to_lower (c ∷ []) = refl
hex_decode-to_lower (c ∷ d ∷ s) =
    cc (digit_value-lower_rune c, digit_value-lower_rune d, hex_decode-to_lower s)

-- The case of the digits does not matter.
pub hex_decode_fold : (s t : Text) → equal_fold s t ≡ true → hex_decode s ≡ hex_decode t
unfolding equal_fold
hex_decode_fold s t h =
    sym (hex_decode-to_lower s)
    ∙ ap hex_decode ((text_eq_iff (to_lower s) (to_lower t)).0 h)
    ∙ hex_decode-to_lower t
