-- ===== src/Base/Hex.antt =====
-- What pkg/auth uses of package encoding/hex: EncodeToString and DecodeString.
use Prim.Native.Nat.{ℕ, ◌+◌, ◌-◌, ◌*◌, ◌/◌, ◌%◌, ◌<◌}
use mathlib.Core.Path.{◌≡◌, refl}
use mathlib.Core.Bool.{◌&&◌}
use mathlib.Core.Logic.{◌≢◌}
use mathlib.Core.Option.{Option, none, some}
use mathlib.Core.List.{[], ◌∷◌}
use native.Mathlib.Omega.{arith}
use diverge.Base.Tests.{leb, ltb, if◌then◌else◌}
use diverge.Base.Lists.{All, length}
use diverge.Base.Bytes.{Text}

hex_digit : ℕ → ℕ
hex_digit d = if ltb d 10 then b'0' + d else b'a' + d - 10

from_hex_digit : ℕ → Option ℕ
from_hex_digit c =
    if leb b'0' c && leb c b'9'
    then some (c - b'0')
    else if leb b'a' c && leb c b'f'
    then some (c - b'a' + 10)
    else if leb b'A' c && leb c b'F'
    then some (c - b'A' + 10)
    else none

unfoldable pub hex_encode : Text → Text
unfolding hex_digit
hex_encode [] = []
hex_encode (c ∷ s) = hex_digit (c / 16) ∷ hex_digit (c % 16) ∷ hex_encode s

pair_up : Option ℕ → Option ℕ → Option Text → Option Text
pair_up (some a) (some b) (some s) = some ((a * 16 + b) ∷ s)
pair_up none _ _ = none
pair_up _ none _ = none
pair_up _ _ none = none

unfoldable pub hex_decode : Text → Option Text
unfolding from_hex_digit pair_up
hex_decode [] = some []
hex_decode (a ∷ []) = none
hex_decode (a ∷ b ∷ s) = pair_up (from_hex_digit a) (from_hex_digit b) (hex_decode s)

abbrev pub IsBytes : Text → Type 0
IsBytes = All (λ c. c < 256)

from_hex_digit-hex_digit : (d : ℕ) → d < 16 → from_hex_digit (hex_digit d) ≡ some d
unfolding hex_digit from_hex_digit
from_hex_digit-hex_digit d h = ground arith

-- Decoding an encoding of bytes gives the bytes back.
pub hex_decode-hex_encode : (s : Text) → IsBytes s → hex_decode (hex_encode s) ≡ some s
unfolding hex_decode hex_encode pair_up
hex_decode-hex_encode [] h = refl
hex_decode-hex_encode (c ∷ s) (h, hs) = ground (
  arith,
  from_hex_digit-hex_digit (c / 16) (omega arith),
  from_hex_digit-hex_digit (c % 16) (omega arith),
  hex_decode-hex_encode s hs,
)

-- So byte strings with one encoding are one.
pub hex_encode-injective :
    (s t : Text) → IsBytes s → IsBytes t → hex_encode s ≡ hex_encode t → s ≡ t
hex_encode-injective s t hs ht e = cc (hex_decode-hex_encode s hs, hex_decode-hex_encode t ht)

pub length-hex_encode : (s : Text) → length (hex_encode s) ≡ 2 * length s
unfolding hex_encode
length-hex_encode [] = omega arith
length-hex_encode (c ∷ s) = omega (arith, length-hex_encode s)

pub hex_encode-ne-nil : (s : Text) → s ≢ [] → hex_encode s ≢ []
unfolding hex_encode
hex_encode-ne-nil [] h e = h refl
hex_encode-ne-nil (c ∷ s) h e = cc
