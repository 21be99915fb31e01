-- ===== src/Base/Numbers.antt =====
-- `int(text, 0)` and `bytes.fromhex(text)` of the standard library, on texts of ASCII characters.
-- (Python also accepts the decimal digits and the spaces of other scripts.)
use Prim.Native.Nat.{ℕ, ◌+◌, ◌-◌, ◌*◌, ◌<◌}
use mathlib.Core.Path.{◌≡◌, refl}
use mathlib.Core.Bool.{Bool, true, false, ◌&&◌, ◌||◌}
use mathlib.Core.Logic.{inl, inr}
use mathlib.Core.List.{[], ◌∷◌, reverse}
use mathlib.Core.Option.{Option, none, some}
use native.Mathlib.Omega.{arith}
use micro_nux.Base.Tests.{ltb, leb, ◌==◌, if◌then◌else◌, Text, codes, Bool-cases, Option-cases}
use micro_nux.Base.Bytes.{IsByte}
use micro_nux.Base.Lists.{All}
use micro_nux.Base.Int.{ℤ, pos, negsuc, negate}

-- The value of a digit or a letter, as `int` counts them.
digit_value : ℕ → Option ℕ
digit_value c =
    if leb b'0' c && leb c b'9'
    then some (c - b'0')
    else if leb b'a' c && leb c b'z'
    then some (c - b'a' + 10)
    else if leb b'A' c && leb c b'Z'
    then some (c - b'A' + 10)
    else none

-- The spaces of an ASCII text, for both functions.
is_ascii_space : ℕ → Bool
is_ascii_space c = c == 32 || (leb 9 c && leb c 13)

skip_spaces : Text → Text
unfolding is_ascii_space
skip_spaces [] = []
skip_spaces (c ∷ cs) = elim (is_ascii_space c) [ true ↦ skip_spaces cs | false ↦ c ∷ cs ]

-- The text without the spaces at its ends.
strip : Text → Text
unfolding skip_spaces
strip s = reverse (skip_spaces (reverse (skip_spaces s)))

-- Digits with single underscores between them. The flag is set after a digit.
digits : ℕ → ℕ → Bool → Text → Option ℕ
unfolding digit_value
digits base acc after_digit [] = if after_digit then some acc else none
digits base acc after_digit (c ∷ cs) = elim (c == b'_') [
  | true ↦ elim after_digit [ true ↦ digits base acc false cs | false ↦ none ]
  | false ↦ elim (digit_value c) [
    | none ↦ none
    | some d ↦ elim (ltb d base) [ true ↦ digits base (acc * base + d) true cs | false ↦ none ]
  ]
]

-- One underscore may stand between a prefix and its digits.
prefixed : ℕ → Text → Option ℕ
unfolding digits
prefixed base [] = none
prefixed base (c ∷ cs) = digits base 0 false (if c == b'_' then cs else c ∷ cs)

-- A decimal number has no leading zero, but zero itself may have more than one.
decimal : Text → Option ℕ
unfolding digits
decimal [] = none
decimal (c ∷ cs) = elim (digits 10 0 false (c ∷ cs)) [
  | none ↦ none
  | some n ↦ if c == b'0' && ltb 0 n then none else some n
]

unsigned : Text → Option ℕ
unfolding prefixed decimal
unsigned (z ∷ x ∷ cs) =
    if z == b'0' && (x == b'x' || x == b'X')
    then prefixed 16 cs
    else if z == b'0' && (x == b'o' || x == b'O')
    then prefixed 8 cs
    else if z == b'0' && (x == b'b' || x == b'B')
    then prefixed 2 cs
    else decimal (z ∷ x ∷ cs)
unsigned cs = decimal cs

signed : Text → Option ℤ
unfolding unsigned
signed [] = none
signed (c ∷ cs) =
    if c == b'-'
    then elim (unsigned cs) [ none ↦ none | some n ↦ some (negate n) ]
    else elim (unsigned (if c == b'+' then cs else c ∷ cs)) [ none ↦ none | some n ↦ some (pos n) ]

-- `int(text, 0)`, or `none` for the `ValueError`.
unfoldable pub parse_int : Text → Option ℤ
unfolding strip signed
parse_int s = signed (strip s)

hex_value : ℕ → Option ℕ
unfolding digit_value
hex_value c = elim (digit_value c) [ none ↦ none | some d ↦ if ltb d 16 then some d else none ]

hex_pair : ℕ → ℕ → Option ℕ
unfolding hex_value
hex_pair c d = elim (hex_value c) [
  | none ↦ none
  | some hi ↦ elim (hex_value d) [ none ↦ none | some lo ↦ some (hi * 16 + lo) ]
]

-- `bytes.fromhex(text)`: spaces may stand between bytes, never inside one.
unfoldable pub from_hex : Text → Option Text
unfolding is_ascii_space hex_pair
from_hex [] = some []
from_hex (c ∷ []) = if is_ascii_space c then some [] else none
from_hex (c ∷ d ∷ cs) = elim (is_ascii_space c) [
  | true ↦ from_hex (d ∷ cs)
  | false ↦ elim (hex_pair c d) [
    | none ↦ none
    | some b ↦ elim (from_hex cs) [ none ↦ none | some bs ↦ some (b ∷ bs) ]
  ]
]

hex_pair-lt : (c d : ℕ) {b : ℕ} → hex_pair c d ≡ some b → b < 256
unfolding hex_pair
hex_pair-lt c d h = ground arith

-- `fromhex` makes bytes.
pub from_hex-IsByte : (s : Text) {bytes : Text} → from_hex s ≡ some bytes → All IsByte bytes
unfolding from_hex
from_hex-IsByte [] {bytes} h = let e : bytes ≡ [] = ground arith in rw e tt
from_hex-IsByte (c ∷ []) {bytes} h = let e : bytes ≡ [] = ground arith in rw e tt
from_hex-IsByte (c ∷ d ∷ cs) {bytes} h = elim (Bool-cases (is_ascii_space c)) [
  | inl space ↦ from_hex-IsByte (d ∷ cs) (rw (space, from_hex) at h)
  | inr digit ↦ elim (Option-cases (hex_pair c d)) [
    | inl e ↦ absurd (ground arith)
    | inr (b, pair) ↦ elim (Option-cases (from_hex cs)) [
      | inl e ↦ absurd (ground arith)
      | inr (bs, others) ↦
          let e : bytes ≡ b ∷ bs = ground arith in
          rw e (hex_pair-lt c d pair, from_hex-IsByte cs others)
    ]
  ]
]

parse_int_hex : parse_int (codes " 0x1_F ") ≡ some (pos 31)
unfolding parse_int
parse_int_hex = refl

parse_int_minus : parse_int (codes "-20") ≡ some (negsuc 19)
unfolding parse_int
parse_int_minus = refl

parse_int_leading : parse_int (codes "010") ≡ none
unfolding parse_int
parse_int_leading = refl

from_hex_pairs : from_hex (codes "0a FF") ≡ some (10 ∷ 255 ∷ [])
unfolding from_hex
from_hex_pairs = refl

from_hex_odd : from_hex (codes "0a F") ≡ none
unfolding from_hex
from_hex_odd = refl
