-- ===== src/Base/Utf8.antt =====
-- `bytes.decode("utf-8", errors="replace")` of Python: one U+FFFD for each maximal part that is no
-- beginning of a character, and one for a character that the end cuts off.
use Prim.Native.Nat.{ℕ, ◌+◌, ◌-◌, ◌*◌, ◌<◌}
use mathlib.Core.Path.{◌≡◌, refl, ap}
use mathlib.Core.Bool.{◌&&◌}
use mathlib.Core.List.{[], ◌∷◌, ◌++◌}
use native.Mathlib.Omega.{arith}
use micro_nux.Base.Tests.{ltb, leb, ◌==◌, if◌then◌else◌, Text}
use micro_nux.Base.Lists.{All}

abbrev replacement : ℕ
replacement = 0xfffd

-- Between two bytes: how many are wanted, the range of the next one, and the bits so far.
record State : Type 0 where
  wanted : ℕ
  low : ℕ
  high : ℕ
  bits : ℕ

abbrev idle : State
idle = record { wanted = 0; low = 0; high = 0; bits = 0 }

abbrev state : ℕ → ℕ → ℕ → ℕ → State
state wanted low high bits = record { wanted = wanted; low = low; high = high; bits = bits }

-- The first byte of a character.
start : ℕ → Text × State
start b =
    if ltb b 0x80
    then (b ∷ [], idle)
    else if ltb b 0xc2
    then (replacement ∷ [], idle)
    else if ltb b 0xe0
    then ([], state 1 0x80 0xbf (b - 0xc0))
    else if b == 0xe0
    then ([], state 2 0xa0 0xbf 0)
    else if b == 0xed
    then ([], state 2 0x80 0x9f 0xd)
    else if ltb b 0xf0
    then ([], state 2 0x80 0xbf (b - 0xe0))
    else if b == 0xf0
    then ([], state 3 0x90 0xbf 0)
    else if ltb b 0xf4
    then ([], state 3 0x80 0xbf (b - 0xf0))
    else if b == 0xf4
    then ([], state 3 0x80 0x8f 4)
    else (replacement ∷ [], idle)

replaced : Text × State → Text × State
replaced (text, s) = (replacement ∷ text, s)

step : State → ℕ → Text × State
unfolding start replaced
step s b =
    let bits = s.bits * 64 + (b - 0x80) in
    if s.wanted == 0
    then start b
    else if leb s.low b && leb b s.high
    then (if s.wanted == 1 then (bits ∷ [], idle) else ([], state (s.wanted - 1) 0x80 0xbf bits))
    else replaced (start b)

decode_from : State → Text → Text
unfolding step
decode_from s [] = if s.wanted == 0 then [] else replacement ∷ []
decode_from s (b ∷ bs) = let (text, s') = step s b in text ++ decode_from s' bs

unfoldable pub decode : Text → Text
unfolding decode_from
decode bytes = decode_from idle bytes

start_ascii : (b : ℕ) → b < 128 → start b ≡ (b ∷ [], idle)
unfolding start
start_ascii b h = ground arith

pub decode-ascii : (bytes : Text) → All (λ b. b < 128) bytes → decode bytes ≡ bytes
unfolding decode
decode-ascii [] h = refl
decode-ascii (b ∷ bs) h = rw (start_ascii b h.0) (ap (λ rest. b ∷ rest) (decode-ascii bs h.1))

euro :
    decode (0xe2 ∷ 0x82 ∷ 0xac ∷ 0xe2 ∷ 0x82 ∷ 65 ∷ 0xff ∷ 0xe2 ∷ [])
    ≡ 0x20ac ∷ 0xfffd ∷ 65 ∷ 0xfffd ∷ 0xfffd ∷ []
unfolding decode
euro = refl
