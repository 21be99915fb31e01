-- ===== src/Base/Floats.antt =====
-- `float(text)` of decimal digits with a fraction, as the double that is nearest, halves to even.
use Prim.Native.Nat.{ℕ, zero, suc, ◌+◌, ◌-◌, ◌*◌, ◌/◌, ◌%◌, ◌^◌}
use mathlib.Core.Path.{◌≡◌, refl}
use mathlib.Core.Bool.{◌&&◌, ◌||◌}
use mathlib.Core.Option.{Option, none, some}
use mathlib.Core.List.{[], ◌∷◌, ◌++◌}
use micro_nux.Base.Lists.{length}
use micro_nux.Base.Tests.{ltb, leb, ◌==◌, if◌then◌else◌, Text, codes}
use micro_nux.Base.Strings.{decimal, number}

-- The number of binary digits, with fuel: each round takes one away.
bits_of : ℕ → ℕ → ℕ
bits_of zero n = 0
bits_of (suc fuel) zero = 0
bits_of (suc fuel) (suc n) = suc (bits_of fuel (suc n / 2))

-- `n / d` rounded to a natural number.
abbrev nearest : ℕ → ℕ → ℕ
nearest n d =
    let quotient = n / d in
    let rest = n % d in
    if ltb d (2 * rest) || (2 * rest == d && quotient % 2 == 1) then quotient + 1 else quotient

-- The double nearest to `numerator / 10 ** digits`, in units of the least one, 2 ** -1074. A number of
-- 2 ** 1024 and more is the infinity, which is written as 2 ** 2098 units.
unfoldable pub double_of : ℕ → ℕ → ℕ
unfolding bits_of
double_of numerator digits =
    let scaled = numerator * 2 ^ 1074 in
    let whole = scaled / 10 ^ digits in
    let shift = bits_of whole whole - 53 in
    let value = nearest scaled (10 ^ digits * 2 ^ shift) * 2 ^ shift in
    if leb (2 ^ 2098) value then 2 ^ 2098 else value

-- The infinity, in units.
unfoldable pub infinity : ℕ
infinity = 2 ^ 2098

-- A natural number in units.
unfoldable pub whole_units : ℕ → ℕ
whole_units n = n * 2 ^ 1074

-- `n / d` units rounded to a double, for a positive `d`.
unfoldable pub rounded : ℕ → ℕ → ℕ
unfolding bits_of infinity
rounded n d =
    let whole = n / d in
    let shift = bits_of whole whole - 53 in
    let value = nearest n (d * 2 ^ shift) * 2 ^ shift in
    if leb infinity value then infinity else value

-- `b - a` of doubles, where a negative difference is 0; `none` stands for the difference of infinities,
-- which is not a number.
unfoldable pub difference : ℕ → ℕ → Option ℕ
difference b a =
    if b == infinity
    then if a == infinity then none else some infinity
    else some (rounded (b - a) 1)

-- `n / e` of a finite double by a positive one or by what is not a number.
unfoldable pub quotient_of : ℕ → Option ℕ → Option ℕ
quotient_of n none = none
quotient_of n (some e) = some (if e == infinity then 0 else rounded (whole_units n) e)

-- The digits before the point, and those behind it.
split_point : Text → Text × Text
split_point [] = ([], [])
split_point (c ∷ cs) =
    let (before, after) = split_point cs in if c == b'.' then ([], cs) else (c ∷ before, after)

-- `float(text)` of a text that matches `[0-9]+(\.[0-9]+)?`.
unfoldable pub float_of : Text → ℕ
unfolding split_point
float_of text =
    let (before, after) = split_point text in double_of (decimal (before ++ after)) (length after)

one_and_a_half : float_of (codes "1.5") ≡ 3 * 2 ^ 1073
unfolding float_of double_of number
one_and_a_half = refl

-- 0.1 is 3602879701896397 / 2 ** 55.
one_tenth : float_of (codes "0.1") ≡ 3602879701896397 * 2 ^ 1019
unfolding float_of double_of number
one_tenth = refl

-- 33 / 1.5
twenty_two :
    quotient_of (whole_units 33) (difference (whole_units 2) (2 ^ 1073)) ≡ some (whole_units 22)
unfolding quotient_of difference whole_units rounded infinity
twenty_two = refl
