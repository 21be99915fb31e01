-- ===== src/Base/Strings.antt =====
-- Python's tests and formats on texts: `in`, `find`, `startswith`, `endswith`, `join`, `sorted`,
-- decimal and hexadecimal forms.
use Prim.Native.Nat.{ℕ, zero, suc, ◌+◌, ◌-◌, ◌*◌, ◌/◌, ◌%◌}
use mathlib.Core.Bool.{Bool, true, false, ◌&&◌, ◌||◌}
use mathlib.Core.List.{List, [], ◌∷◌, ◌++◌, reverse}
use micro_nux.Base.Lists.{length, take}
use micro_nux.Base.Tests.{ltb, leb, ◌==◌, if◌then◌else◌, Text}

unfoldable pub starts_with : Text → Text → Bool
starts_with text [] = true
starts_with [] (p ∷ ps) = false
starts_with (c ∷ cs) (p ∷ ps) = c == p && starts_with cs ps

-- `text.endswith(suffix)`
unfoldable pub ends_with : Text → Text → Bool
unfolding starts_with
ends_with text suffix = starts_with (reverse text) (reverse suffix)

-- `needle in text`
unfoldable pub is_within : Text → Text → Bool
unfolding starts_with
is_within needle [] = starts_with [] needle
is_within needle (c ∷ cs) = starts_with (c ∷ cs) needle || is_within needle cs

-- The order of texts by code points.
unfoldable pub text_le : Text → Text → Bool
text_le [] t = true
text_le (a ∷ s) [] = false
text_le (a ∷ s) (b ∷ t) = ltb a b || (a == b && text_le s t)

-- `sorted(items, key=...)`: stable insertion.
module _ {ℓ} {A : Type ℓ} (key : A → Text) where
  unfoldable pub insert_sorted : A → List A → List A
  unfolding text_le
  insert_sorted x [] = x ∷ []
  insert_sorted x (y ∷ ys) = if text_le (key x) (key y) then x ∷ y ∷ ys else y ∷ insert_sorted x ys

  unfoldable pub sorted : List A → List A
  unfolding insert_sorted
  sorted [] = []
  sorted (x ∷ xs) = insert_sorted x (sorted xs)

-- `"\\n".join(lines)`
unfoldable pub join : Text → List Text → Text
join separator [] = []
join separator (line ∷ []) = line
join separator (line ∷ next ∷ lines) = line ++ (separator ++ join separator (next ∷ lines))

-- `f"{n:04d}"` of a number below ten thousand.
abbrev pub four_digits : ℕ → Text
four_digits n =
    (b'0' + n / 1000 % 10) ∷ (b'0' + n / 100 % 10) ∷ (b'0' + n / 10 % 10) ∷ (b'0' + n % 10) ∷ []

-- `int(digits)` and `int(digits, 16)` of a text of such digits.
abbrev digit_of : ℕ → ℕ
digit_of c = if leb b'a' c then c - b'a' + 10 else if leb b'A' c then c - b'A' + 10 else c - b'0'

unfoldable pub number : ℕ → ℕ → Text → ℕ
number base acc [] = acc
number base acc (c ∷ cs) = number base (acc * base + digit_of c) cs

abbrev pub decimal : Text → ℕ
decimal = number 10 0

abbrev pub hexadecimal : Text → ℕ
hexadecimal = number 16 0

abbrev hex_digit : ℕ → ℕ
hex_digit n = if ltb n 10 then b'0' + n else b'a' + n - 10

-- `digest.hexdigest()`
unfoldable pub hex_text : Text → Text
hex_text [] = []
hex_text (b ∷ bs) = hex_digit (b / 16) ∷ hex_digit (b % 16) ∷ hex_text bs

-- `str(n)`: the last digit first, with fuel for the digits, since each takes a digit away.
str_from : ℕ → ℕ → Text → Text
str_from zero n digits = digits
str_from (suc fuel) n digits = elim (n / 10) [
  | zero ↦ (b'0' + n % 10) ∷ digits
  | suc more ↦ str_from fuel (suc more) ((b'0' + n % 10) ∷ digits)
]

unfoldable pub str : ℕ → Text
unfolding str_from
str n = str_from (suc n) n []

-- `text.removesuffix(suffix)`
unfoldable pub remove_suffix : Text → Text → Text
unfolding ends_with
remove_suffix text suffix =
    if ends_with text suffix then take (length text - length suffix) text else text

-- `[str(n) for n in range(first, first + count)]`
unfoldable pub numbers_from : ℕ → ℕ → List Text
numbers_from first zero = []
numbers_from first (suc count) = str first ∷ numbers_from (first + 1) count

-- A character that `shlex.quote` leaves bare: an ASCII letter or digit, or one of `_@%+=:,./-`.
abbrev is_bare : ℕ → Bool
is_bare c =
    (leb b'a' c && leb c b'z')
    || (leb b'A' c && leb c b'Z')
    || (leb b'0' c && leb c b'9')
    || c == b'_'
    || c == b'@'
    || c == b'%'
    || c == b'+'
    || c == b'='
    || c == b':'
    || c == b','
    || c == b'.'
    || c == b'/'
    || c == b'-'

all_bare : Text → Bool
all_bare [] = true
all_bare (c ∷ cs) = is_bare c && all_bare cs

-- Each single quote closes the quotes, stands in double ones, and opens the quotes again.
requoted : Text → Text
requoted [] = []
requoted (c ∷ cs) = if c == 39 then 39 ∷ 34 ∷ 39 ∷ 34 ∷ 39 ∷ requoted cs else c ∷ requoted cs

-- `shlex.quote(text)`
unfoldable pub shell_quote : Text → Text
unfolding all_bare requoted
shell_quote [] = 39 ∷ 39 ∷ []
shell_quote (c ∷ cs) = if all_bare (c ∷ cs) then c ∷ cs else 39 ∷ (requoted (c ∷ cs) ++ (39 ∷ []))
