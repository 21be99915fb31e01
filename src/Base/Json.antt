-- ===== src/Base/Json.antt =====
-- A document that `json.load` returns, and Python's tests on its values.
use Prim.Native.Nat.{ℕ}
use mathlib.Core.Bool.{Bool, true, false}
use mathlib.Core.Option.{Option, none, some}
use micro_nux.Base.Tests.{◌==◌, if◌then◌else◌, Text, text_eq}
use micro_nux.Base.Int.{ℤ, is_nat}

-- Of a float only the integer that it equals, if there is one, is ever looked at.
mutual
  pub data Json : Type 0 where
    null : Json
    boolean : Bool → Json
    integer : ℤ → Json
    float : Option ℤ → Json
    text : Text → Json
    array : Items → Json
    object : Fields → Json

  pub data Items : Type 0 where
    nil : Items
    cons : Json → Items → Items

  -- The entries of a dict. Its keys differ from one another.
  pub data Fields : Type 0 where
    end : Fields
    field : Text → Json → Fields → Fields

-- `fields.get(key)` of a dict.
unfoldable pub get_field : Text → Fields → Option Json
get_field key end = none
get_field key (field k v fields) = if text_eq k key then some v else get_field key fields

-- `value == expected` for a text, and `count == value` for a length. `True` counts as 1.
abbrev pub is_text : Text → Option Json → Bool
is_text expected (some (text s)) = text_eq s expected
is_text expected other = false

abbrev pub is_count : ℕ → Option Json → Bool
is_count n (some (boolean true)) = n == 1
is_count n (some (boolean false)) = n == 0
is_count n (some (integer z)) = is_nat n z
is_count n (some (float (some z))) = is_nat n z
is_count n other = false
