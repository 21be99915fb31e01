-- ===== src/Base/Bytes.antt =====
-- The byte codes of Python's `struct` and `int.from_bytes` that the tools use. A byte string is a
-- list of numbers. `unpack` raises where the buffer is short; each caller tests the length first.
use Prim.Native.Nat.{ℕ, zero, suc, ◌+◌, ◌*◌, ◌/◌, ◌%◌, ◌^◌, ◌<◌, ◌≤◌}
use mathlib.Core.Path.{◌≡◌, refl}
use mathlib.Core.Logic.{inl, inr}
use mathlib.Core.List.{List, [], ◌∷◌, ◌++◌, append_assoc}
use mathlib.Core.Option.{Option, none, some}
use native.Mathlib.Nat.{pow-suc}
use native.Mathlib.Omega.{arith}
use micro_nux.Base.Tests.{ltb, if◌then◌else◌, Text, Option-cases}
use micro_nux.Base.Lists.{
  length, take, drop, All, length-take, length-drop, All-take, All-drop, take-append-drop,
  drop-drop,
}

abbrev pub IsByte : ℕ → Type 0
IsByte b = b < 256

-- The low `n` bytes of `v`, lowest first.
abbrev pub le_bytes : ℕ → ℕ → Text
le_bytes zero v = []
le_bytes (suc n) v = v % 256 ∷ le_bytes n (v / 256)

abbrev pub le_value : Text → ℕ
le_value [] = 0
le_value (b ∷ bs) = b + 256 * le_value bs

abbrev pub be_from : ℕ → Text → ℕ
be_from acc [] = acc
be_from acc (b ∷ bs) = be_from (acc * 256 + b) bs

abbrev pub be_value : Text → ℕ
be_value = be_from 0

-- `struct.pack` of one unsigned little-endian field of `n` bytes: out of range it raises.
unfoldable pub pack_le : ℕ → ℕ → Option Text
pack_le n v = if ltb v (256 ^ n) then some (le_bytes n v) else none

-- Several such fields, given by width and value.
unfoldable pub pack_fields : List (ℕ × ℕ) → Option Text
unfolding pack_le
pack_fields [] = some []
pack_fields ((n, v) ∷ fields) = elim (pack_le n v) [
  | none ↦ none
  | some bytes ↦ elim (pack_fields fields) [ none ↦ none | some rest ↦ some (bytes ++ rest) ]
]

-- `struct.unpack_from`, one field of `n` bytes at an offset.
abbrev pub le_at : ℕ → ℕ → Text → ℕ
le_at n offset buffer = le_value (take n (drop offset buffer))

abbrev pub be_at : ℕ → ℕ → Text → ℕ
be_at n offset buffer = be_value (take n (drop offset buffer))

-- The bytes of the fields, where all are in range.
abbrev pub field_bytes : List (ℕ × ℕ) → Text
field_bytes [] = []
field_bytes ((n, v) ∷ fields) = le_bytes n v ++ field_bytes fields

abbrev pub FieldsFit : List (ℕ × ℕ) → Type 0
FieldsFit [] = Unit
FieldsFit ((n, v) ∷ fields) = (v < 256 ^ n) × FieldsFit fields

pub pack_fields-field_bytes :
    (fields : List (ℕ × ℕ)) → FieldsFit fields → pack_fields fields ≡ some (field_bytes fields)
unfolding pack_fields
pack_fields-field_bytes [] h = refl
pack_fields-field_bytes ((n, v) ∷ fields) h = ground (arith, pack_fields-field_bytes fields h.1)

pub pack_fields-eq-some :
    (fields : List (ℕ × ℕ)) {bytes : Text}
    → pack_fields fields ≡ some bytes
    → FieldsFit fields × (bytes ≡ field_bytes fields)
unfolding pack_fields
pack_fields-eq-some [] h = ground arith
pack_fields-eq-some ((n, v) ∷ fields) h = elim (Option-cases (pack_fields fields)) [
  | inl e ↦ ground arith
  | inr (rest, e) ↦ ground (arith, pack_fields-eq-some fields e)
]

pub length-le_bytes : (n v : ℕ) → length (le_bytes n v) ≡ n
length-le_bytes zero v = refl
length-le_bytes (suc n) v = omega (arith, length-le_bytes n (v / 256))

pub le_bytes-IsByte : (n v : ℕ) → All IsByte (le_bytes n v)
le_bytes-IsByte zero v = tt
le_bytes-IsByte (suc n) v = (omega arith, le_bytes-IsByte n (v / 256))

pub le_value-le_bytes : (n v : ℕ) → v < 256 ^ n → le_value (le_bytes n v) ≡ v
le_value-le_bytes zero v h = omega arith
le_value-le_bytes (suc n) v h =
    omega (arith, le_value-le_bytes n (v / 256) (omega (arith, pow-suc 256 n)))

pub le_bytes-le_value : (bs : Text) → All IsByte bs → le_bytes (length bs) (le_value bs) ≡ bs
le_bytes-le_value [] h = refl
le_bytes-le_value (b ∷ bs) h =
    let head : (b + 256 * le_value bs) % 256 ≡ b = omega arith in
    let tail : (b + 256 * le_value bs) / 256 ≡ le_value bs = omega arith in
    rw (head, tail, le_bytes-le_value bs h.1)

pub le_value-lt : (bs : Text) → All IsByte bs → le_value bs < 256 ^ length bs
le_value-lt [] h = omega arith
le_value-lt (b ∷ bs) h = omega (arith, le_value-lt bs h.1, pow-suc 256 (length bs))

-- `struct.pack` of one unsigned big-endian word.
abbrev pub be_bytes : ℕ → ℕ → Text
be_bytes zero v = []
be_bytes (suc n) v = v / 256 ^ n % 256 ∷ be_bytes n v

pub be_bytes-IsByte : (n v : ℕ) → All IsByte (be_bytes n v)
be_bytes-IsByte zero v = tt
be_bytes-IsByte (suc n) v = (omega arith, be_bytes-IsByte n v)

pub le_value-take_one : (bs : Text) → All IsByte bs → le_value (take 1 bs) < 256
le_value-take_one [] h = omega arith
le_value-take_one (b ∷ bs) h = omega (arith, h.0)

-- Fields of the given widths, read one after the other from an offset.
abbrev pub read_fields : List ℕ → ℕ → Text → List (ℕ × ℕ)
read_fields [] offset buffer = []
read_fields (n ∷ ns) offset buffer = (n, le_at n offset buffer) ∷ read_fields ns (offset + n) buffer

abbrev pub widths : List ℕ → ℕ
widths [] = 0
widths (n ∷ ns) = n + widths ns

-- Packing what was read gives the buffer back.
pub field_bytes-read_fields :
    (ns : List ℕ) (offset end_offset : ℕ) (buffer : Text)
    → All IsByte buffer
    → offset + widths ns ≡ end_offset
    → end_offset ≤ length buffer
    → field_bytes (read_fields ns offset buffer) ++ drop end_offset buffer ≡ drop offset buffer
field_bytes-read_fields [] offset end_offset buffer h e le =
    let same : end_offset ≡ offset = omega arith in rw same
field_bytes-read_fields (n ∷ ns) offset end_offset buffer h e le =
    let part = take n (drop offset buffer) in
    let full : length part ≡ n =
      omega (arith, length-take n (drop offset buffer), length-drop offset buffer) in
    let back : le_bytes n (le_value part) ≡ part =
      rw full at (le_bytes-le_value part (All-take IsByte n _ (All-drop IsByte offset buffer h))) in
    let rest = field_bytes-read_fields ns (offset + n) end_offset buffer h (omega arith) le in
    rw (back, append_assoc, rest, ← drop-drop n offset (offset + n) buffer refl)
      (take-append-drop n (drop offset buffer))
