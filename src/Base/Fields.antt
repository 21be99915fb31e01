-- ===== src/Base/Fields.antt =====
-- Records of little-endian fields: `struct.pack` and `struct.unpack` of one format undo each other, and the
-- last field may be the checksum of the rest.
use Prim.Native.Nat.{ℕ, ◌+◌, ◌-◌, ◌^◌, ◌<◌, ◌≤◌}
use mathlib.Core.Path.{◌≡◌, refl, sym, ap, subst, ◌∙◌}
use mathlib.Core.List.{List, [], ◌∷◌, ◌++◌, append_assoc, append-nil}
use mathlib.Core.Option.{some}
use native.Mathlib.Omega.{arith}
use micro_nux.Base.Tests.{Text}
use micro_nux.Base.Lists.{
  length, take, drop, All, All-append, drop-length, length-append, length-take, length-drop,
  take-append, drop-append, All-take, All-drop,
}
use micro_nux.Base.Bytes.{
  le_bytes-IsByte, field_bytes-read_fields, IsByte, FieldsFit, le_at, le_bytes, field_bytes,
  length-le_bytes, le_value-le_bytes, le_value-lt, pack_fields, pack_fields-field_bytes,
  read_fields, widths,
}
use micro_nux.Base.Crc32.{crc32}

abbrev pub widths_of : List (ℕ × ℕ) → List ℕ
widths_of [] = []
widths_of ((n, v) ∷ fields) = n ∷ widths_of fields

pub field_bytes-append :
    (xs ys : List (ℕ × ℕ)) → field_bytes (xs ++ ys) ≡ field_bytes xs ++ field_bytes ys
field_bytes-append [] ys = refl
field_bytes-append ((n, v) ∷ xs) ys =
    rw (field_bytes-append xs ys, append_assoc (le_bytes n v) (field_bytes xs) (field_bytes ys))

pub length-field_bytes :
    (fields : List (ℕ × ℕ)) → length (field_bytes fields) ≡ widths (widths_of fields)
length-field_bytes [] = refl
length-field_bytes ((n, v) ∷ fields) = omega (
  arith,
  length-append (le_bytes n v) (field_bytes fields),
  length-le_bytes n v,
  length-field_bytes fields,
)

pub FieldsFit-append : (xs ys : List (ℕ × ℕ)) → FieldsFit xs → FieldsFit ys → FieldsFit (xs ++ ys)
FieldsFit-append [] ys hx hy = hy
FieldsFit-append ((n, v) ∷ xs) ys hx hy = (hx.0, FieldsFit-append xs ys hx.1 hy)

-- A record whose last field is the checksum of the bytes before it.
abbrev pub sealed : List (ℕ × ℕ) → ℕ → List (ℕ × ℕ)
sealed fields crc = fields ++ ((4, crc) ∷ [])

abbrev pub sealed_bytes : List (ℕ × ℕ) → Text
sealed_bytes fields = field_bytes fields ++ le_bytes 4 (crc32 (field_bytes fields))

pub FieldsFit-before : (xs ys : List (ℕ × ℕ)) → FieldsFit (xs ++ ys) → FieldsFit xs
FieldsFit-before [] ys h = tt
FieldsFit-before ((n, v) ∷ xs) ys h = (h.0, FieldsFit-before xs ys h.1)

pub field_bytes-IsByte : (fields : List (ℕ × ℕ)) → All IsByte (field_bytes fields)
field_bytes-IsByte [] = tt
field_bytes-IsByte ((n, v) ∷ fields) =
    All-append IsByte (le_bytes n v) (field_bytes fields) (le_bytes-IsByte n v)
      (field_bytes-IsByte fields)

pub sealed_bytes-IsByte : (fields : List (ℕ × ℕ)) → All IsByte (sealed_bytes fields)
sealed_bytes-IsByte fields =
    All-append IsByte (field_bytes fields) (le_bytes 4 (crc32 (field_bytes fields)))
      (field_bytes-IsByte fields) (le_bytes-IsByte 4 (crc32 (field_bytes fields)))

-- What is read after a prefix is what was packed.
read_after :
    (fields : List (ℕ × ℕ)) (prefix : Text) (offset : ℕ)
    → FieldsFit fields
    → offset ≡ length prefix
    → read_fields (widths_of fields) offset (prefix ++ field_bytes fields) ≡ fields
read_after [] prefix offset fit e = refl
read_after ((n, v) ∷ fields) prefix offset fit e =
    let head = le_bytes n v in
    let rest = field_bytes fields in
    let there : drop offset (prefix ++ (head ++ rest)) ≡ head ++ rest =
      drop-append offset prefix (head ++ rest) e in
    let taken : take n (head ++ rest) ≡ head =
      take-append n head rest (sym (length-le_bytes n v)) in
    let value : le_at n offset (prefix ++ (head ++ rest)) ≡ v =
      rw (there, taken) (le_value-le_bytes n v fit.0) in
    let longer : offset + n ≡ length (prefix ++ head) =
      omega (arith, length-append prefix head, length-le_bytes n v, e) in
    let tail = read_after fields (prefix ++ head) (offset + n) fit.1 longer in
    let same : (prefix ++ head) ++ rest ≡ prefix ++ (head ++ rest) =
      append_assoc prefix head rest in
    let tail_here = rw same at tail in λ i. (n, value i) ∷ tail_here i

pub read_fields-field_bytes :
    (fields : List (ℕ × ℕ))
    → FieldsFit fields
    → read_fields (widths_of fields) 0 (field_bytes fields) ≡ fields
read_fields-field_bytes fields fit = read_after fields [] 0 fit refl

pub read_fields-FieldsFit :
    (ns : List ℕ) (offset : ℕ) (buffer : Text)
    → All IsByte buffer
    → offset + widths ns ≤ length buffer
    → FieldsFit (read_fields ns offset buffer)
read_fields-FieldsFit [] offset buffer bytes le = tt
read_fields-FieldsFit (n ∷ ns) offset buffer bytes le =
    let part = take n (drop offset buffer) in
    let lt = le_value-lt part (All-take IsByte n _ (All-drop IsByte offset buffer bytes)) in
    let full : length part ≡ n =
      omega (arith, length-take n (drop offset buffer), length-drop offset buffer) in
    (rw full at lt, read_fields-FieldsFit ns (offset + n) buffer bytes (omega arith))

-- Packing all the fields that were read gives the buffer back.
pub field_bytes-read_all :
    (ns : List ℕ) (buffer : Text)
    → All IsByte buffer
    → length buffer ≡ widths ns
    → field_bytes (read_fields ns 0 buffer) ≡ buffer
field_bytes-read_all ns buffer bytes full =
    let back = field_bytes-read_fields ns 0 (widths ns) buffer bytes (omega arith) (omega arith) in
    let none_left : drop (widths ns) buffer ≡ [] =
      subst (λ n. drop n buffer ≡ []) full (drop-length buffer) in
    rw (none_left, append-nil) at back

pub field_bytes-sealed :
    (fields : List (ℕ × ℕ)) (crc : ℕ)
    → field_bytes (sealed fields crc) ≡ field_bytes fields ++ le_bytes 4 crc
field_bytes-sealed fields crc = field_bytes-append fields ((4, crc) ∷ [])

-- `bytes[:-4]` of a record with a checksum.
pub without_seal :
    (before : Text) (crc : ℕ)
    → let bytes = before ++ le_bytes 4 crc in take (length bytes - 4) bytes ≡ before
without_seal before crc =
    take-append (length (before ++ le_bytes 4 crc) - 4) before (le_bytes 4 crc)
      (omega (arith, length-append before (le_bytes 4 crc), length-le_bytes 4 crc))

pub sealed-FieldsFit :
    (fields : List (ℕ × ℕ)) (crc : ℕ)
    → FieldsFit fields
    → crc < 2 ^ 32
    → FieldsFit (sealed fields crc)
sealed-FieldsFit fields crc fit lt = FieldsFit-append fields ((4, crc) ∷ []) fit (omega arith, tt)

pub pack_fields-sealed :
    (fields : List (ℕ × ℕ)) (crc : ℕ)
    → FieldsFit fields
    → crc < 2 ^ 32
    → pack_fields (sealed fields crc) ≡ some (field_bytes fields ++ le_bytes 4 crc)
pack_fields-sealed fields crc fit lt =
    pack_fields-field_bytes (sealed fields crc) (sealed-FieldsFit fields crc fit lt)
    ∙ ap some (field_bytes-sealed fields crc)
