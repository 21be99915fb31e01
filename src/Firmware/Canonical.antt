-- ===== src/Firmware/Canonical.antt =====
-- The blobs that `parse_blob` (generate_firmware.py) accepts.
use mathlib.Core.List.{append-nil}
use micro_nux.Base.{
  ℕ, ◌+◌, ◌≤◌, ◌<◌, ◌≡◌, refl, sym, ap, ◌∙◌, subst, ◌-◌, ◌≢◌, [], ◌∷◌, ◌++◌, Text, length, drop,
  All, All-drop, length-drop, ok, some, arith, text_eq→eq, take-append-drop, drop-length,
  drop-append_le, take-append_le, length-append,
}
use micro_nux.Base.Bytes.{
  IsByte, le_at, le_value, field_bytes, read_fields, field_bytes-read_fields,
}
use micro_nux.Base.Crc32.{crc32}
use micro_nux.Firmware.{magic}
use micro_nux.Firmware.Build.{maximum, param_counts, delays}
use micro_nux.Firmware.Parse.{
  Header, Firmware, unpack_header, check_header, parse_payload, parse_blob, parse_records,
}
use micro_nux.Firmware.Encoding.{encode_records, encode_firmware, header_fields}
use micro_nux.Firmware.Records.{parse_records-Reads}
use micro_nux.Firmware.Valid.{IsFirmware}

record IsChecked (blob : Text) (h : Header) : Type 0 where
  magic_read : h.magic_bytes ≡ magic
  version_read : h.version ≡ 1
  size_read : h.header_bytes ≡ 32
  flags_read : h.flags ≡ 7
  some_records : 0 < h.record_count
  few_records : h.record_count ≤ 512
  prelude_bound : h.prelude_count ≤ h.record_count
  length_read : length blob ≡ 32 + h.payload_bytes

check_header-IsChecked : (blob : Text) (h : Header) → check_header blob h ≡ ok tt → IsChecked blob h
unfolding check_header
check_header-IsChecked blob h e = ground (arith, text_eq→eq h.magic_bytes magic)

record IsRead (payload : Text) (h : Header) (f : Firmware) : Type 0 where
  sum_read : crc32 payload ≡ h.payload_crc32
  records_read : parse_records payload h.record_count 0 0 ≡ ok (f.records, length payload)
  params_read : maximum (param_counts f.records) ≡ some h.max_params
  delay_read : maximum (delays f.records) ≡ some h.max_delay
  count_kept : f.record_count ≡ h.record_count
  prelude_kept : f.prelude_count ≡ h.prelude_count
  payload_kept : f.payload_bytes ≡ h.payload_bytes
  sum_kept : f.payload_crc32 ≡ h.payload_crc32
  flags_kept : f.flags ≡ h.flags
  params_kept : f.max_params ≡ h.max_params
  delay_kept : f.max_delay_ms ≡ h.max_delay

parse_payload-IsRead :
    (payload : Text) (h : Header) (f : Firmware)
    → parse_payload payload h ≡ ok f
    → IsRead payload h f
unfolding parse_payload
parse_payload-IsRead payload h f e = ground arith

parse_blob_cases :
    (blob : Text) (f : Firmware)
    → parse_blob blob ≡ ok f
    → (32 ≤ length blob)
      × (check_header blob (unpack_header blob) ≡ ok tt)
      × (parse_payload (drop (unpack_header blob).header_bytes blob) (unpack_header blob) ≡ ok f)
unfolding parse_blob
parse_blob_cases blob f e = ground arith

parsed_length :
    (blob : Text) (f : Firmware)
    → parse_blob blob ≡ ok f
    → (32 ≤ length blob) × (length blob ≡ 32 + le_at 4 16 blob)
unfolding unpack_header
parsed_length blob f e =
    let (long, checked, _) = parse_blob_cases blob f e in
    (long, (check_header-IsChecked blob _ checked).length_read)

module _ (blob : Text) (f : Firmware) (are_bytes : All IsByte blob)
    (e : parse_blob blob ≡ ok f) where
  header : Header
  header = unpack_header blob

  payload : Text
  payload = drop 32 blob

  checked : IsChecked blob header
  unfolding header
  checked = check_header-IsChecked blob _ (parse_blob_cases blob f e).1

  read : IsRead payload header f
  unfolding header payload
  read =
      subst (λ n. IsRead (drop n blob) (unpack_header blob) f) checked.size_read
        (parse_payload-IsRead _ _ f (parse_blob_cases blob f e).2)

  payload_bytes : All IsByte payload
  unfolding payload
  payload_bytes = All-drop IsByte 32 blob are_bytes

  length-payload : length payload ≡ length blob - 32
  unfolding payload
  length-payload = length-drop 32 blob

  payload_encoded : payload ≡ encode_records f.records
  payload_encoded =
      let r =
        parse_records-Reads payload payload_bytes _ 0 0 f.records _ (omega arith)
          read.records_read in
      r.encoded ∙ rw (drop-length payload) (append-nil (encode_records f.records))

  parsed-IsFirmware : IsFirmware f
  parsed-IsFirmware =
      let r =
        parse_records-Reads payload payload_bytes _ 0 0 f.records _ (omega arith)
          read.records_read in
      record {
        bounded = r.bounded;
        count = ground (arith, r.count, read.count_kept);
        some_records = omega (arith, read.count_kept, checked.some_records);
        few_records = omega (arith, read.count_kept, checked.few_records);
        prelude_bound = omega (arith, read.count_kept, read.prelude_kept, checked.prelude_bound);
        payload_length = omega (
          arith,
          read.payload_kept,
          checked.length_read,
          length-payload,
          ap length payload_encoded,
        );
        payload_sum = read.sum_kept ∙ sym read.sum_read ∙ ap crc32 payload_encoded;
        flags_fixed = read.flags_kept ∙ checked.flags_read;
        greatest_params = read.params_read ∙ ap some (sym read.params_kept);
        greatest_delay = read.delay_read ∙ ap some (sym read.delay_kept);
      }

  fields_read : read_fields (2 ∷ 2 ∷ 2 ∷ 2 ∷ 4 ∷ 4 ∷ 4 ∷ 2 ∷ 2 ∷ []) 8 blob ≡ header_fields f
  unfolding header unpack_header
  fields_read = ground (
    arith, checked.version_read, checked.size_read, checked.flags_read, read.count_kept,
    read.prelude_kept, read.payload_kept, read.sum_kept, read.params_kept, read.delay_kept,
  )

  parsed-encode_firmware : blob ≡ encode_firmware f
  unfolding header payload unpack_header
  parsed-encode_firmware =
      sym (take-append-drop 8 blob)
      ∙ ap (λ s. s ++ drop 8 blob) checked.magic_read
      ∙ ap (λ s. magic ++ s)
          (sym (
              field_bytes-read_fields (2 ∷ 2 ∷ 2 ∷ 2 ∷ 4 ∷ 4 ∷ 4 ∷ 2 ∷ 2 ∷ []) 8 32 blob are_bytes
                refl (parse_blob_cases blob f e).0)
            ∙ ap (λ s. field_bytes s ++ drop 32 blob) fields_read
            ∙ ap (λ s. field_bytes (header_fields f) ++ s) payload_encoded)

-- An accepted blob of bytes is the encoding of the well-formed artifact that is returned: every
-- count, limit, checksum and maximum in it is right, and nothing follows its last record.
pub parse_blob-eq-ok :
    (blob : Text) (f : Firmware)
    → All IsByte blob
    → parse_blob blob ≡ ok f
    → IsFirmware f × (blob ≡ encode_firmware f)
parse_blob-eq-ok blob f are_bytes e =
    (parsed-IsFirmware blob f are_bytes e, parsed-encode_firmware blob f are_bytes e)

-- `parse_blob` rejects every proper prefix of a blob that it accepts.
pub parse_blob_truncated :
    (front : Text) (x : ℕ) (back : Text) {f g : Firmware}
    → parse_blob (front ++ (x ∷ back)) ≡ ok f
    → parse_blob front ≢ ok g
parse_blob_truncated front x back whole part =
    let (long, size) = parsed_length front _ part in
    let (_, whole_size) = parsed_length (front ++ (x ∷ back)) _ whole in
    let same : le_at 4 16 (front ++ (x ∷ back)) ≡ le_at 4 16 front =
      rw (drop-append_le 16 front (x ∷ back) (omega arith)) (
        ap le_value
          (take-append_le 4 (drop 16 front) (x ∷ back) (omega (arith, length-drop 16 front)))) in
    absurd (omega (arith, length-append {0} front (x ∷ back)))
