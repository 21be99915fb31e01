-- ===== src/Firmware/RoundTrip.antt =====
-- `build_blob` followed by `parse_blob` (generate_firmware.py).
use micro_nux.Base.{
  ℕ, ◌≤◌, ◌≡◌, refl, sym, ◌∙◌, List, [], Text, length, drop, ok, arith, text_eq_refl, ltb, false,
}
use mathlib.Core.List.{append-nil}
use micro_nux.Base.Json.{Json}
use micro_nux.Firmware.{Command, magic}
use micro_nux.Firmware.Source.{normalize_source}
use micro_nux.Firmware.Build.{build_blob}
use micro_nux.Firmware.Parse.{
  Header, Firmware, unpack_header, check_header, parse_payload, parse_blob,
}
use micro_nux.Firmware.Encoding.{encode_records, encode_firmware}
use micro_nux.Firmware.Records.{parse_records-encode_records}
use micro_nux.Firmware.Valid.{IsFirmware, IsFirmware-FieldsFit, payload_fits}
use micro_nux.Firmware.Written.{written, written-IsFirmware, build_records-written}
use micro_nux.Firmware.Accepted.{normalize_source-IsAccepted}

abbrev pub header_of : Firmware → Header
header_of f = record {
  magic_bytes = magic;
  version = 1;
  header_bytes = 32;
  record_count = f.record_count;
  prelude_count = f.prelude_count;
  payload_bytes = f.payload_bytes;
  payload_crc32 = f.payload_crc32;
  flags = 7;
  max_params = f.max_params;
  max_delay = f.max_delay_ms;
}

unpack_header-encode_firmware :
    (f : Firmware) → IsFirmware f → unpack_header (encode_firmware f) ≡ header_of f
unfolding unpack_header
unpack_header-encode_firmware f v = ground (arith, IsFirmware-FieldsFit v)

check_header-encode_firmware :
    (f : Firmware) → IsFirmware f → check_header (encode_firmware f) (header_of f) ≡ ok tt
unfolding check_header
check_header-encode_firmware f v =
    rw (text_eq_refl magic) (ground (arith, payload_fits f.records v.bounded (omega arith)))

parse_payload-encode_records :
    (f : Firmware) → IsFirmware f → parse_payload (encode_records f.records) (header_of f) ≡ ok f
unfolding parse_payload
parse_payload-encode_records f v =
    rw
      (
        v.count,
        parse_records-encode_records payload f.records [] 0 0 v.bounded (sym (append-nil payload)),
      )
      (ground arith)
  where
    payload : Text
    payload = encode_records f.records

-- A blob with a checked header is read by its payload.
pub parse_blob_step :
    (blob : Text) {h : Header}
    → unpack_header blob ≡ h
    → 32 ≤ length blob
    → check_header blob h ≡ ok tt
    → parse_blob blob ≡ parse_payload (drop h.header_bytes blob) h
unfolding parse_blob
parse_blob_step blob e long checked =
    let enough : ltb (length blob) 32 ≡ false = ground arith in rw (enough, e, checked)

-- A well-formed artifact is read back from its encoding.
pub parse_blob-encode_firmware :
    (f : Firmware) → IsFirmware f → parse_blob (encode_firmware f) ≡ ok f
parse_blob-encode_firmware f v =
    parse_blob_step (encode_firmware f) (unpack_header-encode_firmware f v) (omega arith)
      (check_header-encode_firmware f v)
    ∙ parse_payload-encode_records f v

-- For every accepted source `build_blob` returns an artifact and raises nothing more; `parse_blob`
-- reads it back, with the records and the prelude count of the source.
pub parse_blob-build_blob :
    (document : Json) {records : List Command} {prelude_count : ℕ}
    → normalize_source document ≡ ok (records, prelude_count)
    → (blob : Text) × (f : Firmware) × (build_blob document ≡ ok blob)
      × (parse_blob blob ≡ ok f)
      × (f.records ≡ records)
      × (f.prelude_count ≡ prelude_count)
parse_blob-build_blob document {records} {prelude_count} h =
    let a = normalize_source-IsAccepted document h in
    let f = written records prelude_count a.bounded a.some_records a.few_records a.prelude_bound in
    (
      encode_firmware f,
      f,
      unfold build_blob in
          rw (
            h,
            build_records-written records prelude_count a.bounded a.some_records a.few_records
                a.prelude_bound,
          ),
      parse_blob-encode_firmware f (
          written-IsFirmware records prelude_count a.bounded a.some_records a.few_records
            a.prelude_bound),
      unfold written in refl,
      unfold written in refl,
    )
