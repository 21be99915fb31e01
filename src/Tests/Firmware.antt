-- ===== src/Tests/Firmware.antt =====
-- Runs of generate_firmware.py.
use micro_nux.Base.{
  ℕ, ◌≡◌, ◌≢◌, refl, List, [], ◌∷◌, Text, codes, text_eq, some, pos, ok, raise, arith,
}
use micro_nux.Base.Crc32.{crc32}
use micro_nux.Base.Json.{Json, Items, Fields, get_field}
use micro_nux.Base.Numbers.{parse_int, from_hex}
use micro_nux.Firmware.{Command, format, data_not_hex}
use micro_nux.Firmware.Source.{read_record, read_records, normalize_source}
use micro_nux.Firmware.Build.{build_blob}
use micro_nux.Firmware.Parse.{
  Firmware, unpack_header, check_header, parse_payload, parse_records, parse_blob,
}
use micro_nux.Firmware.Encoding.{encode_firmware}
use micro_nux.Firmware.Valid.{IsFirmware}
use micro_nux.Firmware.Accepted.{IsAccepted, normalize_source-IsAccepted}
use micro_nux.Firmware.RoundTrip.{parse_blob-encode_firmware, parse_blob-build_blob}
use micro_nux.Firmware.Canonical.{parse_blob-eq-ok, parse_blob_truncated}

abbrev item : Json → Text → ℕ → Json
item command hex delay = Json.object (
    Fields.field (codes "command") command (
      Fields.field (codes "data") (Json.text hex)
        (Fields.field (codes "delay_ms") (Json.integer (pos delay)) Fields.end)))

abbrev document : Json
document = Json.object (
    Fields.field (codes "schema") (Json.text (codes "micronux-jd9365-command-source-v1")) (
      Fields.field (codes "license") (Json.text (codes "Apache-2.0")) (
        Fields.field (codes "prelude")
          (Json.array (Items.cons (item (Json.text (codes "0x11")) [] 120) Items.nil))
          (Fields.field (codes "vendor_records")
            (Json.array (Items.cons (item (Json.integer (pos 0xb0)) (codes "5A 01") 0) Items.nil))
            (Fields.field (codes "profile")
              (Json.object (
                Fields.field (codes "prelude_records") (Json.integer (pos 1))
                  (Fields.field (codes "vendor_records") (Json.float (some (pos 1))) Fields.end)))
              Fields.end)))))

abbrev records : List Command
records =
    record { command = 0x11; bytes = []; delay_ms = 120 }
    ∷ record { command = 0xb0; bytes = 0x5a ∷ 0x01 ∷ []; delay_ms = 0 }
    ∷ []

abbrev blob : Text
blob =
    77 ∷ 78 ∷ 74 ∷ 68 ∷ 57 ∷ 51 ∷ 54 ∷ 53 ∷ 1 ∷ 0 ∷ 32 ∷ 0 ∷ 2 ∷ 0 ∷ 1 ∷ 0 ∷ 10 ∷ 0 ∷ 0 ∷ 0 ∷ 216
    ∷ 205 ∷ 10 ∷ 3 ∷ 7 ∷ 0 ∷ 0 ∷ 0 ∷ 2 ∷ 0 ∷ 120 ∷ 0 ∷ 17 ∷ 0 ∷ 120 ∷ 0 ∷ 176 ∷ 2 ∷ 0 ∷ 0 ∷ 90 ∷ 1
    ∷ []

abbrev firmware : Firmware
firmware = record {
  record_count = 2;
  prelude_count = 1;
  payload_bytes = 10;
  payload_crc32 = 51039704;
  flags = 7;
  max_params = 2;
  max_delay_ms = 120;
  records = records;
}

accepted : normalize_source document ≡ ok (records, 1)
unfolding normalize_source read_records read_record get_field parse_int from_hex text_eq
accepted = refl

parsed : parse_blob blob ≡ ok firmware
unfolding parse_blob unpack_header check_header parse_payload parse_records crc32 text_eq
parsed = refl

rejected_hex :
    read_record (item (Json.integer (pos 1)) (codes "5") 0) 3 ≡ raise (format (data_not_hex 3))
unfolding read_record get_field parse_int from_hex text_eq
rejected_hex = refl

firmware-IsFirmware : IsFirmware firmware
firmware-IsFirmware = (parse_blob-eq-ok blob firmware (omega arith) parsed).0

normalize_source-IsAccepted_example : IsAccepted records 1
normalize_source-IsAccepted_example = normalize_source-IsAccepted document accepted

parse_blob-build_blob_example :
    (b : Text) × (f : Firmware) × (build_blob document ≡ ok b)
    × (parse_blob b ≡ ok f)
    × (f.records ≡ records)
    × (f.prelude_count ≡ 1)
parse_blob-build_blob_example = parse_blob-build_blob document accepted

parse_blob-encode_firmware_example : parse_blob (encode_firmware firmware) ≡ ok firmware
parse_blob-encode_firmware_example = parse_blob-encode_firmware firmware firmware-IsFirmware

parse_blob-eq-ok_example : IsFirmware firmware × (blob ≡ encode_firmware firmware)
parse_blob-eq-ok_example = parse_blob-eq-ok blob firmware (omega arith) parsed

abbrev front : Text
front =
    77 ∷ 78 ∷ 74 ∷ 68 ∷ 57 ∷ 51 ∷ 54 ∷ 53 ∷ 1 ∷ 0 ∷ 32 ∷ 0 ∷ 2 ∷ 0 ∷ 1 ∷ 0 ∷ 10 ∷ 0 ∷ 0 ∷ 0 ∷ 216
    ∷ 205 ∷ 10 ∷ 3 ∷ 7 ∷ 0 ∷ 0 ∷ 0 ∷ 2 ∷ 0 ∷ 120 ∷ 0 ∷ 17 ∷ 0 ∷ 120 ∷ 0 ∷ 176 ∷ 2 ∷ 0 ∷ 0 ∷ 90 ∷ []

parse_blob_truncated_example : parse_blob front ≢ ok firmware
parse_blob_truncated_example = parse_blob_truncated front 1 [] {f = firmware} parsed
