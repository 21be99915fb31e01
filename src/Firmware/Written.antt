-- ===== src/Firmware/Written.antt =====
-- The part of `build_blob` (generate_firmware.py) behind `normalize_source`.
use micro_nux.Base.{
  ℕ, ◌≤◌, ◌<◌, ◌≡◌, refl, some, List, [], ◌∷◌, length, All, ok, arith, length-map, ltb, false,
}
use micro_nux.Base.Bytes.{pack_fields-field_bytes}
use micro_nux.Base.Crc32.{crc32}
use micro_nux.Firmware.{max_payload_bytes, Command, IsBounded}
use micro_nux.Firmware.Build.{
  pack_record, pack_records, build_records, maximum, param_counts, delays,
}
use micro_nux.Firmware.Parse.{Firmware}
use micro_nux.Firmware.Encoding.{encode_record, encode_records, encode_firmware, header_fields}
use micro_nux.Firmware.Valid.{
  IsFirmware, IsFirmware-FieldsFit, payload_fits, greatest, param_counts-le, delays-le,
}

pack_record-encode_record : (c : Command) → IsBounded c → pack_record c ≡ ok (encode_record c)
unfolding pack_record
pack_record-encode_record c b = rw (
    pack_fields-field_bytes ((1, c.command) ∷ (1, length c.bytes) ∷ (2, c.delay_ms) ∷ [])
      (omega (arith, b.command_bound, b.bytes_bound, b.delay_bound)))

pack_records-encode_records :
    (records : List Command)
    → All IsBounded records
    → pack_records records ≡ ok (encode_records records)
unfolding pack_records
pack_records-encode_records [] b = refl
pack_records-encode_records (c ∷ records) b =
    rw (pack_record-encode_record c b.0, pack_records-encode_records records b.1)

abbrev summary : List Command → ℕ → ℕ → ℕ → Firmware
summary records prelude params delay = record {
  record_count = length records;
  prelude_count = prelude;
  payload_bytes = length (encode_records records);
  payload_crc32 = crc32 (encode_records records);
  flags = 7;
  max_params = params;
  max_delay_ms = delay;
  records = records;
}

module _ (records : List Command) (prelude : ℕ) (bounded : All IsBounded records)
    (some_given : 0 < length records) (few : length records ≤ 512)
    (within : prelude ≤ length records) where
  params : (m : ℕ) × (maximum (param_counts records) ≡ some m) × (m ≤ 64)
  params =
      greatest 64 (param_counts records) (omega (arith, length-map {0, 0} records _))
        (param_counts-le records bounded)

  delay : (m : ℕ) × (maximum (delays records) ≡ some m) × (m ≤ 5000)
  delay =
      greatest 5000 (delays records) (omega (arith, length-map {0, 0} records _))
        (delays-le records bounded)

  unfoldable pub written : Firmware
  unfolding params delay
  written = summary records prelude params.0 delay.0

  pub written-IsFirmware : IsFirmware written
  unfolding written
  written-IsFirmware = record {
    bounded = bounded;
    count = refl;
    some_records = some_given;
    few_records = few;
    prelude_bound = within;
    payload_length = refl;
    payload_sum = refl;
    flags_fixed = refl;
    greatest_params = params.1;
    greatest_delay = delay.1;
  }

  pub build_records-written : build_records records prelude ≡ ok (encode_firmware written)
  unfolding build_records written
  build_records-written = rw (
    pack_records-encode_records records bounded,
    small,
    params.1,
    delay.1,
    pack_fields-field_bytes (header_fields written) (IsFirmware-FieldsFit written-IsFirmware),
  )
    where
      small : ltb max_payload_bytes (length (encode_records records)) ≡ false
      small = ground (arith, payload_fits records bounded few)
